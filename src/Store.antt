-- ===== src/Store.antt =====
-- The journal store (core/controller/store.mjs): the file of events, one canonical JSON text a line,
-- and the session of the process that owns it. The file system's calls are read from the record
-- `Disk`, one view for each call of the store; what Node's `path` and `JSON.parse` give is the record
-- `Runtime`.
pub mod Encode
pub mod Paths
pub mod Read
pub mod Append
pub mod Owner
pub mod Valid
pub mod Demo
mod Samples
use eoduksini.Base.{ℕ, String, Bool, Option, List}
use eoduksini.Base.Result.{Result, ok, err}
use eoduksini.Controller.Types.{Reason, Event, Policy, State, Project}
use eoduksini.Controller.Contracts.{Done}

pub data StoreReason : Type 0 where
  unsafe_path state_exists nested_state_path noncanonical_repo_path : StoreReason
  journal_corrupt journal_limit journal_changed journal_write_failed : StoreReason
  owner_present owner_lost session_invalid attempt_recovery_required : StoreReason
  invalid_harness_binding invalid_evidence unknown_attempt json_too_large : StoreReason
  -- thrown by `eventContract`, `reduce` or `policyContract`
  refused : Reason → StoreReason

-- What `lstatSync` says of a path.
pub data Kind : Type 0 where
  symlink regular directory : Kind

-- The journal as `fstatSync` and `readSync` give it: its device and inode, its links, and its
-- characters as `TextDecoder` decodes them. Bytes that are no UTF-8 are not represented: `readStore`
-- refuses them as it refuses a text that does not parse.
pub record File : Type 0 where
  pub identity : ℕ
  pub links : ℕ
  pub content : List ℕ

-- One state of the files under the root. `owner` is the owner's directory with the text of its
-- token, if that is there; `journal` is none when the path is not a regular file.
pub record Disk : Type 0 where
  pub owner : Option (Option String)
  pub journal : Option File
  pub kind_of : List (List ℕ) → Option Kind

-- What the store takes from elsewhere: Node's `path.resolve`, `path.isAbsolute`, `path.join`,
-- `path.relative` and `fs.realpathSync`; `JSON.parse`, with the event that the text stands for; the
-- head commit of `baseline` in core/project.mjs; and `policyContract`. The separator is that of POSIX.
pub record Runtime : Type 0 where
  pub resolve : List ℕ → List ℕ
  pub is_absolute : List ℕ → Bool
  pub join : String → List ℕ → String
  pub relative : String → String → List ℕ
  pub real_path : List (List ℕ) → String
  pub parse : List ℕ → Option Event
  pub head : String → Project → String
  pub policy_contract : Policy → Done
  -- the decimal text of a size in 2 ^ -20 GiB that is not whole
  pub print_memory : ℕ → String

-- The session's `meta`.
pub record Meta : Type 0 where
  pub state : State
  pub seq : ℕ
  pub last_digest : String
  pub bytes : ℕ

-- The variables of `withStore`, with the identity of the file that it opened.
pub record Session : Type 0 where
  pub token : String
  pub valid : Bool
  pub journal_identity : ℕ
  pub meta : Meta
  pub prepared_here : List String

abbrev pub Stored {ℓ} : Type ℓ → Type ℓ
Stored A = Result StoreReason A

abbrev pub max_journal_bytes : ℕ
max_journal_bytes = 16777216

abbrev pub headroom : ℕ
headroom = 65536

abbrev pub newline : ℕ
newline = 10

-- A call of the reducer or of a contract.
abbrev pub from_reason {ℓ} : {A : Type ℓ} → Result Reason A → Stored A
from_reason (ok a) = ok a
from_reason (err r) = err (refused r)

-- ===== src/Store/Read.antt =====
-- `readStore` of core/controller/store.mjs: the journal's lines are replayed, each one chained to the
-- line before it, and every failure of that is JOURNAL_CORRUPT.
pub mod Lines
use eoduksini.Base.Text.{byte_length}
use eoduksini.Base.Result.{ok, ◌>>=◌, err, ◌>>◌, check}
use eoduksini.Store.Paths.{inspect_path, separate}
use eoduksini.Controller.Event.{event_contract, max_event_bytes, is_none}
use eoduksini.Base.Split.{split_on}
use eoduksini.Store.{
  Runtime, newline, File, Stored, Meta, journal_corrupt, unsafe_path, max_journal_bytes, Disk,
  from_reason, noncanonical_repo_path,
}
use eoduksini.Controller.Types.{State, Event}
use eoduksini.Controller.Reduce.{initial_state, reduce}
use eoduksini.Controller.Contracts.{Contracts}
use eoduksini.Base.{
  ℕ, String, List, none, some, Option, ◌+◌, ◌&&◌, not, length, ◌==◌, leb, ltb, Bool, true, false,
  str_eq, ◌∷◌, [],
}

-- state, seq and last_digest behind the lines that were read.
pub record Position : Type 0 where
  pub state : Option State
  pub seq : ℕ
  pub last_digest : Option String

abbrev pub start_position : Position
start_position = record { state = initial_state; seq = 0; last_digest = none }

-- event.prev_digest===last_digest
pub same_digest : Option String → Option String → Bool
same_digest none none = true
same_digest (some a) (some b) = str_eq a b
same_digest _ _ = false

unfoldable pub ends_with_newline : List ℕ → Bool
ends_with_newline [] = false
ends_with_newline (c ∷ []) = c == newline
ends_with_newline (c ∷ d ∷ l) = ends_with_newline (d ∷ l)

-- text.slice(0,-1)
unfoldable pub drop_last : List ℕ → List ℕ
drop_last [] = []
drop_last (c ∷ []) = []
drop_last (c ∷ d ∷ l) = c ∷ drop_last (d ∷ l)

module _ (c : Contracts) (rt : Runtime) where
  pub parse_line : List ℕ → Stored Event
  parse_line line = elim (rt.parse line) [ none ↦ err journal_corrupt | some e ↦ ok e ]

  unfoldable pub read_line : Position → List ℕ → Stored Position
  unfolding parse_line same_digest event_contract
  read_line p line = do
    check (not (length line == 0) && leb (byte_length line + 1) max_event_bytes) journal_corrupt
    event ← parse_line line
    from_reason (event_contract c event)
    check (event.seq == p.seq + 1 && same_digest event.prev_digest p.last_digest) journal_corrupt
    state ← from_reason (reduce c p.state event)
    ok (record { state = some state; seq = event.seq; last_digest = some event.digest })

  unfoldable pub read_lines : Position → List (List ℕ) → Stored Position
  unfolding read_line
  read_lines p [] = ok p
  read_lines p (line ∷ lines) = do q ← read_line p line; read_lines q lines

  -- `meta` of a position that has a state.
  meta_at : Position → ℕ → Stored Meta
  meta_at p bytes = elim p.state [
    | none ↦ err journal_corrupt
    | some s ↦ elim p.last_digest [
      | none ↦ err journal_corrupt
      | some d ↦ ok (record { state = s; seq = p.seq; last_digest = d; bytes = bytes })
    ]
  ]

  unfoldable pub read_content : List ℕ → Stored Meta
  unfolding read_lines ends_with_newline drop_last meta_at split_on
  read_content text = do
    check (ltb 0 (byte_length text) && leb (byte_length text) max_journal_bytes) journal_corrupt
    check (ends_with_newline text) journal_corrupt
    p ← read_lines start_position (split_on newline (drop_last text))
    meta_at p (byte_length text)

  -- catch: throw new Error('JOURNAL_CORRUPT: '+error.message)
  as_corrupt {ℓ} : {A : Type ℓ} → Stored A → Stored A
  as_corrupt (ok a) = ok a
  as_corrupt (err _) = err journal_corrupt

  read_journal : Option File → Stored Meta
  unfolding read_content
  read_journal none = err unsafe_path
  read_journal (some file) = do check (file.links == 1) unsafe_path; read_content file.content

  -- The result, with `owner_present`.
  unfoldable pub read_store : Disk → String → Stored (Meta × Bool)
  unfolding read_journal as_corrupt inspect_path separate
  read_store disk state_root = do
    root ← inspect_path rt disk false false state_root
    meta ← as_corrupt (read_journal disk.journal)
    repo ← inspect_path rt disk false false meta.state.repo_root
    separate rt root repo
    check (str_eq repo meta.state.repo_root) noncanonical_repo_path
    ok (meta, not (is_none disk.owner))

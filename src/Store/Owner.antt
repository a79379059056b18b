-- ===== src/Store/Owner.antt =====
-- `initializeStore`, and how `withStore` takes and gives back the root (core/controller/store.mjs). One
-- process owns a root at a time: the owner's directory is made by a call that fails if it is there.
pub mod Exclusive
use eoduksini.Controller.Event.{max_event_bytes}
use eoduksini.Base.Text.{byte_length}
use eoduksini.Controller.Reduce.{reduce}
use eoduksini.Store.Encode.{make_event, line_of}
use eoduksini.Base.Result.{err, ok, check, ◌>>◌, ◌>>=◌}
use eoduksini.Store.Paths.{inspect_path, separate}
use eoduksini.Store.Read.{read_store}
use eoduksini.Store.{
  Disk, Stored, Runtime, Session, owner_present, unsafe_path, owner_lost, journal_write_failed,
  invalid_harness_binding, Meta, from_reason, newline, json_too_large,
}
use eoduksini.Controller.Contracts.{Contracts}
use eoduksini.Store.Append.{is_owned}
use eoduksini.Base.{
  ℕ, String, List, none, some, Option, ◌+◌, ◌&&◌, not, ◌==◌, leb, ltb, Bool, true, false, ◌≡◌, [],
  ◌∷◌, if◌then◌else◌, str_eq, ◌++◌,
}
use eoduksini.Controller.Types.{Revision, Policy, Project, init}

-- The owner's directory is made, and the token written. `remnant` is what a failure leaves of it.
unfoldable pub take_owner :
    Disk → String → (remnant : Option (Option String)) → Disk × Stored (Unit {0})
take_owner disk token remnant = elim disk.owner [
  | some _ ↦ (disk, err owner_present)
  | none ↦ elim remnant [
    | some left ↦ (record disk { owner = some left }, err journal_write_failed)
    | none ↦ (record disk { owner = some (some token) }, ok tt)
  ]
]

-- The `finally` block: the owner is removed by the process whose token it is.
unfoldable pub release : Disk → String → Disk × Stored (Unit {0})
unfolding is_owned
release disk token =
    if is_owned disk token then (record disk { owner = none }, ok tt) else (disk, err owner_lost)

-- regularOpen(events.jsonl) with the identity of the file.
open_journal : Disk → Stored ℕ
open_journal disk = elim disk.journal [
  | none ↦ err unsafe_path
  | some file ↦ check (file.links == 1) unsafe_path >> ok file.identity
]

module _ (c : Contracts) (rt : Runtime) where
  -- The session that the callback gets.
  unfoldable pub open_session : Disk → (state_root token : String) → Stored Session
  unfolding is_owned read_store open_journal
  open_session disk state_root token = do
    check (is_owned disk token) owner_lost
    (meta, _) ← read_store c rt disk state_root
    identity ← open_journal disk
    ok (record {
      token = token;
      valid = true;
      journal_identity = identity;
      meta = meta;
      prepared_here = [];
    })

  -- Until the callback runs: a session, or the root given back.
  unfoldable pub begin_session :
      Disk
      → (state_root token : String) → (remnant : Option (Option String)) → Disk × Stored Session
  unfolding inspect_path take_owner open_session release
  begin_session disk state_root token remnant = elim (inspect_path rt disk false false state_root) [
    | err r ↦ (disk, err r)
    | ok _ ↦
        let (taken, result) = take_owner disk token remnant in
        elim result [
          | err r ↦ (taken, err r)
          | ok _ ↦ elim (open_session taken state_root token) [
            | err r ↦ ((release taken token).0, err r)
            | ok s ↦ (taken, ok s)
          ]
        ]
  ]

  bound_to_head : String → Project → Option Revision → Stored (Unit {0})
  bound_to_head repo project none = ok tt
  bound_to_head repo project (some r) =
      check (str_eq r.source_git_sha (rt.head repo project)) invalid_harness_binding

  -- The line that the new journal has, with `meta` of it.
  unfoldable pub initialize_store :
      Disk
      → (state_root repo_root : String) → Project
      → Policy
      → Option Revision
      → Stored (List ℕ × Meta)
  unfolding inspect_path separate make_event bound_to_head line_of
  initialize_store disk state_root repo_root project policy revision = do
    root ← inspect_path rt disk true false state_root
    _ ← from_reason (make_event c rt none 0 none (init repo_root project policy revision))
    from_reason (rt.policy_contract policy)
    repo ← inspect_path rt disk false false repo_root
    separate rt root repo
    bound_to_head repo project revision
    event ← from_reason (make_event c rt none 0 none (init repo project policy revision))
    state ← from_reason (reduce c none event)
    check (leb (byte_length (line_of c event ++ newline ∷ [])) max_event_bytes) json_too_large
    ok (
      line_of c event ++ newline ∷ [],
      record {
        state = state;
        seq = 1;
        last_digest = event.digest;
        bytes = byte_length (line_of c event ++ newline ∷ []);
      },
    )

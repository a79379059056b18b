-- ===== src/Store/Append.antt =====
-- The session of `withStore` in core/controller/store.mjs: `append` and `evidencePath`, on the files as
-- they are found when the call begins (`seen`) and when it comes to writing (`now`). A write that
-- fails may leave any part of the line behind.
pub mod Accepted
pub mod Roundtrip
pub mod Torn
pub mod Fence
pub mod Room
use eoduksini.Base.Dict.{has, lookup}
use eoduksini.Base.Text.{byte_length}
use eoduksini.Controller.Reduce.{reduce}
use eoduksini.Store.Encode.{make_event, line_of}
use eoduksini.Base.Result.{err, ◌>>◌, check, ok, ◌>>=◌, Result}
use eoduksini.Controller.Event.{max_event_bytes, is_none, identifier}
use eoduksini.Controller.Types.{
  Payload, Reason, command_prepared, attempt_prepared, Event, command_started, State,
  command_finished, finished, json_input_too_large,
}
use eoduksini.Controller.Contracts.{Contracts}
use eoduksini.Store.{
  Session, Disk, Runtime, Stored, File, StoreReason, max_journal_bytes, unsafe_path,
  invalid_evidence, journal_changed, headroom, journal_limit, unknown_attempt, owner_lost,
  journal_write_failed, session_invalid, refused, attempt_recovery_required, newline,
}
use eoduksini.Base.{
  take, ℕ, String, List, none, some, Option, ◌+◌, ◌&&◌, not, ◌==◌, leb, ltb, Bool, true, false, ◌∷◌,
  includes, str_eq, ◌++◌, ◌||◌, length, if◌then◌else◌, [],
}

pub record Appended : Type 0 where
  pub disk : Disk
  pub session : Session
  pub result : Stored State

unfoldable pub owner_token : Disk → Option String
owner_token disk = elim disk.owner [ none ↦ none | some t ↦ t ]

-- owned()
unfoldable pub is_owned : Disk → String → Bool
unfolding owner_token
is_owned disk token = elim (owner_token disk) [ none ↦ false | some t ↦ str_eq t token ]

-- type.startsWith('COMMAND_') || type==='FINISHED', with the attempt.
unfoldable pub continues : Payload → Option String
continues (command_prepared id _) = some id
continues (command_started id _ _ _) = some id
continues (command_finished id _ _ _ _) = some id
continues (finished id _ _) = some id
continues _ = none

-- PREPARED, with the attempt.
unfoldable pub prepared_attempt : Payload → Option String
prepared_attempt (attempt_prepared id _ _ _) = some id
prepared_attempt _ = none

pub is_prepared_here : List String → Option String → Bool
is_prepared_here l none = true
is_prepared_here l (some id) = includes l id

pub add_prepared : List String → Option String → List String
add_prepared l none = l
add_prepared l (some id) = id ∷ l

abbrev pub invalidate : Session → Session
invalidate s = record s { valid = false }

abbrev pub refuse : Disk → Session → StoreReason → Appended
refuse disk s r = record { disk = disk; session = s; result = err r }

-- An input that is too large ends the session.
pub after_refusal : Session → Reason → Session
after_refusal s json_input_too_large = invalidate s
after_refusal s _ = s

pub fits : Session → Payload → ℕ → Bool
unfolding prepared_attempt
fits s p size =
    leb size max_event_bytes
    && leb (s.meta.bytes + size) max_journal_bytes
    && (is_none (prepared_attempt p) || leb (s.meta.bytes + size + headroom) max_journal_bytes)

-- The journal is the file that the session opened, as long as the session left it.
unchanged_journal : Session → Disk → Stored File
unchanged_journal s disk = elim disk.journal [
  | none ↦ err unsafe_path
  | some file ↦
      check
        (file.identity == s.journal_identity
          && byte_length file.content == s.meta.bytes
          && file.links == 1)
        journal_changed
      >> ok file
]

-- What stands in front of the write.
pub may_write : Session → Disk → Payload → List ℕ → Stored File
unfolding fits unchanged_journal is_owned
may_write s now p text = do
  check (fits s p (byte_length text)) journal_limit
  file ← unchanged_journal s now
  check (is_owned now s.token) owner_lost
  ok file

pub with_content : Disk → File → List ℕ → Disk
with_content disk file text = record disk { journal = some (record file { content = text }) }

-- The session behind an event that was written.
unfoldable pub advance : Session → Event → State → ℕ → Session
unfolding prepared_attempt add_prepared
advance s e next size = record s {
  meta = record { state = next; seq = e.seq; last_digest = e.digest; bytes = s.meta.bytes + size };
  prepared_here = add_prepared s.prepared_here (prepared_attempt e.payload);
}

-- `fault` is the number of characters that a failing write leaves.
unfoldable pub write_event : Session → Disk → (fault : Option ℕ) → Event → State → List ℕ → Appended
unfolding may_write with_content advance
write_event s now fault e next text = elim (may_write s now e.payload text) [
  | err r ↦ refuse now (invalidate s) r
  | ok file ↦ elim fault [
    | some n ↦
        refuse (with_content now file (file.content ++ take n text)) (invalidate s)
          journal_write_failed
    | none ↦ record {
      disk = with_content now file (file.content ++ text);
      session = advance s e next (byte_length text);
      result = ok next;
    }
  ]
]

module _ (c : Contracts) (rt : Runtime) where
  -- The event that comes next and the state behind it, or the session behind a refusal.
  unfoldable pub next_event : Session → Payload → Result (Session × StoreReason) (Event × State)
  unfolding after_refusal is_prepared_here continues make_event
  next_event s p =
      elim (make_event c rt (some s.meta.state) s.meta.seq (some s.meta.last_digest) p) [
        | err r ↦ err (after_refusal s r, refused r)
        | ok e ↦
            if not (is_prepared_here s.prepared_here (continues p))
            then err (s, attempt_recovery_required)
            else elim (reduce c (some s.meta.state) e) [
              | err r ↦ err (s, refused r)
              | ok next ↦ ok (e, next)
            ]
      ]

  -- session.append(type, payload)
  unfoldable pub append : (seen now : Disk) → (fault : Option ℕ) → Session → Payload → Appended
  append seen now fault s p =
      if not s.valid
      then refuse now s session_invalid
      else if not (is_owned seen s.token)
      then refuse now (invalidate s) owner_lost
      else elim (next_event s p) [
        | err (s', r) ↦ refuse now s' r
        | ok (e, next) ↦ write_event s now fault e next (line_of c e ++ newline ∷ [])
      ]

  -- An attempt without its approval would be a TypeError.
  evidence_known : Session → String → ℕ → Stored (Unit {0})
  unfolding identifier lookup
  evidence_known s id index = do
    check (identifier id && ltb index 16) invalid_evidence
    check (includes s.prepared_here id && has id s.meta.state.attempts) unknown_attempt
    elim (lookup id s.meta.state.approvals) [
      | none ↦ err unknown_attempt
      | some e ↦ check (ltb index (length e.request.commands)) invalid_evidence
    ]

  -- session.evidencePath(attemptId, index): the file has the attempt and the index for its name.
  unfoldable pub evidence_path : Disk → Session → String → ℕ → Session × Stored (String × ℕ)
  unfolding evidence_known is_owned
  evidence_path disk s id index =
      if not s.valid
      then (s, err session_invalid)
      else if not (is_owned disk s.token)
      then (invalidate s, err owner_lost)
      else (s, evidence_known s id index >> ok (id, index))

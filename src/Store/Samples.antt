-- ===== src/Store/Samples.antt =====
-- The theorems about the store at a small session.
use eoduksini.Base.Text.{codes, byte_length}
use eoduksini.Store.Paths.Safe.{Plain, inspect_path-Plain}
use eoduksini.Store.Valid.{Run-IsValid}
use eoduksini.Base.Split.{split_on}
use eoduksini.Store.Owner.{begin_session, take_owner, open_session}
use eoduksini.Store.Paths.{inspect_path, walk, separate}
use eoduksini.Controller.Reduce.Valid.{IsValid}
use eoduksini.Store.Append.Fence.{Run, accept, stay, prepares_here, Run-fenced}
use eoduksini.Base.Dict.{insert, lookup}
use eoduksini.Controller.Dispatch.{prepare_attempt, approved_entry, prepare_command, active_attempt}
use eoduksini.Store.Append.Torn.{append-torn}
use eoduksini.Store.Append.Room.{append-room, prepared-room}
use eoduksini.Store.Owner.Exclusive.{append-exclusive, begin_session-owner, begin_session-refused}
use eoduksini.Store.Append.{
  append, next_event, is_owned, fits, write_event, advance, continues, prepared_attempt,
}
use eoduksini.Store.Append.Roundtrip.{Faithful, append-Faithful}
use eoduksini.Controller.Types.{State, Payload, attempt_prepared, prepared, command_prepared}
use eoduksini.Store.{
  Session, File, Disk, newline, journal_corrupt, journal_write_failed, owner_present,
}
use eoduksini.Base.Result.{ok, err}
use eoduksini.Store.Demo.{
  demo, first_line, first_meta, approved_event, first_session, first_disk, disk_with,
  approved_state, approved_payload, first_state,
}
use eoduksini.Controller.Demo.{lax, running_state, running_attempt, hash}
use eoduksini.Base.Path.{equal_codes, has_code, parts, is_prefix}
use eoduksini.Base.Json.{canonical}
use eoduksini.Store.Encode.{line_of, event_body, make_event, next_epoch}
use eoduksini.Controller.Event.{event_contract, with_digest, is_none}
use eoduksini.Controller.Reduce.{
  reduce, start, step, apply, fences, record_approval, update_attempt, on_attempt,
}
use eoduksini.Store.Read.{read_content, read_lines, read_line, read_store}
use eoduksini.Base.{
  ℕ, String, none, some, true, false, ◌≡◌, [], ◌∷◌, refl, arith, ◌<◌, ◌≤◌, any, List, ◌⊎◌, ◌≢◌,
  eq_iff, inr, Option, ◌++◌,
}

first_reads : read_content lax demo first_line ≡ ok first_meta
unfolding read_content read_lines read_line reduce start step event_contract line_of event_body
    canonical with_digest equal_codes
first_reads = refl

first_Faithful : Faithful lax demo first_disk first_session
first_Faithful = (record { identity = 5; links = 1; content = first_line }, refl, first_reads)

approval_made :
    make_event lax demo (some first_state) 1 (some hash) approved_payload ≡ ok approved_event
unfolding make_event event_body next_epoch event_contract
approval_made = refl

approval_accepted :
    (append lax demo first_disk first_disk none first_session approved_payload).result
    ≡ ok approved_state
unfolding append next_event make_event is_owned event_body next_epoch event_contract write_event
    reduce step apply fences record_approval insert lookup line_of canonical with_digest
approval_accepted = refl

approval_clean : has_code newline (line_of lax approved_event) ≡ false
unfolding line_of event_body canonical with_digest
approval_clean = refl

approval_parsed : demo.parse (line_of lax approved_event) ≡ some approved_event
unfolding line_of event_body canonical with_digest equal_codes
approval_parsed = refl

append-Faithful_example :
    Faithful lax demo
      (append lax demo first_disk first_disk none first_session approved_payload).disk
      (append lax demo first_disk first_disk none first_session approved_payload).session
    × ((append lax demo first_disk first_disk none first_session
          approved_payload).session.meta.state
        ≡ approved_state)
append-Faithful_example =
    append-Faithful lax demo first_disk first_disk none first_session approved_payload
      approved_event first_Faithful approval_made approval_parsed approval_clean approval_accepted

append-room_example :
    (file : File) × (text : List ℕ) × (first_disk.journal ≡ some file)
    × ((append lax demo first_disk first_disk none first_session approved_payload).disk
        ≡ record first_disk { journal = some (record file { content = file.content ++ text }) })
    × (byte_length file.content ≡ first_meta.bytes)
    × (0 < byte_length text)
    × (byte_length text ≤ 262144)
    × (byte_length (file.content ++ text)
        ≡ (append lax demo first_disk first_disk none first_session
            approved_payload).session.meta.bytes)
    × (byte_length (file.content ++ text) ≤ 16777216)
    × (fits first_session approved_payload (byte_length text) ≡ true)
append-room_example =
    append-room lax demo first_disk first_disk none first_session approved_payload approval_accepted

-- A session whose owner was replaced, at the write of another session.
abbrev stale_session : Session
stale_session = record first_session { token = "u" }

abbrev stale_disk : Disk
stale_disk = record first_disk { owner = some (some "u") }

other_token : ◌≢◌ {A = String} "t" "u"
other_token h = ground (arith, eq_iff "t" "u", h)

append-exclusive_example :
    ((append lax demo stale_disk first_disk none stale_session approved_payload).disk ≡ first_disk)
    × ((b : State)
        → (append lax demo stale_disk first_disk none stale_session approved_payload).result ≢ ok b)
append-exclusive_example =
    append-exclusive lax demo first_disk first_disk stale_disk first_disk none none first_session
      stale_session approved_payload approved_payload approval_accepted other_token (inr refl)

torn_result :
    (append lax demo first_disk first_disk (some 3) first_session approved_payload).result
    ≡ err journal_write_failed
unfolding append next_event make_event is_owned event_body next_epoch event_contract write_event
    reduce step apply fences record_approval insert lookup line_of canonical with_digest
torn_result = refl

append-torn_example :
    (file : File) × ((append lax demo first_disk first_disk
        (some 3)
        first_session
        approved_payload).disk.journal
      ≡ some file)
    × (read_content lax demo file.content ≡ err journal_corrupt)
    × ((append lax demo first_disk first_disk (some 3) first_session approved_payload).session.valid
        ≡ false)
unfolding line_of event_body canonical with_digest
append-torn_example =
    append-torn lax demo first_disk first_disk 3 first_session approved_payload approved_event
      approval_made approval_clean (omega arith) (omega arith) torn_result

-- An attempt is prepared and its first command dispatched in one session.
abbrev preparation : Payload
preparation =
    attempt_prepared "a1" hash (record { cpu_threads = 1; memory_gib = 2097152; active_tasks = 1 })
      none

abbrev idle_session : Session
idle_session = record first_session {
  meta = record { state = approved_state; seq = 2; last_digest = hash; bytes = 0 };
}

abbrev prepared_session : Session
prepared_session =
    (append lax demo (disk_with []) (disk_with []) none idle_session preparation).session

abbrev prepared_disk : Disk
prepared_disk = (append lax demo (disk_with []) (disk_with []) none idle_session preparation).disk

preparation_state : State
preparation_state = record running_state {
  attempts = ("a1", record running_attempt { status = prepared; active_index = none }) ∷ [];
}

preparation_accepted :
    (append lax demo (disk_with []) (disk_with []) none idle_session preparation).result
    ≡ ok preparation_state
unfolding append next_event make_event is_owned event_body next_epoch event_contract write_event
    reduce step apply fences prepare_attempt approved_entry insert lookup line_of canonical
    with_digest advance preparation_state
preparation_accepted = refl

prepared-room_example : fits prepared_session (command_prepared "a1" 0) 65536 ≡ true
unfolding prepared_attempt is_none
prepared-room_example =
    prepared-room lax demo (disk_with []) (disk_with []) none idle_session preparation
      (command_prepared "a1" 0) 65536 preparation_accepted refl refl (omega arith)

dispatch_accepted :
    (append lax demo prepared_disk prepared_disk none prepared_session
      (command_prepared "a1" 0)).result
    ≡ ok (record running_state {
      attempts = ("a1", record running_attempt { status = prepared }) ∷ [];
    })
unfolding append next_event make_event is_owned event_body next_epoch event_contract write_event
    reduce step apply fences prepare_attempt approved_entry insert lookup line_of canonical
    with_digest advance prepare_command update_attempt on_attempt active_attempt
dispatch_accepted = refl

abbrev dispatched_session : Session
dispatched_session =
    (append lax demo prepared_disk prepared_disk none prepared_session
      (command_prepared "a1" 0)).session

dispatch-Run :
    Run lax demo idle_session (preparation ∷ command_prepared "a1" 0 ∷ []) dispatched_session
dispatch-Run =
    accept (disk_with []) (disk_with []) none preparation preparation_state preparation_accepted
      (accept prepared_disk prepared_disk none (command_prepared "a1" 0) _ dispatch_accepted stay)

Run-fenced_example : any (prepares_here "a1") (preparation ∷ []) ≡ true
unfolding continues
Run-fenced_example =
    Run-fenced lax demo (preparation ∷ []) [] (command_prepared "a1" 0) "a1" dispatch-Run refl refl

Run-IsValid_example :
    IsValid
      (append lax demo first_disk first_disk none first_session approved_payload).session.meta.state
Run-IsValid_example =
    Run-IsValid lax demo (approved_payload ∷ []) first_disk first_Faithful
      (accept first_disk first_disk none approved_payload approved_state approval_accepted stay)

-- The journal without an owner, and the session that begins on it.
abbrev free_disk : Disk
free_disk = record first_disk { owner = none }

session_begins : (begin_session lax demo free_disk "/state" "t" none).1 ≡ ok first_session
unfolding begin_session inspect_path take_owner open_session is_owned read_store separate parts
    is_prefix split_on equal_codes read_content read_lines read_line reduce start step
    event_contract line_of event_body canonical with_digest
session_begins = refl

begin_session-owner_example :
    (free_disk.owner ≡ none)
    × ((begin_session lax demo free_disk "/state" "t" none).0
        ≡ record free_disk { owner = some (some "t") })
    × (first_session.token ≡ "t")
    × (first_session.valid ≡ true)
    × (first_session.prepared_here ≡ [])
begin_session-owner_example = begin_session-owner lax demo free_disk "/state" "t" session_begins

owner_refuses : (begin_session lax demo first_disk "/state" "u" none).1 ≡ err owner_present
unfolding begin_session inspect_path take_owner parts is_prefix split_on
owner_refuses = refl

-- The token of a new owner is written in part.
half_made :
    (begin_session lax demo free_disk "/state" "u" (some (some "half"))).1
    ≡ err journal_write_failed
unfolding begin_session inspect_path take_owner parts is_prefix split_on
half_made = refl

begin_session-refused_example :
    ((begin_session lax demo free_disk "/state" "u" (some (some "half"))).0 ≡ free_disk)
    ⊎ ((left : Option String) × (◌≡◌ {A = Option (Option String)} (some (some "half")) (some left))
        × (free_disk.owner ≡ none)
        × (journal_write_failed ≡ journal_write_failed)
        × ((begin_session lax demo free_disk "/state" "u" (some (some "half"))).0
            ≡ record free_disk { owner = some left }))
begin_session-refused_example =
    begin_session-refused lax demo free_disk "/state" "u" (some (some "half")) half_made

state_plain : inspect_path demo free_disk false false "/state/evidence" ≡ ok "/repo"
unfolding inspect_path parts is_prefix split_on walk
state_plain = refl

inspect_path-Plain_example : Plain demo free_disk false [] (codes "state" ∷ codes "evidence" ∷ [])
unfolding parts split_on
inspect_path-Plain_example = inspect_path-Plain demo free_disk false "/state/evidence" state_plain

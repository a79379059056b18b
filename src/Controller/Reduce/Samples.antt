-- ===== src/Controller/Reduce/Samples.antt =====
-- A small journal, and the theorems about journals at it.
use eoduksini.Controller.Reduce.Closed.{finishes, Open, replay-finishes}
use eoduksini.Controller.Reduce.Phases.{Walk, phase, replay-Walk}
use eoduksini.Base.Sort.{sort_by}
use eoduksini.Controller.Reduce.Replay.{replay-IsValid}
use eoduksini.Controller.Reduce.Stop.{recovered_complete, replay-recovery_required}
use eoduksini.Controller.Reduce.Fence.{
  executes, prepares, reduce-control_epoch, replay-stale_approval,
}
use eoduksini.Controller.Reduce.History.{Extends, replay-Extends}
use eoduksini.Controller.Reduce.Valid.{OptionValid}
use eoduksini.Base.Dict.{insert, lookup}
use eoduksini.Controller.Dispatch.{
  approved_entry, prepare_attempt, active_attempt, prepare_command, start_command, incomplete,
  finish_command, finish_attempt, finish_attempt_metering,
}
use eoduksini.Controller.Event.{event_contract}
use eoduksini.Base.Result.{ok}
use eoduksini.Controller.Types.{
  Attempt, prepared, State, Event, attempt_prepared, command_prepared, command_started,
}
use eoduksini.Base.{
  ◌≡◌, some, none, ◌∷◌, true, [], refl, false, any, ◌+◌, arith, map, take, List, ◌⊎◌,
}
use eoduksini.Controller.Reduce.{
  replay, reduce, start, step, apply, fences, record_approval, update_attempt, on_attempt, recover,
  pending, recover_attempts,
}
use eoduksini.Controller.Demo.{
  lax, opening, to_success, entry, running_attempt, running_state, done_state, recovery,
  lost_attempt, lost_state, later, later_state, event_at, hash,
}

opening_runs : replay lax none opening ≡ ok (some running_state)
unfolding replay reduce start step apply event_contract fences record_approval approved_entry
    prepare_attempt update_attempt on_attempt active_attempt prepare_command start_command insert
    lookup
opening_runs = refl

replay-IsValid_example : OptionValid (some running_state)
replay-IsValid_example = replay-IsValid lax none opening tt opening_runs

success_runs : replay lax (some running_state) to_success ≡ ok (some done_state)
unfolding replay reduce start step apply event_contract fences record_approval approved_entry
    prepare_attempt update_attempt on_attempt active_attempt finish_command finish_attempt insert
    lookup
success_runs = refl

replay-Extends_example :
    (a' : Attempt) × (lookup "a1" done_state.attempts ≡ some a') × Extends running_attempt a'
unfolding lookup
replay-Extends_example =
    replay-Extends lax running_state to_success "a1" running_attempt replay-IsValid_example
      success_runs refl

recovery_runs : reduce lax (some running_state) recovery ≡ ok lost_state
unfolding reduce start step apply event_contract fences recover pending recover_attempts
    finish_attempt_metering incomplete sort_by insert lookup
recovery_runs = refl

reduce-control_epoch_example : (2 ≡ recovery.control_epoch) × (recovery.control_epoch ≡ 1 + 1)
unfolding fences
reduce-control_epoch_example = reduce-control_epoch lax running_state recovery recovery_runs

recovered_complete_example : incomplete lost_attempt ≡ false
unfolding lookup
recovered_complete_example =
    recovered_complete lax running_state recovery ("a1" ∷ []) "INTERRUPTED_ATTEMPT"
      replay-IsValid_example refl recovery_runs "a1" lost_attempt refl

later_runs : replay lax (some lost_state) later ≡ ok (some later_state)
unfolding replay reduce start step apply event_contract fences record_approval insert lookup
later_runs = refl

replay-recovery_required_example :
    (later_state.recovery_required ≡ true) × (any (λ e. executes e.payload) later ≡ false)
replay-recovery_required_example = replay-recovery_required lax lost_state later refl later_runs

replay-stale_approval_example : any (λ e. prepares "a1" e.payload) later ≡ false
unfolding lookup
replay-stale_approval_example =
    replay-stale_approval lax lost_state later "a1" entry refl (omega arith) later_runs

replay-Walk_example :
    Walk (phase running_state) (map (λ e. e.payload) to_success) (phase done_state)
replay-Walk_example = replay-Walk lax running_state to_success replay-IsValid_example success_runs

-- The opening up to the approval, the attempt's PREPARED, and what comes behind it.
abbrev approved_state : State
approved_state = record running_state { attempts = []; reservation = none }

abbrev prepared_event : Event
prepared_event = event_at 3 1 (
    attempt_prepared "a1" hash (record { cpu_threads = 1; memory_gib = 2097152; active_tasks = 1 })
      none)

abbrev behind_prepared : List Event
behind_prepared =
    event_at 4 1 (command_prepared "a1" 0)
    ∷ event_at 5 1 (command_started "a1" 0 7 none)
    ∷ to_success

abbrev prepared_attempt : Attempt
prepared_attempt = record running_attempt { status = prepared; active_index = none }

approval_runs : replay lax none (take 2 opening) ≡ ok (some approved_state)
unfolding replay reduce start step apply event_contract fences record_approval insert lookup
approval_runs = refl

preparation_runs :
    reduce lax (some approved_state) prepared_event
    ≡ ok (record running_state { attempts = ("a1", prepared_attempt) ∷ [] })
unfolding reduce start step apply event_contract fences approved_entry prepare_attempt insert lookup
preparation_runs = refl

behind_runs :
    replay lax
      (some (record running_state { attempts = ("a1", prepared_attempt) ∷ [] }))
      behind_prepared
    ≡ ok (some done_state)
unfolding replay reduce start step apply event_contract fences approved_entry update_attempt
    on_attempt active_attempt prepare_command start_command finish_command finish_attempt insert
    lookup
behind_runs = refl

approved_IsValid : OptionValid (some approved_state)
approved_IsValid = replay-IsValid lax none (take 2 opening) tt approval_runs

replay-finishes_example :
    (any (λ x. finishes "a1" x.payload) behind_prepared ≡ true) ⊎ Open "a1" done_state
unfolding prepares
replay-finishes_example =
    replay-finishes lax approved_state prepared_event behind_prepared "a1" approved_IsValid
      preparation_runs refl behind_runs refl

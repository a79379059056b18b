-- ===== src/Controller/Dispatch.antt =====
-- The events of one attempt in `reduce` of core/controller/state.mjs: PREPARED, COMMAND_PREPARED,
-- COMMAND_STARTED, COMMAND_FINISHED and FINISHED.
use eoduksini.Base.{
  ℕ, String, ◌+◌, Bool, true, false, not, ◌&&◌, ◌||◌, Option, none, some, List, [], ◌∷◌, ◌++◌,
  str_eq, ltb, ◌==◌, all, length, if◌then◌else◌,
}
use eoduksini.Base.Dict.{lookup, has, insert}
use eoduksini.Base.Json.{canonical}
use eoduksini.Base.Result.{ok, err, check, ◌>>◌, ◌>>=◌}
use eoduksini.Controller.Types.{
  invalid_transition, invalid_epoch, request_digest_mismatch, invalid_reservation,
  metering_binding_mismatch, attempt_already_prepared, unknown_attempt, Outcome, succeeded, failed,
  recovery_required, AttemptStatus, prepared, running, ended, CommandResult, Reservation, Metering,
  Measurement, Entry, Attempt, State,
}
use eoduksini.Base.Json.{Value}
use eoduksini.Controller.Contracts.{Contracts, Checked, Done}
use eoduksini.Controller.Event.{is_failure_exit, is_none}

unfoldable pub is_succeeded : Outcome → Bool
is_succeeded succeeded = true
is_succeeded failed = false
is_succeeded recovery_required = false

unfoldable pub is_failed : Outcome → Bool
is_failed succeeded = false
is_failed failed = true
is_failed recovery_required = false

unfoldable pub is_recovery : Outcome → Bool
is_recovery succeeded = false
is_recovery failed = false
is_recovery recovery_required = true

unfoldable pub is_running : AttemptStatus → Bool
is_running prepared = false
is_running running = true
is_running (ended _) = false

unfoldable pub is_prepared : AttemptStatus → Bool
is_prepared prepared = true
is_prepared running = false
is_prepared (ended _) = false

-- ['PREPARED','RUNNING'].includes(attempt.status)
unfoldable pub incomplete : Attempt → Bool
unfolding is_running is_prepared
incomplete a = is_prepared a.status || is_running a.status

-- active_index === index
unfoldable pub is_active : Option ℕ → ℕ → Bool
is_active none i = false
is_active (some j) i = j == i

-- attempt.command_results.at(-1), and a test on its status
unfoldable pub last_is : (Outcome → Bool) → List CommandResult → Bool
last_is p [] = false
last_is p (r ∷ []) = p r.status
last_is p (r ∷ s ∷ l) = last_is p (s ∷ l)

unfoldable pub all_succeeded : List CommandResult → Bool
unfolding is_succeeded
all_succeeded l = all (λ r. is_succeeded r.status) l

abbrev pub put_attempt : State → String → Attempt → State
put_attempt s id a = record s { attempts = insert id a s.attempts }

unfoldable pub prepare_command : (count : ℕ) → Attempt → ℕ → Checked Attempt
unfolding last_is is_succeeded is_none
prepare_command count a i = do
  check
      (i == a.next_index
        && ltb i count
        && is_none a.active_index
        && (length a.command_results == 0 || last_is is_succeeded a.command_results))
      invalid_transition
  ok (record a { active_index = some i; status = prepared })

invocations_or_empty : Option (List Value) → List Value
invocations_or_empty none = []
invocations_or_empty (some l) = l

-- The checks of FINISHED, by the outcome that it claims.
unfoldable pub may_finish : (count : ℕ) → Attempt → Outcome → Bool
unfolding is_none last_is is_failed all_succeeded
may_finish count a succeeded =
    ltb 0 count
    && is_none a.active_index
    && a.next_index == count
    && length a.command_results == count
    && all_succeeded a.command_results
may_finish count a failed = is_none a.active_index && last_is is_failed a.command_results
may_finish count a recovery_required = true

abbrev pub end_attempt : Attempt → Outcome → String → Option Metering → Attempt
end_attempt a o reason metering = record a {
  status = ended o;
  reason = some reason;
  metering = metering;
}

abbrev pub new_attempt : (digest : String) → Option Metering → Attempt
new_attempt d metering = record {
  request_digest = d;
  status = prepared;
  next_index = 0;
  active_index = none;
  command_results = [];
  reason = none;
  metering = metering;
}

abbrev pub prepared_state : State → (id digest : String) → Reservation → Option Metering → State
prepared_state s id d r metering = record s {
  attempts = insert id (new_attempt d metering) s.attempts;
  reservation = some r;
}

-- An attempt that needs a recovery keeps the reservation; any other frees it.
abbrev pub finished_state : State → String → Attempt → Outcome → State
finished_state s id a recovery_required = record s {
  attempts = insert id a s.attempts;
  recovery_required = true;
}
finished_state s id a _ = record s { attempts = insert id a s.attempts; reservation = none }

module _ (c : Contracts) where
  unfoldable pub metering_binding : State → Entry → Option Metering → Done
  metering_binding s e none = ok tt
  metering_binding s e (some m) = do
    c.metering_contract m
    expected ← c.initial_metering s e.request e.approval.issued_at
    check
        (str_eq (canonical c.printer (c.with_event_lists m))
          (canonical c.printer expected.document))
        metering_binding_mismatch

  unfoldable pub prepare_attempt :
      State → Entry → (id digest : String) → Reservation → Option Metering → Checked State
  unfolding metering_binding is_none
  prepare_attempt s e id d r metering = do
    check (not (has id s.attempts)) attempt_already_prepared
    check (not s.recovery_required && is_none s.reservation) invalid_transition
    check
        (e.request.control_epoch == s.control_epoch && e.approval.control_epoch == s.control_epoch)
        invalid_epoch
    check (str_eq d e.approval.request_digest) request_digest_mismatch
    check
        (r.cpu_threads == e.request.resources.cpu_threads
          && r.memory_gib == e.request.resources.memory_gib)
        invalid_reservation
    metering_binding s e metering
    ok (prepared_state s id d r metering)

  -- Boolean(attempt.metering) === Object.hasOwn(payload, 'measurement')
  start_metering : Option Metering → Option Measurement → Checked (Option Metering)
  unfolding is_none
  start_metering none none = ok none
  start_metering none (some m) = err metering_binding_mismatch
  start_metering (some r) none = err metering_binding_mismatch
  start_metering (some r) (some m) = do
    c.measurement_contract m
    check (not (is_none m.worker_started_at_utc) && is_none m.worker_finished_at_utc)
        metering_binding_mismatch
    r' ← c.append_measurement r m
    ok (some r')

  unfoldable pub start_command : Attempt → ℕ → Option Measurement → Checked Attempt
  unfolding is_prepared is_active start_metering
  start_command a i measurement = do
    check (is_prepared a.status && is_active a.active_index i && i == a.next_index)
        invalid_transition
    metering ← start_metering a.metering measurement
    ok (record a { metering = metering; status = running })

  finish_metering_command :
      Option Metering → ℕ → Option Measurement → Option (List Value) → Checked (Option Metering)
  unfolding invocations_or_empty
  finish_metering_command none i none invocations = ok none
  finish_metering_command none i (some m) invocations = err metering_binding_mismatch
  finish_metering_command (some r) i none invocations = err metering_binding_mismatch
  finish_metering_command (some r) i (some m) invocations = do
    c.measurement_contract m
    r' ← (if r.command_count == i then c.append_measurement r m else c.replace_measurement r m)
    r'' ← c.append_invocations r' (invocations_or_empty invocations)
    ok (some r'')

  unfoldable pub finish_command :
      Attempt → ℕ → CommandResult → Option Measurement → Option (List Value) → Checked Attempt
  unfolding is_active is_running is_recovery is_failed is_none is_failure_exit
      finish_metering_command
  finish_command a i result measurement invocations = do
    check
        (is_active a.active_index i
          && i == a.next_index
          && (is_running a.status || is_recovery result.status))
        invalid_transition
    metering ← finish_metering_command a.metering i measurement invocations
    check
        (not (is_failed result.status)
          || (is_none result.signal && is_failure_exit result.exit_code))
        invalid_transition
    ok (record a {
      metering = metering;
      command_results = a.command_results ++ result ∷ [];
      next_index = a.next_index + 1;
      active_index = none;
    })

  unfoldable pub finish_attempt_metering : Attempt → Outcome → Checked (Option Metering)
  finish_attempt_metering a o = elim a.metering [
    | none ↦ ok none
    | some m ↦ c.finish_metering m o a.command_results >>= λ m'. ok (some m')
  ]

  unfoldable pub finish_attempt :
      State → String → (count : ℕ) → Attempt → Outcome → String → Checked State
  unfolding may_finish finish_attempt_metering
  finish_attempt s id count a o reason = do
    check (may_finish count a o) invalid_transition
    metering ← finish_attempt_metering a o
    ok (finished_state s id (end_attempt a o reason metering) o)

-- approvals[id]
unfoldable pub approved_entry : State → String → Checked Entry
approved_entry s id = elim (lookup id s.approvals) [ none ↦ err unknown_attempt | some e ↦ ok e ]

-- The guard of every event on a prepared attempt.
unfoldable pub active_attempt : State → String → Checked Attempt
unfolding incomplete is_none
active_attempt s id = elim (lookup id s.attempts) [
  | none ↦ err invalid_transition
  | some a ↦
      check (incomplete a && not (is_none s.reservation) && not s.recovery_required)
        invalid_transition
      >> ok a
]

-- ===== src/Runner/Steps.antt =====
-- The callbacks of a run (core/controller/runner.mjs).
use eoduksini.Controller.Event.{is_none}
use eoduksini.Base.Int.{ℤ}
use eoduksini.Runner.{
  require_recovery, record_recovery, maybe_finish, observe_wall_clock, Options, finish, Moment,
  start_grace, terminate_direct_child, Run, record_when,
}
use eoduksini.Base.{
  [], ◌∷◌, ℕ, String, Bool, true, false, not, Option, some, none, if◌then◌else◌, ltb, List, ◌++◌,
  ◌+◌, ◌-◌, length, str_eq, ◌==◌,
}

pub data Input : Type 0 where
  -- a chunk, and after how many saved bytes writing fails
  output_data : List ℕ → (fault : Option ℕ) → Input
  spawn : (pid : Option ℕ) → Input
  started started_failed error : Input
  exit close : Option ℤ → Option String → Input
  deadline_passed grace_passed : Input

unfoldable pub min : ℕ → ℕ → ℕ
min a b = if ltb a b then a else b

unfoldable pub rolled_back : Option String → Bool
rolled_back none = false
rolled_back (some r) = str_eq r "WALL_CLOCK_ROLLBACK"

-- What is left of the limit is written.
unfoldable pub save : Options → Moment → ℕ → Option ℕ → Run → Run
unfolding min
save o m size fault s =
    let room = min size (o.max_output_bytes - s.saved_bytes) in
    elim fault [
      | none ↦ record s { saved_bytes = s.saved_bytes + room }
      | some n ↦
          let t =
            require_recovery m "EVIDENCE_FAILED"
              (record s { saved_bytes = s.saved_bytes + min n room }) in
          if room == 0 then s else t
    ]

abbrev pub recover_if : Bool → Moment → String → Run → Run
recover_if b m reason s = let t = require_recovery m reason s in if b then t else s

unfoldable pub handle_output : Options → Moment → List ℕ → Option ℕ → Run → Run
handle_output o m chunk fault s =
    let s1 = observe_wall_clock m.now s in
    let s2 = save o m (length chunk) fault (record s1 { output = s1.output ++ chunk }) in
    let s3 = recover_if (ltb o.max_output_bytes (length s2.output)) m "OUTPUT_LIMIT_EXCEEDED" s2 in
    let s4 = recover_if (rolled_back s3.recovery_reason) m "WALL_CLOCK_ROLLBACK" s3 in
    if s.finished then s else s4

unfoldable pub on_spawn : Moment → Option ℕ → Run → Run
on_spawn m pid s =
    let s1 = record (observe_wall_clock m.now s) { pid = pid; callback_pending = true } in
    recover_if (rolled_back s1.recovery_reason) m "WALL_CLOCK_ROLLBACK" s1

unfoldable pub on_exit : Moment → Option ℤ → Option String → Run → Run
on_exit m code signal s =
    let s1 = record (observe_wall_clock m.now s) { exit_code = code; signal = signal } in
    let s2 = record_when (not (is_none signal)) "COMMAND_SIGNALED" s1 in
    let t = terminate_direct_child m s2 in
    start_grace (if rolled_back s2.recovery_reason then t else s2)

unfoldable pub on_close : Options → Moment → Option ℤ → Option String → Run → Run
on_close o m code signal s =
    let s1 = record (observe_wall_clock m.now s) {
      close_observed = true;
      exit_code = code;
      signal = signal;
      grace = false;
    } in
    maybe_finish o m (record_when (not (is_none signal)) "COMMAND_SIGNALED" s1)

-- A timer that is not set does not fire.
unfoldable pub on_grace : Options → Moment → Run → Run
on_grace o m s =
    let t = finish o m (record_when (not s.close_observed) "CHILD_CLOSE_UNOBSERVED" s) in
    if s.grace then t else s

unfoldable pub step : Options → Moment → Input → Run → Run
step o m (output_data chunk fault) s = handle_output o m chunk fault s
step o m (spawn pid) s = on_spawn m pid s
step o m started s = maybe_finish o m (record s { callback_pending = false })
step o m started_failed s =
    maybe_finish o m
      (require_recovery m "ON_STARTED_FAILED" (record s { callback_pending = false }))
step o m error s = start_grace (record_recovery "SPAWN_FAILED" (observe_wall_clock m.now s))
step o m (exit code signal) s = on_exit m code signal s
step o m (close code signal) s = on_close o m code signal s
step o m deadline_passed s =
    let t = require_recovery m "COMMAND_TIMED_OUT" (record s { deadline = false }) in
    if s.deadline then t else s
step o m grace_passed s = on_grace o m s

-- A run of callbacks.
unfoldable pub steps : Options → List (Moment × Input) → Run → Run
steps o [] s = s
steps o ((m, i) ∷ l) s = steps o l (step o m i s)

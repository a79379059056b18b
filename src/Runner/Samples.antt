-- ===== src/Runner/Samples.antt =====
-- Two runs, and the theorems about the runner at them.
use eoduksini.Controller.Event.{is_zero_exit, is_none}
use eoduksini.Runner.Finishes.{steps-finished}
use eoduksini.Base.Int.{pos}
use eoduksini.Runner.Resolved.{steps-Good}
use eoduksini.Runner.Kept.{Good}
use eoduksini.Controller.Types.{CommandResult, succeeded, recovery_required}
use eoduksini.Runner.Steps.{
  steps, step, handle_output, grace_passed, Input, deadline_passed, on_spawn, spawn, started,
  output_data, exit, close, on_exit, on_close, on_grace, save, rolled_back, min,
}
use eoduksini.Runner.{
  Moment, Options, maybe_finish, spawned_run, require_recovery, observe_wall_clock, record_recovery,
  start_grace, finish, last_reasons, result_of, status_of, terminate_direct_child,
}
use eoduksini.Base.{ℕ, List, [], ◌∷◌, some, none, ◌≡◌, refl, false, true}

abbrev limits : Options
limits = record { max_output_bytes = 4; transcript_path = "/t"; sha256 = λ l. "h" }

abbrev at_time : ℕ → Moment
at_time t = record {
  now = t;
  later = t;
  kill_throws = false;
  sync_throws = false;
  close_throws = false;
}

abbrev good_run : List (Moment × Input)
good_run =
    (at_time 1, spawn (some 7))
    ∷ (at_time 2, started)
    ∷ (at_time 3, output_data (1 ∷ 2 ∷ []) none)
    ∷ (at_time 4, exit (some (pos 0)) none)
    ∷ (at_time 5, close (some (pos 0)) none)
    ∷ []

abbrev good_result : CommandResult
good_result = record {
  status = succeeded;
  reason = "COMMAND_SUCCEEDED";
  exit_code = some (pos 0);
  signal = none;
  pid = some 7;
  output_bytes = 2;
  saved_bytes = 2;
  output_digest = "h";
  transcript_path = "/t";
  close_observed = true;
}

-- Six bytes are too many, and the close is never seen.
abbrev loud_run : List (Moment × Input)
loud_run =
    (at_time 1, spawn (some 7))
    ∷ (at_time 2, started)
    ∷ (at_time 3, output_data (1 ∷ 2 ∷ 3 ∷ 4 ∷ 5 ∷ 6 ∷ []) none)
    ∷ (at_time 1003, grace_passed)
    ∷ []

abbrev loud_result : CommandResult
loud_result = record {
  status = recovery_required;
  reason = "OUTPUT_LIMIT_EXCEEDED";
  exit_code = none;
  signal = none;
  pid = some 7;
  output_bytes = 6;
  saved_bytes = 4;
  output_digest = "h";
  transcript_path = "/t";
  close_observed = false;
}

good_resolves : (steps limits good_run (spawned_run 0)).result ≡ some good_result
unfolding steps step handle_output on_spawn maybe_finish require_recovery observe_wall_clock
    record_recovery start_grace on_exit on_close on_grace finish last_reasons result_of status_of
    save spawned_run terminate_direct_child rolled_back min is_zero_exit is_none
good_resolves = refl

loud_resolves : (steps limits loud_run (spawned_run 0)).result ≡ some loud_result
unfolding steps step handle_output on_spawn maybe_finish require_recovery observe_wall_clock
    record_recovery start_grace on_exit on_close on_grace finish last_reasons result_of status_of
    save spawned_run terminate_direct_child rolled_back min is_zero_exit is_none
loud_resolves = refl

steps-Good_example : Good limits loud_result
steps-Good_example = steps-Good limits 0 loud_run loud_result loud_resolves

steps-finished_example :
    (step limits (at_time 9) grace_passed (
      step limits
        (at_time 8)
        deadline_passed
        (step limits (at_time 7) started (steps limits good_run (spawned_run 0))))).finished
    ≡ true
steps-finished_example = steps-finished limits 0 good_run (at_time 7) (at_time 8) (at_time 9)

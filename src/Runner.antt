-- ===== src/Runner.antt =====
-- The runner of one command (core/controller/runner.mjs, `executeCommand`): the variables of its promise
-- as a state, and one function for each callback of the child process and of the timers. What a
-- callback finds outside (the clock, a failing call of the file system) is its `Moment`. Measurements
-- are left out, and the check of the options that stands in front.
pub mod Steps
pub mod Kept
pub mod Sound
pub mod Resolved
pub mod Finishes
mod Samples
use eoduksini.Controller.Types.{Outcome, CommandResult, succeeded, recovery_required, failed}
use eoduksini.Base.Int.{ℤ}
use eoduksini.Controller.Event.{is_zero_exit, is_none}
use eoduksini.Base.{
  ℕ, String, Bool, true, false, not, ◌&&◌, ◌||◌, Option, some, none, if◌then◌else◌, ltb, List, ◌++◌,
  ◌+◌, ◌-◌, length, [],
}

pub record Moment : Type 0 where
  -- `Date.now()` in the callback and, after it, in `finish`
  pub now : ℕ
  pub later : ℕ
  pub kill_throws : Bool
  pub sync_throws : Bool
  pub close_throws : Bool

pub record Options : Type 0 where
  pub max_output_bytes : ℕ
  pub transcript_path : String
  -- the hash of the bytes of the output
  pub sha256 : List ℕ → String

pub record Run : Type 0 where
  pub pid : Option ℕ
  pub output : List ℕ
  pub saved_bytes : ℕ
  pub exit_code : Option ℤ
  pub signal : Option String
  pub close_observed : Bool
  pub callback_pending : Bool
  pub recovery_reason : Option String
  pub finished : Bool
  -- the timers that are set
  pub deadline : Bool
  pub grace : Bool
  pub last_wall_clock : ℕ
  -- what the promise is resolved with
  pub result : Option CommandResult

-- The variables when the child was spawned at a time of the clock.
unfoldable pub spawned_run : ℕ → Run
spawned_run now = record {
  pid = none;
  output = [];
  saved_bytes = 0;
  exit_code = none;
  signal = none;
  close_observed = false;
  callback_pending = false;
  recovery_reason = none;
  finished = false;
  deadline = true;
  grace = false;
  last_wall_clock = now;
  result = none;
}

-- The first reason stays.
unfoldable pub record_recovery : String → Run → Run
record_recovery reason s = elim s.recovery_reason [
  | some _ ↦ s
  | none ↦ record s { recovery_reason = some reason }
]

abbrev pub record_when : Bool → String → Run → Run
record_when b reason s = if b then record_recovery reason s else s

unfoldable pub observe_wall_clock : ℕ → Run → Run
observe_wall_clock now s =
    if ltb now s.last_wall_clock
    then record_recovery "WALL_CLOCK_ROLLBACK" s
    else record s { last_wall_clock = now }

unfoldable pub terminate_direct_child : Moment → Run → Run
terminate_direct_child m s =
    record_when (not s.close_observed && m.kill_throws) "CHILD_TERMINATION_FAILED" s

unfoldable pub status_of : Option String → Option ℤ → Outcome
status_of (some _) exit_code = recovery_required
status_of none exit_code = if is_zero_exit exit_code then succeeded else failed

reason_of : Option String → Outcome → String
reason_of (some r) o = r
reason_of none succeeded = "COMMAND_SUCCEEDED"
reason_of none _ = "COMMAND_FAILED"

unfoldable pub result_of : Options → Run → CommandResult
unfolding reason_of
result_of o s = record {
  status = status_of s.recovery_reason s.exit_code;
  reason = reason_of s.recovery_reason (status_of s.recovery_reason s.exit_code);
  exit_code = s.exit_code;
  signal = s.signal;
  pid = s.pid;
  output_bytes = length s.output;
  saved_bytes = s.saved_bytes;
  output_digest = o.sha256 s.output;
  transcript_path = o.transcript_path;
  close_observed = s.close_observed;
}

-- The reasons that `finish` may still find.
unfoldable pub last_reasons : Moment → Run → Run
last_reasons m s =
    let s1 = observe_wall_clock m.later s in
    let s2 = record_when m.sync_throws "EVIDENCE_FAILED" s1 in
    let s3 = record_when m.close_throws "EVIDENCE_FAILED" s2 in
    let s4 = record_when (not (is_none s3.signal)) "COMMAND_SIGNALED" s3 in
    record_when (s4.close_observed && is_none s4.signal && is_none s4.exit_code) "UNKNOWN_CLOSE" s4

unfoldable pub finish : Options → Moment → Run → Run
finish o m s =
    let t = last_reasons m (record s { finished = true; deadline = false; grace = false }) in
    if s.finished then s else record t { result = some (result_of o t) }

unfoldable pub start_grace : Run → Run
start_grace s = if s.grace || s.finished then s else record s { grace = true }

unfoldable pub require_recovery : Moment → String → Run → Run
require_recovery m reason s = start_grace (terminate_direct_child m (record_recovery reason s))

unfoldable pub maybe_finish : Options → Moment → Run → Run
maybe_finish o m s = if s.close_observed && not s.callback_pending then finish o m s else s

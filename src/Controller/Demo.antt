-- ===== src/Controller/Demo.antt =====
-- A small journal as test data: one request, approved and dispatched, with its states.
use eoduksini.Base.Result.{ok}
use eoduksini.Base.Int.{pos}
use eoduksini.Base.Json.{null, end}
use eoduksini.Controller.Contracts.{Contracts}
use eoduksini.Controller.Types.{
  Entry, Assessment, Policy, State, Attempt, Request, Approval, CommandResult, Event, Project,
  Metering, succeeded, non_overlapping, init, ended, command_finished, recovered, Payload, approved,
  running, attempt_prepared, finished, recovery_required, command_prepared, command_started,
}
use eoduksini.Base.{none, List, String, ℕ, some, ◌∷◌, [], true, false}

abbrev pub hash : String
hash = "0000000000000000000000000000000000000000000000000000000000000000"

abbrev pub sample_metering : Metering
sample_metering = record {
  result_digest = none;
  worker_started_at_utc = none;
  worker_finished_at_utc = none;
  review_status = "PENDING";
  adoption_status = "PENDING";
  last_reviewed_at = none;
  command_count = 0;
  document = null;
}

abbrev pub clear : Assessment
clear = record { status = non_overlapping; document = null }

-- Contracts that accept everything, with a hash function of one value.
abbrev pub lax : Contracts
lax = record {
  printer = record { print_text = λ s. s; print_number = λ n. "0" };
  sha256 = λ s. hash;
  parse_date = λ s. some 0;
  is_absolute = λ s. true;
  project_contract = λ _. ok tt;
  policy_contract = λ _. ok tt;
  revision_contract = λ _. ok tt;
  request_contract = λ _. ok tt;
  request_footprint = λ _. ok null;
  assessment_contract = λ _. ok tt;
  assess_admission = λ _ _. ok clear;
  metering_contract = λ _. ok tt;
  measurement_contract = λ _. ok tt;
  invocation_contract = λ _. ok tt;
  post_run_contract = λ _. ok tt;
  initial_metering = λ _ _ _. ok sample_metering;
  with_event_lists = λ m. m.document;
  append_measurement = λ m _. ok m;
  replace_measurement = λ m _. ok m;
  append_invocations = λ m _. ok m;
  finish_metering = λ m _ _. ok m;
  attach_review = λ m _. ok m;
  attach_adoption = λ m _. ok m;
  attach_cost = λ m _. ok m;
  attach_energy = λ m _. ok m;
}

abbrev pub sample_project : Project
sample_project = record { project_id = "demo"; document = null }

abbrev pub sample_policy : Policy
sample_policy = record { approval_ttl_ms = 1000; post_run_authority = none; document = null }

abbrev pub sample_request : Request
sample_request = record {
  schema_version = 1;
  attempt_id = "a1";
  repo_root = "/repo";
  project = sample_project;
  policy_digest = hash;
  control_epoch = 1;
  commands = null ∷ [];
  resources = record { cpu_threads = 1; memory_gib = 2097152 };
  harness_revision = none;
  document = null;
}

abbrev pub sample_approval : Approval
sample_approval = record {
  approval_id = "p1";
  request_digest = hash;
  issued_at = 10;
  expires_at = 500;
  control_epoch = 1;
}

abbrev pub event_at : ℕ → ℕ → Payload → Event
event_at seq epoch p = record {
  seq = seq;
  prev_digest = none;
  control_epoch = epoch;
  payload = p;
  digest = hash;
  body = end;
}

abbrev pub success : CommandResult
success = record {
  status = succeeded;
  reason = "COMMAND_SUCCEEDED";
  exit_code = some (pos 0);
  signal = none;
  pid = some 7;
  output_bytes = 0;
  saved_bytes = 0;
  output_digest = hash;
  transcript_path = "/t";
  close_observed = true;
}

abbrev pub opening : List Event
opening =
    event_at 1 1 (init "/repo" sample_project sample_policy none)
    ∷ event_at 2 1 (approved sample_request sample_approval (some clear))
    ∷ event_at 3 1 (
        attempt_prepared "a1" hash
          (record { cpu_threads = 1; memory_gib = 2097152; active_tasks = 1 }) none)
    ∷ event_at 4 1 (command_prepared "a1" 0)
    ∷ event_at 5 1 (command_started "a1" 0 7 none)
    ∷ []

abbrev pub to_success : List Event
to_success =
    event_at 6 1 (command_finished "a1" 0 success none none)
    ∷ event_at 7 1 (finished "a1" succeeded "COMMANDS_SUCCEEDED")
    ∷ []

abbrev pub to_recovery : List Event
to_recovery = event_at 6 2 (recovered ("a1" ∷ []) "INTERRUPTED_ATTEMPT") ∷ []

abbrev pub entry : Entry
entry = record { request = sample_request; approval = sample_approval }

abbrev pub running_attempt : Attempt
running_attempt = record {
  request_digest = hash;
  status = running;
  next_index = 0;
  active_index = some 0;
  command_results = [];
  reason = none;
  metering = none;
}

abbrev pub running_state : State
running_state = record {
  repo_root = "/repo";
  project = sample_project;
  policy = sample_policy;
  harness_revision = none;
  control_epoch = 1;
  approvals = ("a1", entry) ∷ [];
  attempts = ("a1", running_attempt) ∷ [];
  semantic_assessments = ("a1", record { request_digest = hash; assessment = clear }) ∷ [];
  reservation = some (record { cpu_threads = 1; memory_gib = 2097152; active_tasks = 1 });
  recovery_required = false;
  semantic_review_required = false;
}

abbrev pub done_attempt : Attempt
done_attempt = record running_attempt {
  status = ended succeeded;
  next_index = 1;
  active_index = none;
  command_results = success ∷ [];
  reason = some "COMMANDS_SUCCEEDED";
}

abbrev pub done_state : State
done_state = record running_state { attempts = ("a1", done_attempt) ∷ []; reservation = none }

abbrev pub recovery : Event
recovery = event_at 6 2 (recovered ("a1" ∷ []) "INTERRUPTED_ATTEMPT")

abbrev pub lost_attempt : Attempt
lost_attempt = record running_attempt {
  status = ended recovery_required;
  reason = some "INTERRUPTED_ATTEMPT";
}

abbrev pub lost_state : State
lost_state = record running_state {
  attempts = ("a1", lost_attempt) ∷ [];
  control_epoch = 2;
  recovery_required = true;
}

-- Behind the recovery another request may still be approved, at the new epoch.
abbrev pub later : List Event
later =
    event_at 7 2 (
      approved (record sample_request { attempt_id = "a2"; control_epoch = 2 })
        (record sample_approval { approval_id = "p2"; control_epoch = 2 }) none)
    ∷ []

abbrev pub later_state : State
later_state = record lost_state {
  approvals =
      ("a1", entry)
      ∷ (
        "a2",
        record {
          request = record sample_request { attempt_id = "a2"; control_epoch = 2 };
          approval = record sample_approval { approval_id = "p2"; control_epoch = 2 };
        },
      )
      ∷ [];
}

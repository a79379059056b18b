-- ===== src/Controller/Types.antt =====
-- The data of core/controller/state.mjs: requests, approvals, attempts, the journal's events, and the
-- reasons with which a transition is refused. A record that the code keeps whole and digests has the
-- fields that the code reads and, as `document`, the JSON value itself.
use eoduksini.Base.{ℕ, String, Bool, Option, List}
use eoduksini.Base.Dict.{Dict}
use eoduksini.Base.Int.{ℤ}
use eoduksini.Base.Json.{Value, Fields}

pub data Reason : Type 0 where
  invalid_transition invalid_event json_input_too_large invalid_harness_binding : Reason
  invalid_reservation invalid_event_digest invalid_init invalid_epoch : Reason
  duplicate_semantic_assessment semantic_binding_mismatch semantic_assessment_mismatch : Reason
  invalid_attempt_id duplicate_approval approval_binding_mismatch : Reason
  post_run_binding_mismatch post_run_authority_required unauthorized_reviewer : Reason
  post_run_time_mismatch unauthorized_adoption_actor adoption_gate_not_met : Reason
  invalid_adoption_transition unauthorized_price_basis unauthorized_energy_evidence : Reason
  unknown_attempt attempt_already_prepared request_digest_mismatch : Reason
  metering_binding_mismatch invalid_approval invalid_result : Reason
  -- thrown by a contract of another module
  contract_violation : String → Reason

-- 'SUCCEEDED', 'FAILED', 'RECOVERY_REQUIRED'.
pub data Outcome : Type 0 where
  succeeded failed recovery_required : Outcome

-- The status of an attempt: 'PREPARED', 'RUNNING', or the outcome that ended it.
pub data AttemptStatus : Type 0 where
  prepared running : AttemptStatus
  ended : Outcome → AttemptStatus

pub record CommandResult : Type 0 where
  pub status : Outcome
  pub reason : String
  pub exit_code : Option ℤ
  pub signal : Option String
  pub pid : Option ℕ
  pub output_bytes : ℕ
  pub saved_bytes : ℕ
  pub output_digest : String
  pub transcript_path : String
  pub close_observed : Bool

-- Memory is counted in 2 ^ -20 GiB.
pub record Resources : Type 0 where
  pub cpu_threads : ℕ
  pub memory_gib : ℕ

pub record Reservation : Type 0 where
  pub cpu_threads : ℕ
  pub memory_gib : ℕ
  pub active_tasks : ℕ

pub record Revision : Type 0 where
  pub project_id : String
  pub policy_digest : String
  pub activation_profile : String
  pub source_git_sha : String
  pub document : Value

pub record Project : Type 0 where
  pub project_id : String
  pub document : Value

pub record Authority : Type 0 where
  pub reviewer_ids : List String
  pub adoption_actor_ids : List String
  pub price_basis_ids : List String
  pub energy_source_ids : List String
  pub tariff_basis_ids : List String

pub record Policy : Type 0 where
  pub approval_ttl_ms : ℕ
  pub post_run_authority : Option Authority
  pub document : Value

pub record Request : Type 0 where
  pub schema_version : ℕ
  pub attempt_id : String
  pub repo_root : String
  pub project : Project
  pub policy_digest : String
  pub control_epoch : ℕ
  pub commands : List Value
  pub resources : Resources
  pub harness_revision : Option Revision
  pub document : Value

pub record Approval : Type 0 where
  pub approval_id : String
  pub request_digest : String
  pub issued_at : ℕ
  pub expires_at : ℕ
  pub control_epoch : ℕ

pub data AssessmentStatus : Type 0 where
  non_overlapping semantic_conflict manual_decision_required : AssessmentStatus

pub record Assessment : Type 0 where
  pub status : AssessmentStatus
  pub document : Value

-- A metering record, with what the reducer reads of it.
pub record Metering : Type 0 where
  pub result_digest : Option String
  pub worker_started_at_utc : Option String
  pub worker_finished_at_utc : Option String
  pub review_status : String
  pub adoption_status : String
  -- `reviewed_at` of the last review event
  pub last_reviewed_at : Option String
  pub command_count : ℕ
  pub document : Value

pub record Measurement : Type 0 where
  pub worker_started_at_utc : Option String
  pub worker_finished_at_utc : Option String
  pub document : Value

pub record ReviewEvent : Type 0 where
  pub attempt_id : String
  pub result_digest : String
  pub reviewer_id : String
  pub reviewed_at : String
  pub document : Value

pub record AdoptionEvent : Type 0 where
  pub attempt_id : String
  pub result_digest : String
  pub actor_id : String
  pub decision : String
  pub decided_at : String
  pub document : Value

pub record CostEvent : Type 0 where
  pub attempt_id : String
  pub result_digest : String
  pub basis_id : String
  pub retrieved_at : String
  pub effective_at : String
  pub recorded_at : String
  pub document : Value

pub record EnergyEvent : Type 0 where
  pub attempt_id : String
  pub result_digest : String
  pub source_id : String
  pub interval_started_at : String
  pub interval_finished_at : String
  pub tariff_basis_id : Option String
  pub tariff_effective_at : String
  pub tariff_retrieved_at : String
  pub recorded_at : String
  pub document : Value

pub data PostRun : Type 0 where
  review_recorded : ReviewEvent → PostRun
  adoption_recorded : AdoptionEvent → PostRun
  cost_recorded : CostEvent → PostRun
  energy_recorded : EnergyEvent → PostRun

-- The type of an event with its payload.
pub data Payload : Type 0 where
  init : (repo_root : String) → Project → Policy → Option Revision → Payload
  approved : Request → Approval → Option Assessment → Payload
  semantic_assessed : Request → (assessed_at : ℕ) → Assessment → Payload
  attempt_prepared : (attempt_id request_digest : String) → Reservation → Option Metering → Payload
  command_prepared : (attempt_id : String) → (index : ℕ) → Payload
  command_started : (attempt_id : String) → (index pid : ℕ) → Option Measurement → Payload
  command_finished :
      (attempt_id : String)
      → (index : ℕ) → CommandResult
      → Option Measurement
      → Option (List Value)
      → Payload
  finished : (attempt_id : String) → Outcome → (reason : String) → Payload
  recovered : (attempt_ids : List String) → (reason : String) → Payload
  post_run : PostRun → Payload

-- `body` is the event without its digest, as it is hashed.
pub record Event : Type 0 where
  pub seq : ℕ
  pub prev_digest : Option String
  pub control_epoch : ℕ
  pub payload : Payload
  pub digest : String
  pub body : Fields

pub record Entry : Type 0 where
  pub request : Request
  pub approval : Approval

pub record Assessed : Type 0 where
  pub request_digest : String
  pub assessment : Assessment

pub record Attempt : Type 0 where
  pub request_digest : String
  pub status : AttemptStatus
  pub next_index : ℕ
  pub active_index : Option ℕ
  pub command_results : List CommandResult
  pub reason : Option String
  pub metering : Option Metering

pub record State : Type 0 where
  pub repo_root : String
  pub project : Project
  pub policy : Policy
  pub harness_revision : Option Revision
  pub control_epoch : ℕ
  pub approvals : Dict Entry
  pub attempts : Dict Attempt
  pub semantic_assessments : Dict Assessed
  pub reservation : Option Reservation
  pub recovery_required : Bool
  pub semantic_review_required : Bool

pub record Peer : Type 0 where
  pub attempt_id : String
  pub footprint : Value

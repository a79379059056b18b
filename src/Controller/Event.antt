-- ===== src/Controller/Event.antt =====
-- `eventContract` of core/controller/state.mjs, and the contracts of an approval and of a command's
-- result in core/controller/contracts.mjs. The shape of an event is its type here; the checks on its
-- values are these.
use eoduksini.Base.{
  ℕ, String, zero, ◌-◌, ◌+◌, Bool, true, false, not, ◌&&◌, ◌||◌, Option, none, some, List, [], ◌∷◌,
  str_eq, ltb, leb, ◌==◌, includes, distinct, all, length,
}
use eoduksini.Base.Int.{ℤ, pos}
use eoduksini.Base.Json.{str, obj, Fields, end, field, canonical}
use eoduksini.Base.Result.{ok, check, ◌>>◌}
use eoduksini.Base.Text.{
  codes, byte_length, matches_id, matches_hex, is_plain_text, prototype_names, positive, max_safe,
}
use eoduksini.Controller.Types.{
  invalid_event, json_input_too_large, invalid_harness_binding, invalid_reservation,
  invalid_approval, invalid_result, Outcome, succeeded, failed, recovery_required, CommandResult,
  Reservation, Revision, Project, Policy, Approval, non_overlapping, semantic_conflict,
  manual_decision_required, AssessmentStatus, Assessment, Payload, init, approved,
  semantic_assessed, attempt_prepared, command_prepared, command_started, command_finished,
  finished, recovered, post_run, Event,
}
use eoduksini.Controller.Contracts.{Contracts, Done, digest}

abbrev pub is_hash : String → Bool
is_hash = matches_hex 64

unfoldable pub identifier : String → Bool
unfolding matches_id
identifier s = matches_id s && not (includes prototype_names s)

abbrev pub max_event_bytes : ℕ
max_event_bytes = 262144

abbrev pub when_some {ℓ} : {A : Type ℓ} → Option A → (A → Done) → Done
when_some none f = ok tt
when_some (some a) f = f a

abbrev pub all_done {ℓ} : {A : Type ℓ} → (A → Done) → List A → Done
all_done f [] = ok tt
all_done f (x ∷ xs) = do f x; all_done f xs

is_non_overlapping : AssessmentStatus → Bool
is_non_overlapping non_overlapping = true
is_non_overlapping semantic_conflict = false
is_non_overlapping manual_decision_required = false

unfoldable pub is_clear : Assessment → Bool
unfolding is_non_overlapping
is_clear a = is_non_overlapping a.status

unfoldable pub approval_contract : Approval → Done
unfolding matches_id matches_hex
approval_contract a =
    check
      (matches_id a.approval_id
        && is_hash a.request_digest
        && leb a.issued_at max_safe
        && positive a.expires_at
        && ltb a.issued_at a.expires_at
        && leb (a.expires_at - a.issued_at) 3600000
        && positive a.control_epoch)
      invalid_approval

abbrev pub optional {ℓ} : {A : Type ℓ} → (A → Bool) → Option A → Bool
optional p none = true
optional p (some a) = p a

unfoldable pub is_zero_exit : Option ℤ → Bool
is_zero_exit (some (pos zero)) = true
is_zero_exit (some _) = false
is_zero_exit none = false

-- exit_code !== null && exit_code !== 0
unfoldable pub is_failure_exit : Option ℤ → Bool
is_failure_exit (some (pos zero)) = false
is_failure_exit (some _) = true
is_failure_exit none = false

unfoldable pub is_none {ℓ} : {A : Type ℓ} → Option A → Bool
is_none none = true
is_none (some _) = false

unfoldable pub outcome_contract : CommandResult → Outcome → Done
unfolding is_zero_exit is_failure_exit is_none
outcome_contract r succeeded =
    check (is_zero_exit r.exit_code && is_none r.signal && r.close_observed) invalid_result
outcome_contract r failed =
    check (r.close_observed && (not (is_none r.signal) || is_failure_exit r.exit_code))
      invalid_result
outcome_contract r recovery_required = ok tt

unfoldable pub result_contract : (is_absolute : String → Bool) → CommandResult → Done
unfolding outcome_contract is_plain_text matches_hex
result_contract is_absolute r = do
  check
      (is_plain_text r.reason
        && optional is_plain_text r.signal
        && optional positive r.pid
        && leb r.output_bytes max_safe
        && leb r.saved_bytes r.output_bytes
        && is_hash r.output_digest
        && is_absolute r.transcript_path)
      invalid_result
  outcome_contract r r.status

-- The event as it is written: with its digest behind the fields that are hashed.
unfoldable pub with_digest : Fields → String → Fields
with_digest end d = field "digest" (str d) end
with_digest (field k v f) d = field k v (with_digest f d)

module _ (c : Contracts) where
  revision_binding : Project → Policy → Revision → Done
  revision_binding project policy r = do
    c.revision_contract r
    check
        (str_eq r.project_id project.project_id
          && str_eq r.policy_digest (digest c policy.document)
          && str_eq r.activation_profile "FOUNDATION_NOW")
        invalid_harness_binding

  reservation_contract : Reservation → Done
  reservation_contract r =
      check (positive r.cpu_threads && ltb 0 r.memory_gib && r.active_tasks == 1)
        invalid_reservation

  attempt_index : String → ℕ → Done
  attempt_index id i = do check (identifier id) invalid_event; check (ltb i 16) invalid_event

  payload_contract : Payload → Done
  unfolding revision_binding reservation_contract attempt_index is_plain_text
  payload_contract (init root project policy revision) = do
    check (c.is_absolute root) invalid_event
    c.project_contract project
    c.policy_contract policy
    when_some revision (revision_binding project policy)
  payload_contract (approved request approval assessment) = do
    c.request_contract request
    approval_contract approval
    when_some assessment (λ a. do c.assessment_contract a; check (is_clear a) invalid_event)
  payload_contract (semantic_assessed request at assessment) = do
    c.request_contract request
    check (leb at max_safe) invalid_event
    c.assessment_contract assessment
  payload_contract (attempt_prepared id d reservation metering) = do
    check (identifier id) invalid_event
    check (is_hash d) invalid_event
    reservation_contract reservation
    when_some metering c.metering_contract
  payload_contract (command_prepared id i) = attempt_index id i
  payload_contract (command_started id i pid measurement) = do
    attempt_index id i
    check (positive pid) invalid_event
    when_some measurement c.measurement_contract
  payload_contract (command_finished id i result measurement invocations) = do
    attempt_index id i
    result_contract c.is_absolute result
    when_some measurement c.measurement_contract
    when_some invocations
        λ l. do check (leb (length l) 256) invalid_event; all_done c.invocation_contract l
  payload_contract (finished id outcome reason) = do
    check (identifier id) invalid_event
    check (is_plain_text reason) invalid_event
  payload_contract (recovered ids reason) = do
    check (is_plain_text reason) invalid_event
    check (not (length ids == 0) && all identifier ids && distinct ids) invalid_event
  payload_contract (post_run e) = c.post_run_contract e

  unfoldable pub event_contract : Event → Done
  unfolding payload_contract with_digest approval_contract result_contract identifier is_clear
      canonical
  event_contract e = do
    check
        (leb (byte_length (codes (canonical c.printer (obj (with_digest e.body e.digest)))) + 1)
          max_event_bytes)
        json_input_too_large
    check
        (positive e.seq
          && positive e.control_epoch
          && optional is_hash e.prev_digest
          && is_hash e.digest)
        invalid_event
    payload_contract e.payload

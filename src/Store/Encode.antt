-- ===== src/Store/Encode.antt =====
-- `makeEvent` of core/controller/store.mjs: the fields of an event as they are hashed and written. A
-- payload's fields stand in the order of `eventContract`.
use eoduksini.Base.Result.{◌>>◌, ok}
use eoduksini.Base.Text.{codes}
use eoduksini.Controller.Event.{event_contract, with_digest}
use eoduksini.Base.Int.{ℤ, pos, negsuc}
use eoduksini.Controller.Types.{
  recovery_required, PostRun, Approval, CommandResult, Payload, Outcome, init, review_recorded,
  Reservation, State, succeeded, Event, failed, approved, adoption_recorded, semantic_assessed,
  cost_recorded, attempt_prepared, energy_recorded, command_prepared, command_started,
  command_finished, finished, recovered, post_run,
}
use eoduksini.Controller.Contracts.{digest, Checked, Contracts}
use eoduksini.Store.{Runtime}
use eoduksini.Controller.Reduce.{fences}
use eoduksini.Base.{
  ℕ, String, Option, none, some, List, [], ◌∷◌, if◌then◌else◌, ◌+◌, ◌%◌, ◌/◌, ◌==◌, ◌++◌,
}
use eoduksini.Base.Json.{
  Value, null, bool, num, str, arr, obj, Fields, end, field, Items, nil, cons, whole, minus,
  fraction, canonical,
}

abbrev to_fields : List (String × Value) → Fields
to_fields [] = end
to_fields ((k, v) ∷ l) = field k v (to_fields l)

-- Absent properties are left out.
abbrev optional_field {ℓ} : {A : Type ℓ} → String → (A → Value) → Option A → List (String × Value)
optional_field k f none = []
optional_field k f (some a) = (k, f a) ∷ []

or_null {ℓ} : {A : Type ℓ} → (A → Value) → Option A → Value
or_null f none = null
or_null f (some a) = f a

text_items : List String → Items
text_items [] = nil
text_items (s ∷ l) = cons (str s) (text_items l)

value_items : List Value → Items
value_items [] = nil
value_items (v ∷ l) = cons v (value_items l)

integer : ℤ → Value
integer (pos n) = num (whole n)
integer (negsuc n) = num (minus n)

outcome_text : Outcome → String
outcome_text succeeded = "SUCCEEDED"
outcome_text failed = "FAILED"
outcome_text recovery_required = "RECOVERY_REQUIRED"

approval_value : Approval → Value
approval_value a = obj (
    to_fields (
      ("approval_id", str a.approval_id)
      ∷ ("request_digest", str a.request_digest)
      ∷ ("issued_at", num (whole a.issued_at))
      ∷ ("expires_at", num (whole a.expires_at))
      ∷ ("control_epoch", num (whole a.control_epoch))
      ∷ []))

result_value : CommandResult → Value
unfolding or_null integer outcome_text
result_value r = obj (
    to_fields (
      ("status", str (outcome_text r.status))
      ∷ ("reason", str r.reason)
      ∷ ("exit_code", or_null integer r.exit_code)
      ∷ ("signal", or_null str r.signal)
      ∷ ("pid", or_null (λ n. num (whole n)) r.pid)
      ∷ ("output_bytes", num (whole r.output_bytes))
      ∷ ("saved_bytes", num (whole r.saved_bytes))
      ∷ ("output_digest", str r.output_digest)
      ∷ ("transcript_path", str r.transcript_path)
      ∷ ("close_observed", bool r.close_observed)
      ∷ []))

post_run_document : PostRun → Value
post_run_document (review_recorded e) = e.document
post_run_document (adoption_recorded e) = e.document
post_run_document (cost_recorded e) = e.document
post_run_document (energy_recorded e) = e.document

post_run_type : PostRun → String
post_run_type (review_recorded e) = "REVIEW_RECORDED"
post_run_type (adoption_recorded e) = "ADOPTION_RECORDED"
post_run_type (cost_recorded e) = "COST_RECORDED"
post_run_type (energy_recorded e) = "ENERGY_RECORDED"

event_type : Payload → String
unfolding post_run_type
event_type (init _ _ _ _) = "INIT"
event_type (approved _ _ _) = "APPROVED"
event_type (semantic_assessed _ _ _) = "SEMANTIC_ASSESSED"
event_type (attempt_prepared _ _ _ _) = "PREPARED"
event_type (command_prepared _ _) = "COMMAND_PREPARED"
event_type (command_started _ _ _ _) = "COMMAND_STARTED"
event_type (command_finished _ _ _ _ _) = "COMMAND_FINISHED"
event_type (finished _ _ _) = "FINISHED"
event_type (recovered _ _) = "RECOVERED"
event_type (post_run e) = post_run_type e

module _ (rt : Runtime) where
  -- Memory is counted in 2 ^ -20 GiB.
  reservation_value : Reservation → Value
  reservation_value r = obj (
      to_fields (
        ("cpuThreads", num (whole r.cpu_threads))
        ∷ (
          "memoryGiB",
          num (
              if r.memory_gib % 1048576 == 0
              then whole (r.memory_gib / 1048576)
              else fraction (rt.print_memory r.memory_gib)),
        )
        ∷ ("activeTasks", num (whole r.active_tasks))
        ∷ []))

  payload_fields : Payload → Fields
  unfolding text_items value_items outcome_text approval_value result_value post_run_document
      reservation_value
  payload_fields (init root project policy revision) = to_fields (
      (("repo_root", str root) ∷ ("project", project.document) ∷ ("policy", policy.document) ∷ [])
      ++ optional_field "harness_revision" (λ r. r.document) revision)
  payload_fields (approved request approval assessment) = to_fields (
      (("request", request.document) ∷ ("approval", approval_value approval) ∷ [])
      ++ optional_field "semantic_assessment" (λ a. a.document) assessment)
  payload_fields (semantic_assessed request at assessment) = to_fields (
      ("request", request.document)
      ∷ ("assessed_at", num (whole at))
      ∷ ("assessment", assessment.document)
      ∷ [])
  payload_fields (attempt_prepared id d reservation metering) = to_fields (
      (("attempt_id", str id)
        ∷ ("request_digest", str d)
        ∷ ("reservation", reservation_value reservation)
        ∷ [])
      ++ optional_field "metering" (λ m. m.document) metering)
  payload_fields (command_prepared id i) =
      to_fields (("attempt_id", str id) ∷ ("index", num (whole i)) ∷ [])
  payload_fields (command_started id i pid measurement) = to_fields (
      (("attempt_id", str id) ∷ ("index", num (whole i)) ∷ ("pid", num (whole pid)) ∷ [])
      ++ optional_field "measurement" (λ m. m.document) measurement)
  payload_fields (command_finished id i result measurement invocations) = to_fields (
      (("attempt_id", str id) ∷ ("index", num (whole i)) ∷ ("result", result_value result) ∷ [])
      ++ optional_field "measurement" (λ m. m.document) measurement
      ++ optional_field "invocations" (λ l. arr (value_items l)) invocations)
  payload_fields (finished id outcome reason) = to_fields (
      ("attempt_id", str id) ∷ ("status", str (outcome_text outcome)) ∷ ("reason", str reason) ∷ [])
  payload_fields (recovered ids reason) =
      to_fields (("attempt_ids", arr (text_items ids)) ∷ ("reason", str reason) ∷ [])
  payload_fields (post_run e) = to_fields (("event", post_run_document e) ∷ [])

  unfoldable pub event_body :
      (seq : ℕ) → (prev_digest : Option String) → (epoch : ℕ) → Payload → Fields
  unfolding or_null payload_fields event_type
  event_body seq prev_digest epoch p = to_fields (
      ("schema_version", num (whole 1))
      ∷ ("seq", num (whole seq))
      ∷ ("prev_digest", or_null str prev_digest)
      ∷ ("control_epoch", num (whole epoch))
      ∷ ("type", str (event_type p))
      ∷ ("payload", obj (payload_fields p))
      ∷ [])

-- '0'.repeat(64)
abbrev zero_digest : String
zero_digest = "0000000000000000000000000000000000000000000000000000000000000000"

-- Only INIT is made while there is no state.
unfoldable pub next_epoch : Option State → Payload → ℕ
unfolding fences
next_epoch none p = 1
next_epoch (some s) p = if fences p then s.control_epoch + 1 else s.control_epoch

module _ (c : Contracts) (rt : Runtime) where
  candidate : Option State → (seq : ℕ) → (last_digest : Option String) → Payload → Event
  candidate state seq last_digest p = record {
    seq = seq + 1;
    prev_digest = last_digest;
    control_epoch = next_epoch state p;
    payload = p;
    digest = zero_digest;
    body = event_body rt (seq + 1) last_digest (next_epoch state p) p;
  }

  unfoldable pub make_event :
      Option State → (seq : ℕ) → (last_digest : Option String) → Payload → Checked Event
  unfolding candidate event_contract
  make_event state seq last_digest p = do
    event_contract c (candidate state seq last_digest p)
    ok (record (candidate state seq last_digest p) {
      digest = digest c (obj (candidate state seq last_digest p).body);
    })

-- canonical(event), the text of its line.
unfoldable pub line_of : Contracts → Event → List ℕ
unfolding canonical with_digest
line_of c e = codes (canonical c.printer (obj (with_digest e.body e.digest)))

-- ===== src/Controller/Contracts.antt =====
-- What the reducer calls: the runtime's SHA-256, `Date.parse` and `path.isAbsolute`, and the contracts
-- of core/contracts.mjs, core/controller/contracts.mjs, core/semantic.mjs, core/metering.mjs and
-- core/postrun.mjs. A contract returns or throws.
use eoduksini.Base.{ℕ, String, Bool, Option, List}
use eoduksini.Base.Json.{Printer, Value, canonical}
use eoduksini.Base.Result.{Result}
use eoduksini.Controller.Types.{
  Reason, Outcome, CommandResult, Revision, Project, Policy, Request, Assessment, Metering,
  Measurement, ReviewEvent, AdoptionEvent, CostEvent, EnergyEvent, PostRun, State, Peer,
}

abbrev pub Checked : Type 0 → Type 0
Checked A = Result Reason A

abbrev pub Done : Type 0
Done = Result Reason (Unit {0})

pub record Contracts : Type 0 where
  pub printer : Printer
  pub sha256 : String → String
  -- milliseconds from the earliest date; `none` is NaN
  pub parse_date : String → Option ℕ
  pub is_absolute : String → Bool
  pub project_contract : Project → Done
  pub policy_contract : Policy → Done
  pub revision_contract : Revision → Done
  pub request_contract : Request → Done
  pub request_footprint : Request → Checked Value
  pub assessment_contract : Assessment → Done
  pub assess_admission : Request → List Peer → Checked Assessment
  pub metering_contract : Metering → Done
  pub measurement_contract : Measurement → Done
  pub invocation_contract : Value → Done
  pub post_run_contract : PostRun → Done
  pub initial_metering : State → Request → ℕ → Checked Metering
  -- the record with absent event lists read as empty
  pub with_event_lists : Metering → Value
  pub append_measurement : Metering → Measurement → Checked Metering
  pub replace_measurement : Metering → Measurement → Checked Metering
  pub append_invocations : Metering → List Value → Checked Metering
  pub finish_metering : Metering → Outcome → List CommandResult → Checked Metering
  pub attach_review : Metering → ReviewEvent → Checked Metering
  pub attach_adoption : Metering → AdoptionEvent → Checked Metering
  pub attach_cost : Metering → CostEvent → Checked Metering
  pub attach_energy : Metering → EnergyEvent → Checked Metering

-- core/contracts.mjs
abbrev pub digest : Contracts → Value → String
digest c v = c.sha256 (canonical c.printer v)

abbrev pub request_digest : Contracts → Request → String
request_digest c r = digest c r.document

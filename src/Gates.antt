-- ===== src/Gates.antt =====
-- The gate in front of a dispatch: `checkApprovalTime` and `checkDispatch` of
-- core/controller/gates.mjs, with `resourcePlan` of core/reuse.mjs for a request without GPUs.
pub mod Admits
pub mod Samples
use eoduksini.Base.{
  ℕ, String, Bool, true, false, not, ◌&&◌, ◌||◌, Option, none, some, List, [], ◌∷◌, ◌-◌, str_eq,
  leb, ltb, ◌==◌, all, map, ◌≡◌, if◌then◌else◌, ◌+◌,
}
use eoduksini.Base.Dict.{lookup, has, Dict}
use eoduksini.Base.Result.{Result, ok, err, check, ◌>>◌, ◌>>=◌, traverse}
use eoduksini.Base.Text.{max_safe}
use eoduksini.Controller.Types.{
  Request, Reason as StateReason, State, Approval, Reservation, Attempt, Policy, Entry,
}
use eoduksini.Controller.Contracts.{Contracts, request_digest}
use eoduksini.Controller.Dispatch.{incomplete}
use eoduksini.Controller.Event.{is_none}
use eoduksini.Governor.Lock.{Lock, writer_gate}
use eoduksini.Governor.Scope.{Scope, scope, Reason as GovernorReason}
use eoduksini.Resource.Quota.{
  Capacity, Quota, Usage, Verdict, granted, refused, Invalid, decide_resource_admission,
  positive_to, max_cpu, max_memory, Input,
}

pub data Reason : Type 0 where
  invalid_time clock_rollback approval_expired approval_deadline_insufficient : Reason
  invalid_local_capacity recovery_required manual_decision_required : Reason
  approval_not_recorded request_digest_mismatch stale_control_epoch : Reason
  approval_ttl_exceeded repository_drift request_drift governor_hold : Reason
  reservation_identity_mismatch approval_consumed reservation_occupied : Reason
  resource_blocked : Reason
  -- thrown by `prepareRequest` and the contracts, the governor, and the quota
  contract_reason : StateReason → Reason
  governor_reason : GovernorReason → Reason
  quota_reason : Invalid → Reason

abbrev pub Checked : Type 0 → Type 0
Checked A = Result Reason A

abbrev pub Done : Type 0
Done = Result Reason (Unit {0})

-- What the gate calls and what it reads of a document.
pub record Sources : Type 0 where
  pub contracts : Contracts
  pub approval_contract : Approval → Result StateReason (Unit {0})
  -- prepareRequest(state,{attempt_id,task:request.task}), which reads the repository
  pub prepare_request : State → Request → Result StateReason Request
  -- drift(request.baseline,current.baseline).status==='UNCHANGED'
  pub unchanged : (requested current : Request) → Bool
  -- request.limits.timeout_ms
  pub timeout_ms : Request → ℕ
  pub request_scope : Request → Scope
  -- path.toLowerCase() on Windows, and the path elsewhere
  pub platform_path : String → String
  pub governor_locks : Policy → List Lock
  pub quota : Policy → Option Quota

abbrev rethrow {ℓ} : {E : Type 0} {A : Type ℓ} → (E → Reason) → Result E A → Result Reason A
rethrow f (ok a) = ok a
rethrow f (err e) = err (f e)

unfoldable pub check_approval_time : Sources → Request → Approval → (now : ℕ) → Done
check_approval_time g r a now = do
  check (leb now max_safe) invalid_time
  check (leb a.issued_at now) clock_rollback
  check (ltb now a.expires_at) approval_expired
  check (leb (g.timeout_ms r) (a.expires_at - now)) approval_deadline_insufficient

-- same(left,right) on approvals, of which these are all the fields
unfoldable pub same_approval : Approval → Approval → Bool
same_approval a b =
    str_eq a.approval_id b.approval_id
    && str_eq a.request_digest b.request_digest
    && a.issued_at == b.issued_at
    && a.expires_at == b.expires_at
    && a.control_epoch == b.control_epoch

unfoldable pub same_reservation : Reservation → Reservation → Bool
same_reservation a b =
    a.cpu_threads == b.cpu_threads
    && a.memory_gib == b.memory_gib
    && a.active_tasks == b.active_tasks

-- The approval that the state has is this one, of this request.
unfoldable pub recorded : Sources → Request → Approval → Option Entry → Done
unfolding same_approval
recorded g r a none = err approval_not_recorded
recorded g r a (some e) = do
  rethrow contract_reason (g.approval_contract e.approval)
  check
      (same_approval e.approval a
        && str_eq (request_digest g.contracts e.request) (request_digest g.contracts r))
      approval_not_recorded

lower_paths : Sources → Scope → Scope
lower_paths g [] = []
lower_paths g ((field, l) ∷ rest) =
    (field, if str_eq field "write_paths" then map g.platform_path l else l) ∷ lower_paths g rest

unfoldable pub scope_for_platform : Sources → Scope → Checked Scope
unfolding lower_paths
scope_for_platform g s = do
  normal ← rethrow governor_reason (scope s)
  rethrow governor_reason (scope (lower_paths g normal))

unfoldable pub lock_for_platform : Sources → Lock → Checked Lock
lock_for_platform g l = scope_for_platform g l.scope >>= λ s. ok (record l { scope = s })

-- The time as the governor counts it.
abbrev pub governor_time : ℕ → ℕ
governor_time now = max_safe + now

-- No lock of the policy holds the request back.
unfoldable pub check_governor : Sources → Policy → Request → (now : ℕ) → Done
unfolding scope_for_platform lock_for_platform
check_governor g policy r now = do
  check
      (all (λ l. leb l.issued_at (governor_time now) && leb l.last_heartbeat_at (governor_time now))
        (g.governor_locks policy))
      clock_rollback
  locks ← traverse (lock_for_platform g) (g.governor_locks policy)
  wanted ← scope_for_platform g (g.request_scope r)
  (allowed, _) ←
      rethrow governor_reason (writer_gate locks r.project.project_id wanted (governor_time now))
  check allowed governor_hold

unfoldable pub reservation_of : Request → Reservation
reservation_of r = record {
  cpu_threads = r.resources.cpu_threads;
  memory_gib = r.resources.memory_gib;
  active_tasks = 1;
}

unfoldable pub pending : Dict Attempt → Dict Attempt
pending [] = []
pending ((id, a) ∷ l) = let rest = pending l in if incomplete a then (id, a) ∷ rest else rest

-- pending.length===1 && pending[0][0]===id && pending[0][1].request_digest===request_digest
unfoldable pub only_pending : (id digest : String) → Dict Attempt → Bool
only_pending id d ((j, a) ∷ []) = str_eq j id && str_eq a.request_digest d
only_pending id d _ = false

unfoldable pub none_pending : Dict Attempt → Bool
none_pending [] = true
none_pending (_ ∷ _) = false

unfoldable pub owned : Option Reservation → Reservation → Bool
owned none r = false
owned (some u) r = same_reservation u r

unfoldable pub check_reservation : State → Request → (digest : String) → (existing : Bool) → Done
unfolding owned only_pending pending none_pending is_none
check_reservation s r d true =
    check
      (owned s.reservation (reservation_of r) && only_pending r.attempt_id d (pending s.attempts))
      reservation_identity_mismatch
check_reservation s r d false = do
  check (not (has r.attempt_id s.attempts)) approval_consumed
  check (is_none s.reservation && none_pending (pending s.attempts)) reservation_occupied

-- What is in use, less the attempt's own part.
used_by : Option Reservation → Reservation → (existing : Bool) → Usage
used_by none r existing = record { cpu_threads = 0; memory = 0; active_tasks = 0 }
used_by (some u) r true = record {
  cpu_threads = u.cpu_threads - r.cpu_threads;
  memory = u.memory_gib - r.memory_gib;
  active_tasks = u.active_tasks - 1;
}
used_by (some u) r false = record {
  cpu_threads = u.cpu_threads;
  memory = u.memory_gib;
  active_tasks = u.active_tasks;
}

capacity_contract : Capacity → Done
capacity_contract c =
    check
      (positive_to max_cpu c.cpu_threads
        && positive_to max_memory c.memory
        && leb c.available_memory c.memory)
      invalid_local_capacity

is_granted : Verdict → Bool
is_granted (granted _ _ _) = true
is_granted (refused _) = false

unfoldable pub resource_input : Sources → State → Request → (existing : Bool) → Capacity → ℕ → Input
unfolding used_by
resource_input g s r existing capacity now =
    let usage = used_by s.reservation (reservation_of r) existing in
    record {
      request = record {
        cpu_threads = r.resources.cpu_threads;
        memory = r.resources.memory_gib;
        allow_burst = false;
      };
      contract_usage = usage;
      node_usage = usage;
      node_capacity = capacity;
      quota = g.quota s.policy;
      legacy_internal = false;
      now = now;
    }

unfoldable pub check_resources : Sources → State → Request → (existing : Bool) → Capacity → ℕ → Done
unfolding capacity_contract is_granted
check_resources g s r existing capacity now = do
  capacity_contract capacity
  verdict ←
      rethrow quota_reason (decide_resource_admission (resource_input g s r existing capacity now))
  check (is_granted verdict) resource_blocked

-- The repository is as it was, and what is prepared from it now is the request.
unfoldable pub check_current : Sources → State → Request → Done
check_current g s r = do
  current ← rethrow contract_reason (g.prepare_request s r)
  check (g.unchanged r current) repository_drift
  check (str_eq (request_digest g.contracts current) (request_digest g.contracts r)) request_drift

unfoldable pub check_dispatch :
    Sources
    → State
    → Request
    → Approval
    → (now : ℕ) → Capacity
    → (existing : Bool) → Checked (Reservation × String)
check_dispatch g s r a now capacity existing = do
  rethrow contract_reason (g.contracts.request_contract r)
  rethrow contract_reason (g.approval_contract a)
  check (leb now max_safe) invalid_time
  check (not s.recovery_required) recovery_required
  check (not s.semantic_review_required) manual_decision_required
  recorded g r a (lookup r.attempt_id s.approvals)
  check (str_eq a.request_digest (request_digest g.contracts r)) request_digest_mismatch
  check (r.control_epoch == s.control_epoch && a.control_epoch == s.control_epoch)
      stale_control_epoch
  check_approval_time g r a now
  check (leb (a.expires_at - a.issued_at) s.policy.approval_ttl_ms) approval_ttl_exceeded
  check_current g s r
  check_governor g s.policy r now
  check_reservation s r (request_digest g.contracts r) existing
  check_resources g s r existing capacity now
  ok (reservation_of r, request_digest g.contracts r)

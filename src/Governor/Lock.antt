-- ===== src/Governor/Lock.antt =====
-- Locks of the high assurance governor: issue, state, heartbeat, decision and unlock
-- (core/governor.mjs). A change of a lock is a new lock; nothing is frozen here.
pub mod Beside
pub mod Writer
use eoduksini.Base.{
  ℕ, String, ◌+◌, ◌-◌, Bool, true, false, not, ◌&&◌, ◌||◌, Option, none, some, List, [], ◌∷◌, map,
  str_eq, ltb, leb, ◌==◌, any, all, keep, length, includes, distinct, if◌then◌else◌,
}
use eoduksini.Base.Json.{
  Value, str, num, arr, obj, whole, Items, nil, cons, end, field, Fields, canonical, Printer, bool,
}
use eoduksini.Base.Path.{is_empty}
use eoduksini.Base.Result.{ok, err, check, ◌>>◌, ◌>>=◌}
use eoduksini.Base.Text.{codes, matches_id, matches_hex, positive, max_safe}
use eoduksini.Governor.Scope.{
  invalid_baseline, invalid_lock_identity, governor_provider_not_approved, invalid_lease,
  lock_id_reused, scope_already_locked, invalid_time, invalid_writer_request,
  lock_recovery_required, provider_locked, stale_control_epoch, decision_lock_mismatch,
  stale_governor_decision, baseline_drift, invalid_action, duplicate_task_action, evidence_required,
  independent_verification_required, reverification_required, Checked, Done, Scope, scope,
  scope_overlap,
}

pub record Baseline : Type 0 where
  pub git_sha : String
  pub harness_revision : ℕ
  pub task_graph_revision : ℕ
  pub migration_head : String
  pub dependency_lock_digest : String
  pub api_contract_digest : String
  pub policy_digest : String
  pub control_epoch : ℕ

pub data Status : Type 0 where
  governor_locked lock_recovery unlocked : Status

-- What `lockState` answers.
pub data LockState : Type 0 where
  is_locked is_recovery is_unlocked is_expired is_heartbeat_lost : LockState

pub record Lock : Type 0 where
  pub lock_id : String
  pub project_id : String
  pub provider_binding : String
  pub baseline : Baseline
  pub baseline_digest : String
  pub scope : Scope
  pub issued_at : ℕ
  pub expires_at : ℕ
  pub heartbeat_interval_ms : ℕ
  pub last_heartbeat_at : ℕ
  pub status : Status
  pub decision_digest : Option String
  pub verification_digest : Option String

pub record Action : Type 0 where
  pub task_id : String
  pub action : String

pub record Decision : Type 0 where
  pub decision_id : String
  pub lock_id : String
  pub provider_binding : String
  pub control_epoch : ℕ
  pub baseline_digest : String
  pub task_actions : List Action
  pub required_tests : List String
  pub evidence_ids : List String

pub record TestResult : Type 0 where
  pub name : String
  pub result : String

pub record Verification : Type 0 where
  pub decision_digest : String
  pub verifier_id : String
  pub independent : Bool
  pub tests : List TestResult
  pub evidence_ids : List String

pub record Issue : Type 0 where
  pub lock_id : String
  pub project_id : String
  pub provider : String
  pub approved_providers : List String
  pub baseline : Baseline
  pub requested : Scope
  pub now : ℕ
  pub ttl_ms : ℕ
  pub heartbeat_ms : ℕ
  pub active_locks : List Lock

-- SHA-256 of the canonical text.
pub record Digests : Type 0 where
  pub printer : Printer
  pub sha256 : String → String

texts : List String → Items
texts [] = nil
texts (x ∷ xs) = cons (str x) (texts xs)

unfoldable pub baseline_value : Baseline → Value
baseline_value b = obj (
    field "git_sha" (str b.git_sha) (
      field "harness_revision" (num (whole b.harness_revision)) (
        field "task_graph_revision" (num (whole b.task_graph_revision)) (
          field "migration_head" (str b.migration_head) (
            field "dependency_lock_digest" (str b.dependency_lock_digest) (
              field "api_contract_digest" (str b.api_contract_digest) (
                field "policy_digest" (str b.policy_digest)
                  (field "control_epoch" (num (whole b.control_epoch)) end))))))))

actions : List Action → Items
actions [] = nil
actions (a ∷ l) =
    cons (obj (field "task_id" (str a.task_id) (field "action" (str a.action) end))) (actions l)

unfoldable pub decision_value : Decision → Value
unfolding texts actions
decision_value d = obj (
    field "decision_id" (str d.decision_id) (
      field "lock_id" (str d.lock_id) (
        field "provider_binding" (str d.provider_binding) (
          field "control_epoch" (num (whole d.control_epoch)) (
            field "baseline_digest" (str d.baseline_digest) (
              field "task_actions" (arr (actions d.task_actions)) (
                field "required_tests" (arr (texts d.required_tests))
                  (field "evidence_ids" (arr (texts d.evidence_ids)) end))))))))

tests : List TestResult → Items
tests [] = nil
tests (t ∷ l) = cons (obj (field "name" (str t.name) (field "result" (str t.result) end))) (tests l)

unfoldable pub verification_value : Verification → Value
unfolding texts tests
verification_value v = obj (
    field "decision_digest" (str v.decision_digest) (
      field "verifier_id" (str v.verifier_id) (
        field "independent" (bool v.independent) (
          field "tests" (arr (tests v.tests))
            (field "evidence_ids" (arr (texts v.evidence_ids)) end)))))

baseline_contract : Baseline → Done
baseline_contract b =
    check
      (matches_hex 40 b.git_sha
        && positive b.harness_revision
        && positive b.task_graph_revision
        && positive b.control_epoch
        && not (is_empty (codes b.migration_head))
        && matches_hex 64 b.dependency_lock_digest
        && matches_hex 64 b.api_contract_digest
        && matches_hex 64 b.policy_digest)
      invalid_baseline

is_unlocked_status : Status → Bool
is_unlocked_status governor_locked = false
is_unlocked_status lock_recovery = false
is_unlocked_status unlocked = true

-- The rest of `lockState`, by the stored status.
state_at : Status → Lock → ℕ → LockState
state_at unlocked l now = is_unlocked
state_at lock_recovery l now = is_recovery
state_at governor_locked l now =
    if leb l.expires_at now
    then is_expired
    else if ltb l.heartbeat_interval_ms (now - l.last_heartbeat_at)
    then is_heartbeat_lost
    else is_locked

-- Times are safe integers, also negative ones, counted from the least of them. So `now` is the time
-- `now - max_safe` of the source, and the greatest safe integer is this.
abbrev pub last_time : ℕ
last_time = max_safe + max_safe

unfoldable pub lock_state : Lock → ℕ → Checked LockState
unfolding state_at
lock_state l now = do
  check (leb now last_time && leb l.issued_at now) invalid_time
  ok (state_at l.status l now)

unfoldable pub state_is_locked : LockState → Bool
state_is_locked is_locked = true
state_is_locked is_recovery = false
state_is_locked is_unlocked = false
state_is_locked is_expired = false
state_is_locked is_heartbeat_lost = false

unfoldable pub state_is_unlocked : LockState → Bool
state_is_unlocked is_locked = false
state_is_unlocked is_recovery = false
state_is_unlocked is_unlocked = true
state_is_unlocked is_expired = false
state_is_unlocked is_heartbeat_lost = false

-- A lock of the project that is not unlocked holds none of the scope.
scope_free : Issue → Scope → Lock → Done
unfolding is_unlocked_status
scope_free i locked l =
    if str_eq l.project_id i.project_id && not (is_unlocked_status l.status)
    then (scope_overlap l.scope locked >>= λ hits. check (is_empty hits) scope_already_locked)
    else ok tt

-- The loop over the active locks.
unfoldable pub free_of : Issue → Scope → List Lock → Done
unfolding scope_free
free_of i locked [] = ok tt
free_of i locked (l ∷ ls) = do
  check (not (str_eq l.lock_id i.lock_id)) lock_id_reused
  scope_free i locked l
  free_of i locked ls

abbrev pub action_names : List String
action_names = "KEEP" ∷ "REVIEW" ∷ "REBASE" ∷ "CANCEL" ∷ "RESTART" ∷ "NEW" ∷ "BLOCK" ∷ "RETEST" ∷ []

valid_evidence : List String → Done
valid_evidence l = check (not (is_empty l) && all matches_id l) evidence_required

unfoldable pub require_locked : Lock → ℕ → Done
require_locked l now = lock_state l now >>= λ s. check (state_is_locked s) lock_recovery_required

unfoldable pub heartbeat :
    Lock → (provider : String) → (control_epoch now ttl_ms : ℕ) → Checked Lock
heartbeat l provider epoch now ttl = do
  require_locked l now
  check (str_eq provider l.provider_binding) provider_locked
  check (epoch == l.baseline.control_epoch) stale_control_epoch
  check (leb l.last_heartbeat_at now && positive ttl && ltb l.heartbeat_interval_ms ttl)
      invalid_lease
  ok (record l { last_heartbeat_at = now; expires_at = now + ttl })

unfoldable pub provider_failed : Lock → Lock
provider_failed l = record l { status = lock_recovery }

pub record Blocked : Type 0 where
  pub lock_id : String
  pub state : LockState

-- A lock of the project that holds some of the scope, with its state.
blocked_by : String → Scope → ℕ → Lock → Checked (Option Blocked)
blocked_by project requested now l =
    if str_eq l.project_id project
    then (lock_state l now >>= λ s.
        (if state_is_unlocked s
          then ok none
          else (scope_overlap l.scope requested >>= λ hits.
              ok (
                if is_empty hits then none else some (record { lock_id = l.lock_id; state = s })))))
    else ok none

add : Option Blocked → List Blocked → List Blocked
add none l = l
add (some b) l = b ∷ l

unfoldable pub blocking : String → Scope → ℕ → List Lock → Checked (List Blocked)
unfolding blocked_by add
blocking project requested now [] = ok []
blocking project requested now (l ∷ ls) = do
  here ← blocked_by project requested now l
  rest ← blocking project requested now ls
  ok (add here rest)

unfoldable pub writer_gate :
    List Lock → (project_id : String) → Scope → (now : ℕ) → Checked (Bool × List Blocked)
writer_gate locks project wanted now = do
  requested ← scope wanted
  check (matches_id project && leb now last_time) invalid_writer_request
  blocked ← blocking project requested now locks
  ok (is_empty blocked, blocked)

module _ (g : Digests) where
  abbrev pub digest : Value → String
  digest v = g.sha256 (canonical g.printer v)

  unfoldable pub issue_lock : Issue → Checked Lock
  unfolding baseline_contract
  issue_lock i = do
    check (matches_id i.lock_id && matches_id i.project_id && matches_id i.provider)
        invalid_lock_identity
    check (includes i.approved_providers i.provider) governor_provider_not_approved
    check
        (leb i.now last_time
          && positive i.ttl_ms
          && positive i.heartbeat_ms
          && ltb i.heartbeat_ms i.ttl_ms)
        invalid_lease
    locked ← scope i.requested
    baseline_contract i.baseline
    free_of i locked i.active_locks
    ok (record {
      lock_id = i.lock_id;
      project_id = i.project_id;
      provider_binding = i.provider;
      baseline = i.baseline;
      baseline_digest = digest (baseline_value i.baseline);
      scope = locked;
      issued_at = i.now;
      expires_at = i.now + i.ttl_ms;
      heartbeat_interval_ms = i.heartbeat_ms;
      last_heartbeat_at = i.now;
      status = governor_locked;
      decision_digest = none;
      verification_digest = none;
    })

  unfoldable pub validate_decision : Lock → Decision → (canonical : Baseline) → (now : ℕ) → Done
  unfolding baseline_contract valid_evidence
  validate_decision l d b now = do
    require_locked l now
    check (matches_id d.decision_id && str_eq d.lock_id l.lock_id) decision_lock_mismatch
    check (str_eq d.provider_binding l.provider_binding) provider_locked
    check (d.control_epoch == l.baseline.control_epoch && d.control_epoch == b.control_epoch)
        stale_governor_decision
    baseline_contract b
    check
        (str_eq (digest (baseline_value b)) l.baseline_digest
          && str_eq d.baseline_digest l.baseline_digest)
        baseline_drift
    check (all (λ a. matches_id a.task_id && includes action_names a.action) d.task_actions)
        invalid_action
    check (distinct (map (λ a. a.task_id) d.task_actions)) duplicate_task_action
    valid_evidence d.required_tests
    valid_evidence d.evidence_ids

  pub passed : List TestResult → String → Bool
  passed ts name = any (λ t. str_eq t.name name && str_eq t.result "PASS") ts

  unfoldable pub unlock :
      Lock → Decision → (canonical : Baseline) → (now : ℕ) → Verification → Checked Lock
  unfolding valid_evidence passed
  unlock l d b now v = do
    validate_decision l d b now
    check
        (str_eq v.decision_digest (digest (decision_value d))
          && matches_id v.verifier_id
          && v.independent)
        independent_verification_required
    check (all (passed v.tests) d.required_tests) reverification_required
    valid_evidence v.evidence_ids
    ok (record l {
      status = unlocked;
      decision_digest = some (digest (decision_value d));
      verification_digest = some (digest (verification_value v));
    })

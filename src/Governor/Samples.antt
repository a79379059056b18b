-- ===== src/Governor/Samples.antt =====
-- One lock through its life, and the theorems about locks at it.
use eoduksini.Governor.Lost.{is_lost, Lapsed, lost_lease_lasts, fail, same}
use eoduksini.Governor.Lock.Writer.{Passes, writer_gate-All}
use eoduksini.Base.Path.{is_empty}
use eoduksini.Governor.Gate.{heartbeat_live, unlock_verified}
use eoduksini.Governor.Scope.{Scope}
use eoduksini.Base.Result.{ok}
use eoduksini.Base.Lists.{All}
use eoduksini.Governor.Lock.Beside.{Beside, issue_lock-Beside}
use eoduksini.Base.Text.{matches_id, matches_hex}
use eoduksini.Governor.Scope.{scope, scope_overlap}
use eoduksini.Governor.Lock.{
  digest, require_locked, state_is_locked, lock_state, validate_decision, free_of, baseline_value,
  decision_value, passed, writer_gate, state_is_unlocked, blocking,
}
use eoduksini.Base.{
  ◌≡◌, refl, arith, [], ◌∷◌, true, String, ◌<◌, some, none, false, ◌-◌, ◌≤◌, includes, all,
  distinct, map,
}
use eoduksini.Governor.Lock.{
  Digests, Baseline, Lock, Issue, Decision, Verification, issue_lock, governor_locked, unlock,
  state_is_locked, lock_state, unlocked, heartbeat, provider_failed, is_heartbeat_lost, is_locked,
}

abbrev commit : String
commit = "0000000000000000000000000000000000000000"

abbrev hash : String
hash = "0000000000000000000000000000000000000000000000000000000000000000"

abbrev flat : Digests
flat = record {
  printer = record { print_text = λ s. s; print_number = λ n. "0" };
  sha256 = λ s. hash;
}

abbrev base : Baseline
base = record {
  git_sha = commit;
  harness_revision = 1;
  task_graph_revision = 1;
  migration_head = "m1";
  dependency_lock_digest = hash;
  api_contract_digest = hash;
  policy_digest = hash;
  control_epoch = 1;
}

abbrev other_lock : Lock
other_lock = record {
  lock_id = "l0";
  project_id = "p";
  provider_binding = "r";
  baseline = base;
  baseline_digest = hash;
  scope = ("symbols", "g" ∷ []) ∷ [];
  issued_at = 0;
  expires_at = 50;
  heartbeat_interval_ms = 10;
  last_heartbeat_at = 0;
  status = governor_locked;
  decision_digest = none;
  verification_digest = none;
}

abbrev wanted : Issue
wanted = record {
  lock_id = "l1";
  project_id = "p";
  provider = "r";
  approved_providers = "r" ∷ [];
  baseline = base;
  requested = ("symbols", "f" ∷ []) ∷ [];
  now = 100;
  ttl_ms = 60;
  heartbeat_ms = 20;
  active_locks = other_lock ∷ [];
}

abbrev fresh : Lock
fresh = record {
  lock_id = "l1";
  project_id = "p";
  provider_binding = "r";
  baseline = base;
  baseline_digest = hash;
  scope =
      ("write_paths", [])
      ∷ ("symbols", "f" ∷ [])
      ∷ ("api_routes", [])
      ∷ ("request_contracts", [])
      ∷ ("response_contracts", [])
      ∷ ("database_objects", [])
      ∷ ("migration_objects", [])
      ∷ ("rls_policies", [])
      ∷ ("environment_keys", [])
      ∷ ("generated_types", [])
      ∷ ("runtime_services", [])
      ∷ [];
  issued_at = 100;
  expires_at = 160;
  heartbeat_interval_ms = 20;
  last_heartbeat_at = 100;
  status = governor_locked;
  decision_digest = none;
  verification_digest = none;
}

wanted_issued : issue_lock flat wanted ≡ ok fresh
unfolding issue_lock matches_id matches_hex scope free_of scope_overlap
wanted_issued = refl

issue_lock-Beside_example :
    All (Beside "l1" "p" fresh.scope) (other_lock ∷ [])
    × (lock_state fresh 100 ≡ ok is_locked)
    × (includes ("r" ∷ []) "r" ≡ true)
issue_lock-Beside_example = issue_lock-Beside flat wanted wanted_issued

beaten :
    heartbeat fresh "r" 1 110 60 ≡ ok (record fresh { last_heartbeat_at = 110; expires_at = 170 })
unfolding heartbeat require_locked lock_state state_is_locked
beaten = refl

heartbeat_live_example :
    ("r" ≡ fresh.provider_binding)
    × (1 ≡ fresh.baseline.control_epoch)
    × (fresh.status ≡ governor_locked)
    × (110 < 160)
    × (110 - 100 ≤ 20)
    × (lock_state (record fresh { last_heartbeat_at = 110; expires_at = 170 }) 110 ≡ ok is_locked)
    × (fresh.scope ≡ fresh.scope)
    × (fresh.lock_id ≡ fresh.lock_id)
heartbeat_live_example = heartbeat_live fresh "r" 1 110 60 beaten

lost_state : lock_state fresh 130 ≡ ok is_heartbeat_lost
unfolding lock_state
lost_state = refl

lost_fresh : Lapsed fresh 130
unfolding is_lost
lost_fresh = (is_heartbeat_lost, lost_state, refl)

lost_lease_lasts_example :
    Lapsed (provider_failed fresh) 200
    × ((provider_failed fresh).scope ≡ fresh.scope)
    × ((provider_failed fresh).project_id ≡ "p")
lost_lease_lasts_example =
    lost_lease_lasts {g = flat} 200 lost_fresh (fail same) (omega arith) (omega arith)

abbrev settled : Decision
settled = record {
  decision_id = "d1";
  lock_id = "l1";
  provider_binding = "r";
  control_epoch = 1;
  baseline_digest = hash;
  task_actions = [];
  required_tests = "t1" ∷ [];
  evidence_ids = "e1" ∷ [];
}

abbrev verified : Verification
verified = record {
  decision_digest = hash;
  verifier_id = "v1";
  independent = true;
  tests = (record { name = "t1"; result = "PASS" }) ∷ [];
  evidence_ids = "e2" ∷ [];
}

abbrev closed : Lock
closed = record fresh {
  status = unlocked;
  decision_digest = some hash;
  verification_digest = some hash;
}

closed_by : unlock flat fresh settled base 110 verified ≡ ok closed
unfolding unlock validate_decision require_locked lock_state state_is_locked matches_id matches_hex
closed_by = refl

unlock_verified_example :
    (lock_state fresh 110 ≡ ok is_locked)
    × (settled.lock_id ≡ fresh.lock_id)
    × (settled.provider_binding ≡ fresh.provider_binding)
    × (settled.control_epoch ≡ fresh.baseline.control_epoch)
    × (settled.control_epoch ≡ base.control_epoch)
    × (settled.baseline_digest ≡ fresh.baseline_digest)
    × (distinct (map (λ a. a.task_id) settled.task_actions) ≡ true)
    × (digest flat (baseline_value base) ≡ hash)
    × (verified.decision_digest ≡ digest flat (decision_value settled))
    × (verified.independent ≡ true)
    × (all (passed flat verified.tests) settled.required_tests ≡ true)
    × (is_empty settled.required_tests ≡ false)
    × (closed.status ≡ unlocked)
unlock_verified_example = unlock_verified flat fresh settled base 110 verified closed_by

abbrev reads : Scope
reads = ("symbols", "h" ∷ []) ∷ []

let_through : writer_gate (fresh ∷ []) "p" reads 105 ≡ ok (true, [])
unfolding writer_gate scope scope_overlap matches_id lock_state state_is_unlocked blocking
let_through = refl

writer_gate-All_example :
    (requested : Scope) × (scope reads ≡ ok requested) × All (Passes "p" requested 105) (fresh ∷ [])
writer_gate-All_example = writer_gate-All (fresh ∷ []) "p" reads 105 let_through

-- ===== src/Governor/Gate.antt =====
-- What a lock stops, how long it lives, and what it takes to be rid of it.
use eoduksini.Base.Path.{is_empty}
use eoduksini.Base.Result.{ok, >>=-eq-ok}
use eoduksini.Base.{◌≡◌, String, ℕ, ◌<◌, ◌-◌, ◌≤◌, arith, eq_iff, false, true, all, distinct, map}
use eoduksini.Governor.Lock.{
  Lock, lock_state, heartbeat, require_locked, state_is_locked, governor_locked, is_locked, unlock,
  Digests, validate_decision, Decision, unlocked, Baseline, Verification, digest, baseline_value,
  decision_value, passed,
}

-- A heartbeat is accepted only from the bound provider, in the lock's epoch, while the lease lives
-- and the last heartbeat is recent; the new lease is live at its own time.
pub heartbeat_live :
    (l : Lock) (provider : String) (epoch now ttl : ℕ) {l' : Lock}
    → heartbeat l provider epoch now ttl ≡ ok l'
    → (provider ≡ l.provider_binding)
      × (epoch ≡ l.baseline.control_epoch)
      × (l.status ≡ governor_locked)
      × (now < l.expires_at)
      × (now - l.last_heartbeat_at ≤ l.heartbeat_interval_ms)
      × (lock_state l' now ≡ ok is_locked)
      × (l'.scope ≡ l.scope)
      × (l'.lock_id ≡ l.lock_id)
unfolding heartbeat require_locked lock_state state_is_locked
heartbeat_live l provider epoch now ttl h = ground (arith, eq_iff provider l.provider_binding)

validate_decision_inv :
    (g : Digests) (l : Lock) (d : Decision) (b : Baseline) (now : ℕ)
    → validate_decision g l d b now ≡ ok tt
    → (lock_state l now ≡ ok is_locked)
      × (d.lock_id ≡ l.lock_id)
      × (d.provider_binding ≡ l.provider_binding)
      × (d.control_epoch ≡ l.baseline.control_epoch)
      × (d.control_epoch ≡ b.control_epoch)
      × (d.baseline_digest ≡ l.baseline_digest)
      × (digest g (baseline_value b) ≡ l.baseline_digest)
      × (distinct (map (λ a. a.task_id) d.task_actions) ≡ true)
      × (is_empty d.required_tests ≡ false)
unfolding validate_decision require_locked lock_state state_is_locked
validate_decision_inv g l d b now h = ground (
  arith,
  eq_iff d.lock_id l.lock_id,
  eq_iff d.provider_binding l.provider_binding,
  eq_iff d.baseline_digest l.baseline_digest,
  eq_iff (digest g (baseline_value b)) l.baseline_digest,
)

-- An unlock is an independent verification of this very decision: the lock was live, the decision
-- named it, its provider, its control epoch and its baseline, which is the canonical one, and no task
-- twice, and every test that it required has passed.
pub unlock_verified :
    (g : Digests) (l : Lock) (d : Decision) (b : Baseline) (now : ℕ) (v : Verification) {l' : Lock}
    → unlock g l d b now v ≡ ok l'
    → (lock_state l now ≡ ok is_locked)
      × (d.lock_id ≡ l.lock_id)
      × (d.provider_binding ≡ l.provider_binding)
      × (d.control_epoch ≡ l.baseline.control_epoch)
      × (d.control_epoch ≡ b.control_epoch)
      × (d.baseline_digest ≡ l.baseline_digest)
      × (distinct (map (λ a. a.task_id) d.task_actions) ≡ true)
      × (digest g (baseline_value b) ≡ l.baseline_digest)
      × (v.decision_digest ≡ digest g (decision_value d))
      × (v.independent ≡ true)
      × (all (passed g v.tests) d.required_tests ≡ true)
      × (is_empty d.required_tests ≡ false)
      × (l'.status ≡ unlocked)
unfolding unlock
unlock_verified g l d b now v h =
    let (_, valid, _) = >>=-eq-ok (validate_decision g l d b now) _ h in
    let (live, lock, provider, epoch, current, named, baseline, once, tests) =
      validate_decision_inv g l d b now valid in
    (
      live,
      lock,
      provider,
      epoch,
      current,
      named,
      once,
      baseline,
      ground (arith, eq_iff v.decision_digest (digest g (decision_value d))),
      ground arith,
      ground arith,
      tests,
      ground arith,
    )

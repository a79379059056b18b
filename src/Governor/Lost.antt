-- ===== src/Governor/Lost.antt =====
-- A lock that was lost to its provider (core/governor.mjs): what may still become of it.
use eoduksini.Governor.Gate.{unlock_verified}
use eoduksini.Base.{◌≡◌, String, ℕ, ◌≤◌, true, ◌≢◌, arith, Bool, refl, not, ◌&&◌, inl, inr}
use eoduksini.Base.Result.{ok, Result-cases}
use eoduksini.Governor.Lock.{
  Lock, Digests, heartbeat, provider_failed, unlock, lock_state, last_time, require_locked,
  Decision, state_is_locked, LockState, Baseline, state_is_unlocked, is_locked, is_recovery,
  Verification,
}

-- What accepted operations make of a lock from a time on; a refused one leaves it as it is.
pub data Life (g : Digests) : Lock → ℕ → Lock → ℕ → Type 0 where
  same : {l : Lock} {t : ℕ} → Life g l t l t
  beat :
      {l k m : Lock} {t u : ℕ} (provider : String) (epoch now ttl : ℕ)
      → t ≤ now
      → heartbeat l provider epoch now ttl ≡ ok k
      → Life g k now m u
      → Life g l t m u
  fail : {l m : Lock} {t u : ℕ} → Life g (provider_failed l) t m u → Life g l t m u
  release :
      {l k m : Lock} {t u : ℕ} (d : Decision) (b : Baseline) (now : ℕ) (v : Verification)
      → t ≤ now
      → unlock g l d b now v ≡ ok k
      → Life g k now m u
      → Life g l t m u

-- Expired, without heartbeat, or in recovery.
unfoldable pub is_lost : LockState → Bool
unfolding state_is_locked state_is_unlocked
is_lost s = not (state_is_locked s) && not (state_is_unlocked s)

abbrev pub Lapsed : Lock → ℕ → Type 0
Lapsed l t = (s : LockState) × (lock_state l t ≡ ok s) × (is_lost s ≡ true)

Lapsed-later : (l : Lock) (t now : ℕ) → Lapsed l t → t ≤ now → now ≤ last_time → Lapsed l now
unfolding lock_state is_lost state_is_locked state_is_unlocked
Lapsed-later l t now (s, found, lost) later safe = elim (Result-cases (lock_state l now)) [
  | inl (s', known) ↦ (s', known, ground (arith, found, lost, known))
  | inr (r, bad) ↦ absurd (ground (arith, found, bad))
]

heartbeat-live :
    (l : Lock) (provider : String) (epoch now ttl : ℕ) {k : Lock}
    → heartbeat l provider epoch now ttl ≡ ok k
    → (lock_state l now ≡ ok is_locked) × (now ≤ last_time)
unfolding heartbeat require_locked lock_state state_is_locked
heartbeat-live l provider epoch now ttl h = ground arith

unlock-live :
    (g : Digests) (l : Lock) (d : Decision) (b : Baseline) (now : ℕ) (v : Verification) {k : Lock}
    → unlock g l d b now v ≡ ok k
    → (lock_state l now ≡ ok is_locked) × (now ≤ last_time)
unfolding lock_state
unlock-live g l d b now v h =
    let live = (unlock_verified g l d b now v h).0 in (live, ground (arith, live))

not_live :
    (l : Lock) (t now : ℕ)
    → Lapsed l t
    → t ≤ now
    → now ≤ last_time
    → lock_state l now ≢ ok is_locked
unfolding is_lost state_is_locked
not_live l t now lost later safe live =
    let (s, found, is_so) = Lapsed-later l t now lost later safe in
    ground (arith, live, found, is_so)

provider_failed-Lapsed : (l : Lock) (t : ℕ) → Lapsed l t → Lapsed (provider_failed l) t
unfolding lock_state provider_failed is_lost state_is_locked state_is_unlocked
provider_failed-Lapsed l t (s, found, lost) = (is_recovery, ground (arith, found), refl)

-- A lease that is lost is never renewed and its lock never unlocked: whatever operations are accepted
-- after that, at times that do not go back, the lock is lost at every later time, and holds the same
-- scope of the same project.
pub lost_lease_lasts :
    {g : Digests} {l m : Lock} {t u : ℕ} (now : ℕ)
    → Lapsed l t
    → Life g l t m u
    → u ≤ now
    → now ≤ last_time
    → Lapsed m now × (m.scope ≡ l.scope) × (m.project_id ≡ l.project_id)
unfolding provider_failed
lost_lease_lasts now lost same later safe = (Lapsed-later _ _ now lost later safe, refl, refl)
lost_lease_lasts {l = l} {t = t} now lost (beat p e at ttl h done rest) later safe =
    let (live, in_time) = heartbeat-live l p e at ttl done in
    absurd (not_live l t at lost h in_time live)
lost_lease_lasts {l = l} {t = t} now lost (fail rest) later safe =
    lost_lease_lasts now (provider_failed-Lapsed l t lost) rest later safe
lost_lease_lasts {g} {l = l} {t = t} now lost (release d b at v h done rest) later safe =
    let (live, in_time) = unlock-live g l d b at v done in
    absurd (not_live l t at lost h in_time live)

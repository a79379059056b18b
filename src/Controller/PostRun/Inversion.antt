-- ===== src/Controller/PostRun/Inversion.antt =====
-- An accepted post-run event writes the metering of one finished attempt and nothing else.
use eoduksini.Base.{◌≡◌, Option, some, ℕ, false, Bool-cases, arith, inl, inr}
use eoduksini.Base.Result.{ok, >>=-eq-ok, ◌>>=◌}
use eoduksini.Controller.PostRun.{
  bound_metering, authority_of, attach, is_date, parse, record_post_run, event_attempt,
  with_metering, Contracts, State, PostRun, Metering, Attempt, put_attempt, Checked, lookup,
  incomplete,
}

module _ (c : Contracts) (s : State) (e : PostRun) where
  bound_metering_inv :
      {a : Attempt} {m : Metering}
      → bound_metering c s e ≡ ok (a, m)
      → (lookup (event_attempt e) s.attempts ≡ some a) × (incomplete a ≡ false)
  unfolding bound_metering
  bound_metering_inv h = ground arith

  abbrev finished_at : Metering → Option ℕ
  finished_at m = parse c m.worker_finished_at_utc

  -- The rest of the code behind the guard on the worker's finish.
  abbrev rest : Attempt → Metering → Checked State
  rest a m = authority_of c s >>= λ authority. attach c authority (finished_at m) a m e >>= λ m'.
      ok (put_attempt s (event_attempt e) (with_metering a m'))

  rest_inv :
      (a : Attempt) (m : Metering) {s' : State}
      → rest a m ≡ ok s'
      → (m' : Metering) × (s' ≡ put_attempt s (event_attempt e) (with_metering a m'))
  rest_inv a m h =
      let (authority, _, h') = >>=-eq-ok (authority_of c s) _ h in
      let (m', _, h'') = >>=-eq-ok (attach c authority (finished_at m) a m e) _ h' in (m', cc)

  pub record_post_run_inv :
      {s' : State}
      → record_post_run c s e ≡ ok s'
      → (a : Attempt) × (m : Metering) × (lookup (event_attempt e) s.attempts ≡ some a)
        × (incomplete a ≡ false)
        × (s' ≡ put_attempt s (event_attempt e) (with_metering a m))
  unfolding record_post_run
  record_post_run_inv h =
      let (am, bound, h') = >>=-eq-ok (bound_metering c s e) _ h in
      let (found, done) = bound_metering_inv bound in
      elim (Bool-cases (is_date c (finished_at am.1))) [
        | inl dated ↦
            let (m', same) = rest_inv am.0 am.1 (rw dated at h') in (am.0, m', found, done, same)
        | inr undated ↦ cc (rw undated at h')
      ]

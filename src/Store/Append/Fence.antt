-- ===== src/Store/Append/Fence.antt =====
-- The calls of `append` in one session (core/controller/store.mjs), whatever happens to the files
-- between them.
use eoduksini.Base.Text.{byte_length}
use eoduksini.Store.Append.Accepted.{append_accepted, make_event_inv, text_of}
use eoduksini.Requirement.Stamp.{before}
use eoduksini.Base.Result.{ok}
use eoduksini.Store.{Runtime, Session, Disk}
use eoduksini.Controller.Types.{Payload, Event, State}
use eoduksini.Store.Append.{
  prepared_attempt, advance, add_prepared, continues, append, is_prepared_here,
}
use eoduksini.Controller.Contracts.{Contracts}
use eoduksini.Base.{
  ℕ, String, List, none, some, Option, Bool, true, false, ◌≡◌, [], ◌∷◌, arith, str_eq, ◌++◌, any,
  includes, ◌||◌, ap,
}

-- PREPARED of this attempt.
unfoldable pub prepares_here : String → Payload → Bool
unfolding prepared_attempt
prepares_here id p = elim (prepared_attempt p) [ none ↦ false | some j ↦ str_eq id j ]

-- The accepted events of a session, from one of its states to another.
pub data Run (c : Contracts) (rt : Runtime) : Session → List Payload → Session → Type 0 where
  stay : {s : Session} → Run c rt s [] s
  accept :
      {s : Session} {ps : List Payload} {t : Session} (seen now : Disk) (fault : Option ℕ)
      (p : Payload) (next : State)
      → (append c rt seen now fault s p).result ≡ ok next
      → Run c rt (append c rt seen now fault s p).session ps t
      → Run c rt s (p ∷ ps) t

module _ (c : Contracts) (rt : Runtime) where
  advance-prepared :
      (s : Session) (e : Event) (next : State) (size : ℕ) (id : String)
      → includes (advance s e next size).prepared_here id
        ≡ (prepares_here id e.payload || includes s.prepared_here id)
  unfolding advance prepares_here add_prepared
  advance-prepared s e next size id = ground arith

  Run-prepared :
      (before after : List Payload) (q : Payload) (id : String) {s t : Session}
      → Run c rt s (before ++ q ∷ after) t
      → continues q ≡ some id
      → (any (prepares_here id) before || includes s.prepared_here id) ≡ true
  unfolding is_prepared_here
  Run-prepared [] after q id (accept {s = s} seen now fault _ next h rest) k =
      let (_, _, _, _, _, prepared, _, _, _) = append_accepted c rt seen now fault s q h in
      ground (arith, prepared)
  Run-prepared (p ∷ ps) after q id (accept {s = s} seen now fault _ next h rest) k =
      let (e, _, _, _, made, _, _, _, same) = append_accepted c rt seen now fault s p h in
      let (_, _, payload, _, _, _) =
        make_event_inv c rt (some s.meta.state) s.meta.seq (some s.meta.last_digest) p made in
      let later = Run-prepared ps after q id rest k in
      let grown = advance-prepared s e next (byte_length (text_of c e)) id in
      let through = ap (λ a. includes a.session.prepared_here id) same in
      ground (arith, later, through, grown, ap (prepares_here id) payload)

  -- In a session, an event that executes or ends an attempt is accepted only behind the PREPARED of the
  -- same attempt in the same session: an attempt of an earlier session is left to a recovery.
  pub Run-fenced :
      (before after : List Payload) (q : Payload) (id : String) {s t : Session}
      → Run c rt s (before ++ q ∷ after) t
      → s.prepared_here ≡ []
      → continues q ≡ some id
      → any (prepares_here id) before ≡ true
  Run-fenced before after q id run fresh h =
      ground (arith, Run-prepared before after q id run h, fresh)

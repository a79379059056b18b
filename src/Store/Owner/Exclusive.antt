-- ===== src/Store/Owner/Exclusive.antt =====
-- One owner at a time (core/controller/store.mjs).
use eoduksini.Store.Paths.{inspect_path}
use eoduksini.Store.Append.Accepted.{
  append_accepted, is_owned-token, is_owned-taken, may_write_inv, text_of,
}
use eoduksini.Base.Result.{ok, err, Result-cases, ok-injective}
use eoduksini.Store.Owner.{begin_session, open_session}
use eoduksini.Controller.Types.{Payload, State, Event}
use eoduksini.Store.{Runtime, Disk, Session, StoreReason, journal_write_failed}
use eoduksini.Controller.Contracts.{Contracts}
use eoduksini.Store.Append.{append, write_event, is_owned, next_event, owner_token, may_write}
use eoduksini.Base.{
  ℕ, String, none, some, Option, true, false, ◌≡◌, [], arith, inr, inl, Option-cases, ◌∙◌, ap, sym,
  ◌⊎◌, ◌≢◌, List, Bool-cases,
}

module _ (c : Contracts) (rt : Runtime) where
  write_event-not_owned :
      (s : Session) (now : Disk) (fault : Option ℕ) (e : Event) (next : State) (text : List ℕ)
      → is_owned now s.token ≡ false
      → ((write_event s now fault e next text).disk ≡ now)
        × ((a : State) → (write_event s now fault e next text).result ≢ ok a)
  unfolding write_event
  write_event-not_owned s now fault e next text lost =
      elim (Result-cases (may_write s now e.payload text)) [
        | inl (file, may) ↦
            let (_, _, _, _, owned) = may_write_inv s now e.payload text may in
            absurd (cc (lost, owned))
        | inr (r, bad) ↦ (ground (arith, bad), λ a h. ground (arith, bad, h))
      ]

  -- A session writes nothing, and its call fails, if its token is not the owner's when the call begins
  -- or when it comes to writing.
  append-not_owned :
      (seen now : Disk) (fault : Option ℕ) (s : Session) (p : Payload)
      → (is_owned seen s.token ≡ false) ⊎ (is_owned now s.token ≡ false)
      → ((append c rt seen now fault s p).disk ≡ now)
        × ((a : State) → (append c rt seen now fault s p).result ≢ ok a)
  unfolding append
  append-not_owned seen now fault s p (inl lost) =
      (ground (arith, lost), λ a h. ground (arith, lost, h))
  append-not_owned seen now fault s p (inr lost) = elim (Result-cases (next_event c rt s p)) [
    | inr ((s', r), bad) ↦ (ground (arith, bad), λ a h. ground (arith, bad, h))
    | inl ((e, next), made) ↦
        let (kept, fails) = write_event-not_owned s now fault e next (text_of c e) lost in
        (ground (arith, made, kept), λ a h. ground (arith, made, fails a, h))
  ]

  owned-other :
      (disk disk' : Disk) (a b : String)
      → disk'.owner ≡ disk.owner
      → a ≢ b
      → is_owned disk a ≡ true
      → is_owned disk' b ≡ false
  unfolding is_owned owner_token
  owned-other disk disk' a b same apart mine = elim (Bool-cases (is_owned disk' b)) [
    | inr not_owned ↦ not_owned
    | inl yours ↦
        let there : is_owned disk b ≡ true = ground (arith, same, yours) in
        absurd (apart (is_owned-token disk a b mine there))
  ]

  -- Beside a session that has an event accepted, a session of another token writes nothing and its call
  -- fails, whatever it appends, if it finds the same owner as the first one did, be it when its call
  -- begins or when it comes to writing.
  pub append-exclusive :
      (seen now seen' now' : Disk) (fault fault' : Option ℕ) (s t : Session) (p q : Payload)
      {a : State}
      → (append c rt seen now fault s p).result ≡ ok a
      → s.token ≢ t.token
      → (seen'.owner ≡ seen.owner) ⊎ (now'.owner ≡ now.owner)
      → ((append c rt seen' now' fault' t q).disk ≡ now')
        × ((b : State) → (append c rt seen' now' fault' t q).result ≢ ok b)
  append-exclusive seen now seen' now' fault fault' s t p q h apart same =
      let (e, file, _, first, _, _, _, may, _) = append_accepted c rt seen now fault s p h in
      let (_, _, _, _, second) = may_write_inv s now e.payload (text_of c e) may in
      append-not_owned seen' now' fault' t q (elim same [
        | inl at_call ↦ inl (owned-other seen seen' s.token t.token at_call apart first)
        | inr at_write ↦ inr (owned-other now now' s.token t.token at_write apart second)
      ])

  open_session_inv :
      (disk : Disk) (state_root token : String) {s : Session}
      → open_session c rt disk state_root token ≡ ok s
      → (s.token ≡ token) × (s.valid ≡ true) × (s.prepared_here ≡ [])
  unfolding open_session
  open_session_inv disk state_root token h = ground arith

  -- A session begins only where no owner is; then its token is the owner's, and no attempt counts as
  -- prepared in it.
  pub begin_session-owner :
      (disk : Disk) (state_root token : String) {s : Session}
      → (begin_session c rt disk state_root token none).1 ≡ ok s
      → (disk.owner ≡ none)
        × ((begin_session c rt disk state_root token none).0
            ≡ record disk { owner = some (some token) })
        × (s.token ≡ token)
        × (s.valid ≡ true)
        × (s.prepared_here ≡ [])
  unfolding begin_session
  begin_session-owner disk state_root token {s = s} h =
      elim (Result-cases (inspect_path rt disk false false state_root)) [
        | inr (r, bad) ↦ absurd (ground (arith, bad))
        | inl (_, plain) ↦ elim (Option-cases disk.owner) [
          | inr (o, taken) ↦ absurd (ground (arith, plain, taken))
          | inl free ↦
              elim (Result-cases
                (open_session c rt (record disk { owner = some (some token) }) state_root token)) [
                  | inr (r, bad) ↦ absurd (ground (arith, plain, free, bad))
                  | inl (t, opened) ↦
                      let (token_is, valid, fresh) =
                        open_session_inv (record disk { owner = some (some token) }) state_root
                          token opened in
                      let begun : (begin_session c rt disk state_root token none).1 ≡ ok t =
                        ground (arith, plain, free, opened) in
                      let same : t ≡ s = ok-injective (sym begun ∙ h) in
                      (
                        free,
                        ground (arith, plain, free, opened),
                        rw (← same) token_is,
                        rw (← same) valid,
                        rw (← same) fresh,
                      )
                ]
        ]
      ]

  -- A session that does not begin leaves the files as they were, the owner who was there or none; but
  -- if making the owner fails half-way, what was made of it stays.
  pub begin_session-refused :
      (disk : Disk) (state_root token : String) (remnant : Option (Option String)) {r : StoreReason}
      → (begin_session c rt disk state_root token remnant).1 ≡ err r
      → ((begin_session c rt disk state_root token remnant).0 ≡ disk)
        ⊎ ((left : Option String) × (remnant ≡ some left)
            × (disk.owner ≡ none)
            × (r ≡ journal_write_failed)
            × ((begin_session c rt disk state_root token remnant).0
                ≡ record disk { owner = some left }))
  unfolding begin_session
  begin_session-refused disk state_root token remnant h =
      elim (Result-cases (inspect_path rt disk false false state_root)) [
        | inr (_, bad) ↦ inl (ground (arith, bad))
        | inl (_, plain) ↦ elim (Option-cases disk.owner) [
          | inr (o, taken) ↦ inl (ground (arith, plain, taken))
          | inl free ↦ elim (Option-cases remnant) [
            | inr (left, failing) ↦ inr (
              left,
              failing,
              free,
              ground (arith, plain, free, failing),
              ground (arith, plain, free, failing),
            )
            | inl whole ↦
                elim (Result-cases (
                  open_session c rt (record disk { owner = some (some token) }) state_root token)) [
                    | inl (t, opened) ↦ absurd (ground (arith, plain, free, whole, opened))
                    | inr (_, bad) ↦
                        let back : (begin_session c rt disk state_root token remnant).0
                            ≡ record disk { owner = none } =
                          ground (arith, plain, free, whole, bad, is_owned-taken disk token) in
                        inl (back ∙ ap (λ o. record disk { owner = o }) (sym free))
                  ]
          ]
        ]
      ]

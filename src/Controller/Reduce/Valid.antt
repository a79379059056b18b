-- ===== src/Controller/Reduce/Valid.antt =====
-- What holds of the controller's state at every point of a journal, and the ways in which an event
-- changes it.
use eoduksini.Base.{
  String, ◌≡◌, refl, sym, ◌∙◌, true, false, inl, inr, none, some, length, arith, eq_iff, Option,
}
use eoduksini.Base.Dict.{lookup, insert, Unique, lookup-insert_cases, insert-Unique}
use eoduksini.Controller.Types.{Entry, Attempt, State, Reservation}
use eoduksini.Controller.Event.{is_none}
use eoduksini.Controller.Dispatch.{incomplete, put_attempt}
use eoduksini.Controller.Attempts.{AttemptValid}

-- Every attempt has its approval and a valid life; at most one attempt is incomplete; an incomplete
-- attempt, and the demand for a recovery, hold the reservation.
pub record IsValid (s : State) : Type 0 where
  pub attempts_valid :
      (id : String) (a : Attempt)
      → lookup id s.attempts ≡ some a
      → (e : Entry) × (lookup id s.approvals ≡ some e) × AttemptValid (length e.request.commands) a
  pub exclusive :
      (i j : String) (a b : Attempt)
      → lookup i s.attempts ≡ some a
      → lookup j s.attempts ≡ some b
      → incomplete a ≡ true
      → incomplete b ≡ true
      → i ≡ j
  pub reserved :
      (i : String) (a : Attempt)
      → lookup i s.attempts ≡ some a
      → incomplete a ≡ true
      → is_none s.reservation ≡ false
  pub fenced : s.recovery_required ≡ true → is_none s.reservation ≡ false
  pub unique : Unique s.attempts

-- One attempt is written; the approvals stay.
module _ {s : State} (id : String) (e : Entry) (a' : Attempt) (v : IsValid s)
    (approved : lookup id s.approvals ≡ some e)
    (valid : AttemptValid (length e.request.commands) a') where
  put_valid :
      (j : String) (b : Attempt)
      → lookup j (insert id a' s.attempts) ≡ some b
      → (e : Entry) × (lookup j s.approvals ≡ some e) × AttemptValid (length e.request.commands) b
  put_valid j b h = elim (lookup-insert_cases id j a' b s.attempts h) [
    | inl (p, q) ↦ rw (← p) (rw (← q) (e, approved, valid))
    | inr (_, old) ↦ v.attempts_valid j b old
  ]

  -- The first attempt while none is incomplete, since none holds a reservation.
  module _ (r : Reservation) (free : is_none s.reservation ≡ true)
      (running : s.recovery_required ≡ false) where
    only_new :
        (j : String) (b : Attempt)
        → lookup j (insert id a' s.attempts) ≡ some b
        → incomplete b ≡ true
        → id ≡ j
    only_new j b h k = elim (lookup-insert_cases id j a' b s.attempts h) [
      | inl (p, q) ↦ p
      | inr (_, old) ↦ cc (v.reserved j b old k)
    ]

    pub prepare-IsValid :
        IsValid (record s { attempts = insert id a' s.attempts; reservation = some r })
    unfolding is_none
    prepare-IsValid = record {
      attempts_valid = put_valid;
      unique = insert-Unique id a' s.attempts v.unique;
      exclusive = λ i j b d hb hd kb kd. sym (only_new i b hb kb) ∙ only_new j d hd kd;
      reserved = λ j b h k. refl;
      fenced = λ h. refl;
    }

  -- An attempt is replaced by one that is no more incomplete than it was.
  module _ (a : Attempt) (found : lookup id s.attempts ≡ some a)
      (less : incomplete a' ≡ true → incomplete a ≡ true) where
    -- The attempt of the old state that stands behind an incomplete one.
    put_source :
        (j : String) (b : Attempt)
        → lookup j (insert id a' s.attempts) ≡ some b
        → incomplete b ≡ true
        → (b' : Attempt) × (lookup j s.attempts ≡ some b') × (incomplete b' ≡ true)
    put_source j b h k = elim (lookup-insert_cases id j a' b s.attempts h) [
      | inl (p, q) ↦ (a, rw (← p) found, less (rw q k))
      | inr (_, old) ↦ (b, old, k)
    ]

    put_exclusive :
        (i j : String) (b d : Attempt)
        → lookup i (insert id a' s.attempts) ≡ some b
        → lookup j (insert id a' s.attempts) ≡ some d
        → incomplete b ≡ true
        → incomplete d ≡ true
        → i ≡ j
    put_exclusive i j b d hb hd kb kd =
        let (b', hb', kb') = put_source i b hb kb in
        let (d', hd', kd') = put_source j d hd kd in v.exclusive i j b' d' hb' hd' kb' kd'

    pub put_attempt-IsValid : IsValid (put_attempt s id a')
    put_attempt-IsValid = record {
      attempts_valid = put_valid;
      unique = insert-Unique id a' s.attempts v.unique;
      exclusive = put_exclusive;
      reserved = λ j b h k. let (b', h', k') = put_source j b h k in v.reserved j b' h' k';
      fenced = v.fenced;
    }

    -- The attempt ends and keeps the reservation for a recovery.
    pub hold-IsValid :
        is_none s.reservation ≡ false
        → IsValid (record s { attempts = insert id a' s.attempts; recovery_required = true })
    hold-IsValid held = record {
      attempts_valid = put_valid;
      unique = insert-Unique id a' s.attempts v.unique;
      exclusive = put_exclusive;
      reserved = λ j b h k. held;
      fenced = λ h. held;
    }

    -- The attempt was incomplete and ends; the reservation is free again.
    module _ (was : incomplete a ≡ true) (ended : incomplete a' ≡ false)
        (running : s.recovery_required ≡ false) where
      none_left :
          (j : String) (b : Attempt)
          → lookup j (insert id a' s.attempts) ≡ some b
          → incomplete b ≡ true
          → ⊥
      none_left j b h k = elim (lookup-insert_cases id j a' b s.attempts h) [
        | inl (p, q) ↦ cc
        | inr (other, old) ↦ ground (arith, eq_iff id j, v.exclusive id j a b found old was k)
      ]

      pub release-IsValid :
          IsValid (record s { attempts = insert id a' s.attempts; reservation = none })
      release-IsValid = record {
        attempts_valid = put_valid;
        unique = insert-Unique id a' s.attempts v.unique;
        exclusive = λ i j b d hb hd kb kd. absurd (none_left i b hb kb);
        reserved = λ j b h k. absurd (none_left j b h k);
        fenced = λ h. cc;
      }

abbrev pub OptionValid : Option State → Type 0
OptionValid none = Unit {0}
OptionValid (some s) = IsValid s

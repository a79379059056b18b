-- ===== src/Controller/Attempts.antt =====
-- What holds of every attempt in a journal's state, and that each event on an attempt keeps it: the
-- life of one attempt in core/controller/state.mjs.
use eoduksini.Controller.PostRun.{with_metering}
use eoduksini.Base.{
  ℕ, String, ◌≤◌, ◌<◌, ◌≡◌, refl, Bool, true, ◌&&◌, ◌⊎◌, Option, none, some, List, [], ◌∷◌, ◌++◌,
  length, length-append, arith, false,
}
use eoduksini.Base.Json.{Value}
use eoduksini.Base.Result.{ok}
use eoduksini.Controller.Types.{
  Outcome, succeeded, failed, recovery_required, AttemptStatus, prepared, running, ended,
  CommandResult, Measurement, Attempt, Metering,
}
use eoduksini.Controller.Contracts.{Contracts}
use eoduksini.Controller.Event.{is_none}
use eoduksini.Controller.Dispatch.{
  is_succeeded, is_failed, incomplete, last_is, all_succeeded, prepare_command, start_command,
  finish_command, may_finish, end_attempt, new_attempt,
}

-- Every result but the last succeeded.
unfoldable pub leading_succeeded : List CommandResult → Bool
unfolding is_succeeded
leading_succeeded [] = true
leading_succeeded (r ∷ []) = true
leading_succeeded (r ∷ s ∷ l) = is_succeeded r.status && leading_succeeded (s ∷ l)

-- The next command is the one that is active, if one is, and only successes came before it.
abbrev pub ActiveOk : Option ℕ → ℕ → ℕ → Bool → Type 0
ActiveOk none next count succeeded_so_far = next ≤ count
ActiveOk (some i) next count succeeded_so_far =
    (i ≡ next) × (next < count) × (succeeded_so_far ≡ true)

abbrev pub StatusOk : AttemptStatus → ℕ → Attempt → Type 0
StatusOk prepared count a = Unit {0}
StatusOk running count a = (a.active_index ≡ some a.next_index) ⊎ (0 < a.next_index)
StatusOk (ended succeeded) count a =
    (0 < count)
    × (a.next_index ≡ count)
    × (a.active_index ≡ none)
    × (all_succeeded a.command_results ≡ true)
StatusOk (ended failed) count a =
    (a.active_index ≡ none) × (last_is is_failed a.command_results ≡ true)
StatusOk (ended recovery_required) count a = Unit {0}

pub record AttemptValid (count : ℕ) (a : Attempt) : Type 0 where
  pub counted : length a.command_results ≡ a.next_index
  pub leading : leading_succeeded a.command_results ≡ true
  pub active : ActiveOk a.active_index a.next_index count (all_succeeded a.command_results)
  pub by_status : StatusOk a.status count a

all_succeeded_of_last :
    (l : List CommandResult)
    → leading_succeeded l ≡ true
    → last_is is_succeeded l ≡ true
    → all_succeeded l ≡ true
unfolding leading_succeeded last_is all_succeeded
all_succeeded_of_last [] h k = refl
all_succeeded_of_last (r ∷ []) h k = ground arith
all_succeeded_of_last (r ∷ s ∷ l) h k = ground (arith, all_succeeded_of_last (s ∷ l))

leading_succeeded-append :
    (l : List CommandResult) (r : CommandResult)
    → all_succeeded l ≡ true
    → leading_succeeded (l ++ r ∷ []) ≡ true
unfolding leading_succeeded all_succeeded
leading_succeeded-append [] r h = refl
leading_succeeded-append (q ∷ []) r h = ground arith
leading_succeeded-append (q ∷ s ∷ l) r h = ground (arith, leading_succeeded-append (s ∷ l) r)

all_succeeded_of_none : (l : List CommandResult) → length l ≡ 0 → all_succeeded l ≡ true
unfolding all_succeeded
all_succeeded_of_none [] h = refl
all_succeeded_of_none (r ∷ l) h = absurd (omega arith)

pub prepare_command-AttemptValid :
    {count : ℕ} {a a' : Attempt} (i : ℕ)
    → AttemptValid count a
    → prepare_command count a i ≡ ok a'
    → AttemptValid count a' × (incomplete a' ≡ true)
unfolding prepare_command incomplete
prepare_command-AttemptValid {count} {a} {a'} i v h =
    ground (arith, all_succeeded_of_last a.command_results, all_succeeded_of_none a.command_results)

module _ (c : Contracts) where
  pub start_command-AttemptValid :
      {count : ℕ} {a a' : Attempt} (i : ℕ) (m : Option Measurement)
      → AttemptValid count a
      → start_command c a i m ≡ ok a'
      → AttemptValid count a' × (incomplete a' ≡ true)
  unfolding start_command incomplete
  start_command-AttemptValid {count} {a} {a'} i m v h = ground arith

  pub finish_command-AttemptValid :
      {count : ℕ} {a a' : Attempt} (i : ℕ) (r : CommandResult) (m : Option Measurement)
      (l : Option (List Value))
      → AttemptValid count a
      → incomplete a ≡ true
      → finish_command c a i r m l ≡ ok a'
      → AttemptValid count a'
  unfolding finish_command incomplete
  finish_command-AttemptValid {count} {a} {a'} i r m l v u h = ground (
    arith,
    leading_succeeded-append a.command_results r,
    length-append a.command_results (r ∷ []),
  )

pub end_attempt-AttemptValid :
    {count : ℕ} {a : Attempt} (o : Outcome) (reason : String) (m : Option Metering)
    → AttemptValid count a
    → may_finish count a o ≡ true
    → AttemptValid count (end_attempt a o reason m)
unfolding may_finish is_none
end_attempt-AttemptValid {count} {a} o reason m v h = ground arith

pub new_attempt-AttemptValid :
    {count : ℕ} {d : String} {m : Option Metering} → AttemptValid count (new_attempt d m)
unfolding leading_succeeded
new_attempt-AttemptValid = record {
  counted = refl;
  leading = refl;
  active = omega arith;
  by_status = tt;
}

pub with_metering-AttemptValid :
    {count : ℕ} {a : Attempt} (m : Metering)
    → AttemptValid count a
    → AttemptValid count (with_metering a m)
with_metering-AttemptValid {count} {a} m v = ground arith

pub incomplete-ended : (a : Attempt) (o : Outcome) → a.status ≡ ended o → incomplete a ≡ false
unfolding incomplete
incomplete-ended a o h = ground arith

pub may_recover : (count : ℕ) (a : Attempt) → may_finish count a recovery_required ≡ true
unfolding may_finish
may_recover count a = refl

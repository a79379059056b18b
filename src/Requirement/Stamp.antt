-- ===== src/Requirement/Stamp.antt =====
-- RFC 3339 date-times (`normalizeTimestamp`). An instant counts milliseconds from the start of the
-- year 0; the reading and the printing of a valid date-time are the runtime's.
use eoduksini.Base.Text.{codes}
use eoduksini.Base.Result.{◌>>=◌, ◌>>◌, ok, err, check}
use eoduksini.Base.Json.{Value, str}
use eoduksini.Requirement.Check.{Checked, Done, not_a_date_time, invalid_date_time}
use eoduksini.Base.{
  ℕ, String, Bool, false, not, ◌&&◌, ◌||◌, Option, none, some, List, [], ◌∷◌, leb, ltb, length,
  if◌then◌else◌, ◌+◌, ◌*◌, ◌-◌, ◌%◌, ◌==◌,
}

pub record Clock : Type 0 where
  pub read : String → Option ℕ
  pub print : ℕ → String

is_digit : ℕ → Bool
is_digit c = leb 0x30 c && leb c 0x39

-- Two digits, and what follows.
two : List ℕ → Checked (ℕ × List ℕ)
unfolding is_digit
two (a ∷ b ∷ l) = do
  check (is_digit a && is_digit b) not_a_date_time
  ok (10 * (a - 0x30) + (b - 0x30), l)
two _ = err not_a_date_time

expect : ℕ → List ℕ → Checked (List ℕ)
expect c [] = err not_a_date_time
expect c (d ∷ l) = do check (d == c) not_a_date_time; ok l

is_leap : ℕ → Bool
is_leap y = y % 4 == 0 && (not (y % 100 == 0) || y % 400 == 0)

-- `Date.UTC` reads the years from 0 to 99 as those from 1900.
utc_year : ℕ → ℕ
utc_year y = if ltb y 100 then 1900 + y else y

days_in_month : (year month : ℕ) → ℕ
unfolding is_leap utc_year
days_in_month y m =
    if not (leb 1 m && leb m 12)
    then 0
    else if m == 2
    then (if is_leap (utc_year y) then 29 else 28)
    else if m == 4 || m == 6 || m == 9 || m == 11
    then 30
    else 31

-- How many digits stand at the start, and what follows them.
digits : List ℕ → ℕ × List ℕ
unfolding is_digit
digits [] = (0, [])
digits (c ∷ l) = let (n, rest) = digits l in if is_digit c then (n + 1, rest) else (0, c ∷ l)

-- A fraction of a second, of up to nine digits.
skip_fraction : List ℕ → Checked (List ℕ)
unfolding digits
skip_fraction [] = ok []
skip_fraction (c ∷ l) =
    if c == 0x2E
    then (let (n, rest) = digits l in check (leb 1 n && leb n 9) not_a_date_time >> ok rest)
    else ok (c ∷ l)

-- What follows: `Z` or an offset, with its hours and minutes.
zone : List ℕ → Checked (ℕ × ℕ)
unfolding two expect
zone [] = err not_a_date_time
zone (c ∷ l) = if c == 0x5A then (check (length l == 0) not_a_date_time >> ok (0, 0)) else do
  check (c == 0x2B || c == 0x2D) not_a_date_time
  (h, l) ← two l
  l ← expect 0x3A l
  (m, l) ← two l
  check (length l == 0) not_a_date_time
  ok (h, m)

-- The pattern of a date-time, then the bounds of its parts.
check_stamp : List ℕ → Done
unfolding two expect skip_fraction zone days_in_month
check_stamp l = do
  (century, l) ← two l
  (year, l) ← two l
  l ← expect 0x2D l
  (month, l) ← two l
  l ← expect 0x2D l
  (day, l) ← two l
  l ← expect 0x54 l
  (hour, l) ← two l
  l ← expect 0x3A l
  (minute, l) ← two l
  l ← expect 0x3A l
  (second, l) ← two l
  l ← skip_fraction l
  (offset_hour, offset_minute) ← zone l
  check
      (leb 1 month
        && leb month 12
        && leb 1 day
        && leb day (days_in_month (100 * century + year) month)
        && leb hour 23
        && leb minute 59
        && leb second 59
        && leb offset_hour 23
        && leb offset_minute 59)
      invalid_date_time

unfoldable pub normalize_timestamp : Clock → Option Value → Checked String
unfolding check_stamp
normalize_timestamp c (some (str s)) = do
  check_stamp (codes s)
  elim (c.read s) [ none ↦ err invalid_date_time | some t ↦ ok (c.print t) ]
normalize_timestamp c none = err not_a_date_time
normalize_timestamp c _ = err not_a_date_time

-- new Date(text).valueOf(), where a text that is no date-time is NaN: every comparison with it fails.
unfoldable pub before : Clock → String → String → Bool
before c s t = elim (c.read s) [
  | none ↦ false
  | some m ↦ elim (c.read t) [ none ↦ false | some n ↦ ltb m n ]
]

unfoldable pub at_or_after : Clock → String → String → Bool
at_or_after c s t = elim (c.read s) [
  | none ↦ false
  | some m ↦ elim (c.read t) [ none ↦ false | some n ↦ leb n m ]
]

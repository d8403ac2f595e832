-- ===== src/Pricing/Age.antt =====
-- `AgeOn` of api/internal/pricing/quote.go. Only the year, month and day of a time are read; the
-- age is an integer, since it is below zero for a birth after the race.
use mathlib.Core.Path.{subst}
use run.Base.{
  true, false, refl, ◌∙◌, ap, ℕ, ◌+◌, ◌%◌, ◌≤◌, ◌<◌, ◌≡◌, ◌⊎◌, ◌↔◌, inl, inr, Bool, not, ◌&&◌, ◌||◌,
  arith, ltb, ◌==◌, if◌then◌else◌, Bool-cases,
}
use run.Base.Int.{ℤ, pos, sub_ℕ, ◌≤ℤ◌}

pub record Date : Type 0 where
  pub year : ℕ
  pub month : ℕ
  pub day : ℕ

unfoldable pub is_leap_year : ℕ → Bool
is_leap_year y = (y % 4 == 0) && (not (y % 100 == 0) || (y % 400 == 0))

-- The month and the day on which the birthday falls in the year of the race.
unfoldable pub birthday_in : Date → ℕ → ℕ × ℕ
birthday_in birth race_year =
    if (birth.month == 2) && (birth.day == 29) && not (is_leap_year race_year)
    then (3, 1)
    else (birth.month, birth.day)

abbrev has_not_come : ℕ × ℕ → Date → Bool
has_not_come (bm, bd) race = ltb race.month bm || ((race.month == bm) && ltb race.day bd)

unfoldable pub age_on : Date → Date → ℤ
age_on birth race =
    if has_not_come (birthday_in birth race.year) race
    then sub_ℕ race.year (birth.year + 1)
    else sub_ℕ race.year birth.year

-- The order of the calendar.
abbrev pub IsOnOrBefore : Date → Date → Type 0
IsOnOrBefore a b =
    (a.year < b.year)
    ⊎ ((a.year ≡ b.year) × ((a.month < b.month) ⊎ ((a.month ≡ b.month) × (a.day ≤ b.day))))

-- Of the days of a year only 29 February may be missing: it is there in the years that 400 divides, and
-- in those that 4 divides and 100 does not.
abbrev pub has_day : (year month day : ℕ) → Bool
has_day year month day =
    not (month == 2)
    || ltb day 29
    || (year % 400 == 0)
    || ((year % 4 == 0) && not (year % 100 == 0))

-- The day on which somebody turns `n`: the day of birth in the year of birth plus `n`, or, where that
-- year does not have it, the first of the next month.
abbrev pub anniversary : Date → ℕ → Date
anniversary birth n =
    let y = birth.year + n in
    if has_day y birth.month birth.day
    then record { year = y; month = birth.month; day = birth.day }
    else record { year = y; month = birth.month + 1; day = 1 }

-- The code's day is that day.
turning_day : Date → ℕ → Date
turning_day birth n =
    let y = birth.year + n in
    let md = birthday_in birth y in record { year = y; month = md.0; day = md.1 }

is_missing : Date → ℕ → Bool
is_missing birth y = (birth.month == 2) && (birth.day == 29) && not (is_leap_year y)

is_missing-has_day :
    (birth : Date) (y : ℕ)
    → (birth.month ≡ 2 → birth.day ≤ 29)
    → is_missing birth y ≡ not (has_day y birth.month birth.day)
unfolding is_missing is_leap_year
is_missing-has_day birth y h = ground arith

anniversary-turning_day :
    (birth : Date) (n : ℕ)
    → (birth.month ≡ 2 → birth.day ≤ 29)
    → turning_day birth n ≡ anniversary birth n
unfolding turning_day birthday_in is_missing
anniversary-turning_day birth n h =
    let y = birth.year + n in
    let same = is_missing-has_day birth y h in
    elim (Bool-cases (has_day y birth.month birth.day)) [
      | inl there ↦
          let here : is_missing birth y ≡ false = same ∙ ap not there in rw there (rw here refl)
      | inr gone ↦
          let missing : is_missing birth y ≡ true = same ∙ ap not gone in
          let february : birth.month ≡ 2 = ground (arith, missing) in
          rw gone (rw missing (rw february refl))
    ]

turning_day-IsOnOrBefore :
    (birth race : Date) (n : ℕ)
    → IsOnOrBefore (turning_day birth n) race ↔ (pos n ≤ℤ age_on birth race)
unfolding age_on turning_day
turning_day-IsOnOrBefore birth race n = elim (Bool-cases (birth.year + n == race.year)) [
  | inl same ↦ let e : birth.year + n ≡ race.year = ground arith in rw e (ground arith)
  | inr differ ↦ ground arith
]

-- The age on a day is the largest number of years that the person has turned by then: `n` is at most
-- the age exactly if the n-th anniversary is on or before the day, where somebody born on 29 February
-- turns a year older on 1 March in a year without that day.
pub age_on-IsOnOrBefore :
    (birth race : Date) (n : ℕ)
    → (birth.month ≡ 2 → birth.day ≤ 29)
    → IsOnOrBefore (anniversary birth n) race ↔ (pos n ≤ℤ age_on birth race)
age_on-IsOnOrBefore birth race n h =
    subst (λ (d : Date). IsOnOrBefore d race ↔ (pos n ≤ℤ age_on birth race))
      (anniversary-turning_day birth n h) (turning_day-IsOnOrBefore birth race n)

-- ===== src/Calendar.antt =====
-- The parts of Python's `datetime` that recurrence.py calls. A `date` is its proleptic ordinal
-- (`date.toordinal()`, 1 for 0001-01-01).
use things3_orchestrator.Prelude.{
  ℕ, ◌+◌, ◌-◌, ◌*◌, ◌/◌, ◌%◌, ◌≤◌, ◌<◌, ◌≡◌, refl, Bool, ◌&&◌, ◌||◌, not, List, [], ◌∷◌, arith, ltb,
  nat_eq, true, false, if◌then◌else◌, ℤ, sub_ℕ, All, length, Bool-cases, inl, inr,
}

abbrev pub Date : Type 0
Date = ℕ

-- `date(1970, 1, 1).toordinal()` and `date.max.toordinal()`
abbrev pub epoch : ℕ
epoch = 719163

abbrev pub max_ordinal : ℕ
max_ordinal = 3652059

abbrev pub seconds_per_day : ℕ
seconds_per_day = 86400

-- `date.weekday()`, 0 for Monday
unfoldable pub weekday : Date → ℕ
weekday d = (d + 6) % 7

-- `int(datetime.combine(d, time.min, tzinfo=timezone.utc).timestamp())`
unfoldable pub timestamp : Date → ℤ
timestamp d = sub_ℕ (d * seconds_per_day) (epoch * seconds_per_day)

-- The month and the day of month, both from 1, of a day of the year counted from 0.
unfoldable pub month_day : List ℕ → ℕ → ℕ → ℕ × ℕ
month_day [] month rest = (month, rest + 1)
month_day (days ∷ later) month rest =
    if ltb rest days then (month, rest + 1) else month_day later (month + 1) (rest - days)

-- January to November; what is left falls in December
abbrev month_lengths : Bool → List ℕ
month_lengths leap =
    31 ∷ (if leap then 29 else 28) ∷ 31 ∷ 30 ∷ 31 ∷ 30 ∷ 31 ∷ 31 ∷ 30 ∷ 31 ∷ 30 ∷ []

-- `date.fromordinal(d)` without its year
month_and_day : Date → ℕ × ℕ
month_and_day d =
    let n400 = (d - 1) % 146097 in
    let n100 = n400 / 36524 in
    let n4 = n400 % 36524 / 1461 in
    let n1 = n400 % 36524 % 1461 / 365 in
    let rest = n400 % 36524 % 1461 % 365 in
    let leap = nat_eq n1 3 && (not (nat_eq n4 24) || nat_eq n100 3) in
    if nat_eq n1 4 || nat_eq n100 4 then (12, 31) else month_day (month_lengths leap) 1 rest

unfoldable pub month : Date → ℕ
unfolding month_and_day
month d = (month_and_day d).0

unfoldable pub day : Date → ℕ
unfolding month_and_day
day d = (month_and_day d).1

abbrev sum : List ℕ → ℕ
sum [] = 0
sum (x ∷ xs) = x + sum xs

month_day_bounds :
    (lens : List ℕ) (m r : ℕ)
    → All (λ l. l ≤ 31) lens
    → r < sum lens + 31
    → let (m', d) = month_day lens m r in (m ≤ m') × (m' ≤ m + length lens) × (1 ≤ d) × (d ≤ 31)
unfolding month_day
month_day_bounds [] m r h lt = omega arith
month_day_bounds (l ∷ ls) m r h lt = ground (arith, month_day_bounds ls (m + 1) (r - l) h.1)

in_year_bounds :
    (leap : Bool) (r : ℕ)
    → r < 365
    → let (m, d) = month_day (month_lengths leap) 1 r in (1 ≤ m) × (m ≤ 12) × (1 ≤ d) × (d ≤ 31)
in_year_bounds true r h = month_day_bounds (month_lengths true) 1 r (omega arith) (omega arith)
in_year_bounds false r h = month_day_bounds (month_lengths false) 1 r (omega arith) (omega arith)

-- Every date has a month from 1 to 12 and a day from 1 to 31.
pub month_and_day_bounds : (d : Date) → (1 ≤ month d) × (month d ≤ 12) × (1 ≤ day d) × (day d ≤ 31)
unfolding month day
month_and_day_bounds d =
    let n400 = (d - 1) % 146097 in
    let n100 = n400 / 36524 in
    let n4 = n400 % 36524 / 1461 in
    let n1 = n400 % 36524 % 1461 / 365 in
    let leap = nat_eq n1 3 && (not (nat_eq n4 24) || nat_eq n100 3) in
    elim (Bool-cases (nat_eq n1 4 || nat_eq n100 4)) [
      | inl last ↦ rw (last, month, day) (omega arith)
      | inr inside ↦
          rw (inside, month, day) (in_year_bounds leap (n400 % 36524 % 1461 % 365) (omega arith))
    ]

pub weekday-lt : (d : Date) → weekday d < 7
unfolding weekday
weekday-lt d = omega arith

leap_day : (month 738945 ≡ 2) × (day 738945 ≡ 29) × (weekday 738945 ≡ 3)
unfolding month day weekday month_day
leap_day = (refl, refl, refl)

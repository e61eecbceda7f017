-- ===== src/Recurrence/Offsets/Accepts.antt =====
-- Which selected dates `_validate_offsets` accepts, unit by unit.
use things3_orchestrator.Prelude.{
  Bool-cases, All, pos, negsuc, ok, ◌≤◌, ◌≡◌, refl, ◌≢◌, ◌↔◌, ◌⊎◌, inl, inr, true, false, List, [],
  ◌∷◌, arith,
}
use things3_orchestrator.Json.{JsonValue, null, int, Fields, get}
use things3_orchestrator.Calendar.{weekday, month, day}
use things3_orchestrator.Recurrence.Types.{RepeatUnit}
use things3_orchestrator.Recurrence.Offsets.{
  is_none, is_int, int_upto, int_from_minus_one, check_ordinal, monthly_or_yearly, check_offset,
  validate_offset, validate_each, validate_offsets,
}

abbrev IsWeekday : JsonValue → Type 0
IsWeekday (int (pos n)) = n ≤ 6
IsWeekday _ = ⊥

abbrev IsMonth : JsonValue → Type 0
IsMonth (int (pos n)) = n ≤ 11
IsMonth _ = ⊥

-- -1 is the last day of a month
abbrev IsDay : JsonValue → Type 0
IsDay (int (pos n)) = n ≤ 30
IsDay (int (negsuc n)) = n ≡ 0
IsDay _ = ⊥

-- a day of the month, or the nth weekday of it
abbrev DayOrNth : JsonValue → JsonValue → JsonValue → Type 0
DayOrNth day weekday ordinal =
    (IsDay day × (weekday ≡ null))
    ⊎ ((day ≡ null) × IsWeekday weekday × (check_ordinal ordinal ≡ ok tt))

-- The values at "mo", "dy", "wd" and "wdo" that a selected date of the unit has.
abbrev pub SelectedDate : RepeatUnit → JsonValue → JsonValue → JsonValue → JsonValue → Type 0
SelectedDate RepeatUnit.day month day weekday ordinal = ⊥
SelectedDate RepeatUnit.week month day weekday ordinal =
    IsWeekday weekday × (month ≡ null) × (day ≡ null) × (ordinal ≡ null)
SelectedDate RepeatUnit.month month day weekday ordinal =
    (month ≡ null) × DayOrNth day weekday ordinal
SelectedDate RepeatUnit.year month day weekday ordinal =
    IsMonth month × DayOrNth day weekday ordinal

abbrev pub IsSelectedDate : RepeatUnit → Fields → Type 0
IsSelectedDate unit o = SelectedDate unit (get "mo" o) (get "dy" o) (get "wd" o) (get "wdo" o)

is_none-null : (v : JsonValue) → is_none v ≡ true → v ≡ null
unfolding is_none
is_none-null null h = refl
is_none-null _ h = cc

int_upto-IsWeekday : (v : JsonValue) → int_upto 6 v ≡ true → IsWeekday v
unfolding int_upto
int_upto-IsWeekday (int (pos n)) h = ground arith
int_upto-IsWeekday _ h = absurd (cc)

int_upto-IsMonth : (v : JsonValue) → int_upto 11 v ≡ true → IsMonth v
unfolding int_upto
int_upto-IsMonth (int (pos n)) h = ground arith
int_upto-IsMonth _ h = absurd (cc)

int_from_minus_one-IsDay : (v : JsonValue) → int_from_minus_one 30 v ≡ true → IsDay v
unfolding int_from_minus_one int_upto
int_from_minus_one-IsDay (int (pos n)) h = ground arith
int_from_minus_one-IsDay (int (negsuc n)) h = ground arith
int_from_minus_one-IsDay _ h = absurd (cc)

is_int-some : (v : JsonValue) → is_int v ≡ true → is_none v ≡ false
unfolding is_int is_none
is_int-some (int n) h = refl
is_int-some _ h = cc

day_or_nth :
    (unit : RepeatUnit) (mo dy wd wdo : JsonValue)
    → monthly_or_yearly unit ≡ true
    → check_offset unit mo dy wd wdo ≡ ok tt
    → DayOrNth dy wd wdo
unfolding check_offset
day_or_nth unit mo dy wd wdo m h = elim (Bool-cases (is_none dy)) [
  | inl no_day ↦ inr (is_none-null dy no_day, int_upto-IsWeekday wd (ground arith), ground arith)
  | inr with_day ↦ inl (int_from_minus_one-IsDay dy (ground arith), is_none-null wd (ground arith))
]

check_offset_sound :
    (unit : RepeatUnit) (mo dy wd wdo : JsonValue)
    → unit ≢ RepeatUnit.day
    → check_offset unit mo dy wd wdo ≡ ok tt
    → SelectedDate unit mo dy wd wdo
unfolding check_offset
check_offset_sound RepeatUnit.day mo dy wd wdo daily h = absurd (daily refl)
check_offset_sound RepeatUnit.week mo dy wd wdo daily h = (
  int_upto-IsWeekday wd (ground arith),
  is_none-null mo (ground arith),
  is_none-null dy (ground arith),
  is_none-null wdo (ground arith),
)
check_offset_sound RepeatUnit.month mo dy wd wdo daily h =
    (is_none-null mo (ground arith), day_or_nth RepeatUnit.month mo dy wd wdo refl h)
check_offset_sound RepeatUnit.year mo dy wd wdo daily h =
    (int_upto-IsMonth mo (ground arith), day_or_nth RepeatUnit.year mo dy wd wdo refl h)

IsWeekday-tests :
    (v : JsonValue) → IsWeekday v → (is_int v ≡ true) × (is_none v ≡ false) × (int_upto 6 v ≡ true)
unfolding is_int is_none int_upto
IsWeekday-tests (int (pos n)) h = ground arith
IsWeekday-tests (int (negsuc n)) h = absurd h
IsWeekday-tests _ h = absurd h

IsMonth-tests : (v : JsonValue) → IsMonth v → int_upto 11 v ≡ true
unfolding int_upto
IsMonth-tests (int (pos n)) h = ground arith
IsMonth-tests _ h = absurd h

IsDay-tests : (v : JsonValue) → IsDay v → (is_none v ≡ false) × (int_from_minus_one 30 v ≡ true)
unfolding is_none int_from_minus_one int_upto
IsDay-tests (int (pos n)) h = ground arith
IsDay-tests (int (negsuc n)) h = ground arith
IsDay-tests _ h = absurd h

null-tests : (v : JsonValue) → v ≡ null → is_none v ≡ true
unfolding is_none
null-tests v h = rw h

check_offset_complete :
    (unit : RepeatUnit) (mo dy wd wdo : JsonValue)
    → SelectedDate unit mo dy wd wdo
    → check_offset unit mo dy wd wdo ≡ ok tt
unfolding check_offset
check_offset_complete RepeatUnit.day mo dy wd wdo h = absurd h
check_offset_complete RepeatUnit.week mo dy wd wdo (w, m, d, o) =
    ground (arith, IsWeekday-tests wd w, null-tests mo m, null-tests dy d, null-tests wdo o)
check_offset_complete RepeatUnit.month mo dy wd wdo (m, inl (d, w)) =
    ground (arith, null-tests mo m, IsDay-tests dy d, null-tests wd w)
check_offset_complete RepeatUnit.month mo dy wd wdo (m, inr (d, w, o)) =
    ground (arith, null-tests mo m, IsWeekday-tests wd w, null-tests dy d, o)
check_offset_complete RepeatUnit.year mo dy wd wdo (m, inl (d, w)) =
    ground (arith, IsMonth-tests mo m, IsDay-tests dy d, null-tests wd w)
check_offset_complete RepeatUnit.year mo dy wd wdo (m, inr (d, w, o)) =
    ground (arith, IsMonth-tests mo m, IsWeekday-tests wd w, null-tests dy d, o)

each_sound :
    (unit : RepeatUnit) (offsets : List Fields)
    → unit ≢ RepeatUnit.day
    → validate_each unit offsets ≡ ok tt
    → All (IsSelectedDate unit) offsets
unfolding validate_each validate_offset
each_sound unit [] daily h = tt
each_sound unit (o ∷ os) daily h =
    (check_offset_sound unit _ _ _ _ daily (ground arith), each_sound unit os daily (ground arith))

each_complete :
    (unit : RepeatUnit) (offsets : List Fields)
    → All (IsSelectedDate unit) offsets
    → validate_each unit offsets ≡ ok tt
unfolding validate_each validate_offset
each_complete unit [] h = refl
each_complete unit (o ∷ os) (h, hs) =
    rw (check_offset_complete unit _ _ _ _ h) (each_complete unit os hs)

pub validate_offsets_iff :
    (unit : RepeatUnit) (offsets : List Fields)
    → (validate_offsets unit offsets ≡ ok tt)
      ↔ ((offsets ≢ []) × (unit ≢ RepeatUnit.day) × All (IsSelectedDate unit) offsets)
unfolding validate_offsets
validate_offsets_iff unit offsets = (sound unit offsets, complete unit offsets)
  where
    sound :
        (unit : RepeatUnit) (offsets : List Fields)
        → validate_offsets unit offsets ≡ ok tt
        → (offsets ≢ []) × (unit ≢ RepeatUnit.day) × All (IsSelectedDate unit) offsets
    sound unit [] h = absurd (cc)
    sound RepeatUnit.day (o ∷ os) h = absurd (cc)
    sound unit (o ∷ os) h = ((λ e. cc), (λ e. cc), each_sound unit (o ∷ os) (λ e. cc) h)

    complete :
        (unit : RepeatUnit) (offsets : List Fields)
        → (offsets ≢ []) × (unit ≢ RepeatUnit.day) × All (IsSelectedDate unit) offsets
        → validate_offsets unit offsets ≡ ok tt
    complete unit [] h = absurd (h.0 refl)
    complete RepeatUnit.day (o ∷ os) h = absurd (h.1 refl)
    complete unit (o ∷ os) h = each_complete unit (o ∷ os) h.2

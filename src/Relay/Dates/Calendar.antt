-- ===== src/Relay/Dates/Calendar.antt =====
-- The calendar, apart from IsValidSummaryDate of src/relay/relay_manager.cpp.
use kabot.Base.{
  ℕ, ◌+◌, ◌*◌, ◌-◌, ◌%◌, Bool, false, not, ◌&&◌, ◌||◌, ◌==◌, leb, String, List, [], ◌∷◌, ◌≡◌, refl,
  arith, if◌then◌else◌, all,
}
use kabot.Relay.Dates.{codes, is_calendar_date, is_date, is_valid_summary_date}

-- The days of each month of the Gregorian calendar; there is no day in a month that is not one of the twelve.
abbrev pub days_of : ℕ → ℕ → ℕ
days_of year month =
    if month == 1
    then 31
    else if month == 2
    then (if (year % 4 == 0 && not (year % 100 == 0)) || year % 400 == 0 then 29 else 28)
    else if month == 3
    then 31
    else if month == 4
    then 30
    else if month == 5
    then 31
    else if month == 6
    then 30
    else if month == 7
    then 31
    else if month == 8
    then 31
    else if month == 9
    then 30
    else if month == 10
    then 31
    else if month == 11
    then 30
    else if month == 12
    then 31
    else 0

-- Four digits, a dash, two digits, a dash and two digits, which name a day of the calendar.
abbrev pub names_day : List ℕ → Bool
names_day (y1 ∷ y2 ∷ y3 ∷ y4 ∷ dash ∷ m1 ∷ m2 ∷ dash' ∷ d1 ∷ d2 ∷ []) =
    let year = (y1 - 48) * 1000 + (y2 - 48) * 100 + (y3 - 48) * 10 + (y4 - 48) in
    let month = (m1 - 48) * 10 + (m2 - 48) in
    let day = (d1 - 48) * 10 + (d2 - 48) in
    all (λ c. leb 48 c && leb c 57) (y1 ∷ y2 ∷ y3 ∷ y4 ∷ m1 ∷ m2 ∷ d1 ∷ d2 ∷ [])
    && dash == 45
    && dash' == 45
    && leb 1 day
    && leb day (days_of year month)
names_day _ = false

is_calendar_date-days_of :
    (year month day : ℕ)
    → is_calendar_date year month day ≡ leb 1 day && leb day (days_of year month)
unfolding is_calendar_date
is_calendar_date-days_of year month day = ground arith

is_date-names_day : (cs : List ℕ) → is_date cs ≡ names_day cs
unfolding is_date
is_date-names_day [] = refl
is_date-names_day (y1 ∷ []) = refl
is_date-names_day (y1 ∷ y2 ∷ []) = refl
is_date-names_day (y1 ∷ y2 ∷ y3 ∷ []) = refl
is_date-names_day (y1 ∷ y2 ∷ y3 ∷ y4 ∷ []) = refl
is_date-names_day (y1 ∷ y2 ∷ y3 ∷ y4 ∷ dash ∷ []) = refl
is_date-names_day (y1 ∷ y2 ∷ y3 ∷ y4 ∷ dash ∷ m1 ∷ []) = refl
is_date-names_day (y1 ∷ y2 ∷ y3 ∷ y4 ∷ dash ∷ m1 ∷ m2 ∷ []) = refl
is_date-names_day (y1 ∷ y2 ∷ y3 ∷ y4 ∷ dash ∷ m1 ∷ m2 ∷ dash' ∷ []) = refl
is_date-names_day (y1 ∷ y2 ∷ y3 ∷ y4 ∷ dash ∷ m1 ∷ m2 ∷ dash' ∷ d1 ∷ []) = refl
is_date-names_day (y1 ∷ y2 ∷ y3 ∷ y4 ∷ dash ∷ m1 ∷ m2 ∷ dash' ∷ d1 ∷ d2 ∷ []) = ground (
  arith,
  is_calendar_date-days_of ((y1 - 48) * 1000 + (y2 - 48) * 100 + (y3 - 48) * 10 + (y4 - 48))
      ((m1 - 48) * 10 + (m2 - 48)) ((d1 - 48) * 10 + (d2 - 48)),
)
is_date-names_day (y1 ∷ y2 ∷ y3 ∷ y4 ∷ dash ∷ m1 ∷ m2 ∷ dash' ∷ d1 ∷ d2 ∷ more ∷ cs) = refl

pub is_valid_summary_date-names_day :
    (date : String) → is_valid_summary_date date ≡ names_day (codes date)
unfolding is_valid_summary_date
is_valid_summary_date-names_day date = is_date-names_day (codes date)

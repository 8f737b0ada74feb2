-- ===== src/Relay/Dates.antt =====
-- IsValidSummaryDate of src/relay/relay_manager.cpp: the pattern, and the calendar.
pub mod Calendar
use Prim.Native.Char.{code}
use kabot.Base.{
  ℕ, ◌+◌, ◌-◌, ◌*◌, ◌%◌, Bool, false, not, ◌&&◌, ◌||◌, String, List, [], ◌∷◌, ◌==◌, leb,
  if◌then◌else◌,
}

-- The characters of a text, as numbers.
unfoldable pub codes : String → List ℕ
codes String.[] = []
codes (String.◌∷◌ c s) = code c ∷ codes s

abbrev pub is_digit : ℕ → Bool
is_digit c = leb 48 c && leb c 57

abbrev pub digit : ℕ → ℕ
digit c = c - 48

abbrev pub is_leap_year : ℕ → Bool
is_leap_year year = (year % 4 == 0 && not (year % 100 == 0)) || year % 400 == 0

abbrev pub days_per_month : ℕ → ℕ
days_per_month month =
    if month == 2
    then 28
    else if month == 4 || month == 6 || month == 9 || month == 11
    then 30
    else 31

unfoldable pub is_calendar_date : ℕ → ℕ → ℕ → Bool
is_calendar_date year month day =
    leb 1 month
    && leb month 12
    && leb 1 day
    && leb day (if month == 2 && is_leap_year year then 29 else days_per_month month)

unfoldable pub is_date : List ℕ → Bool
unfolding is_calendar_date
is_date (y1 ∷ y2 ∷ y3 ∷ y4 ∷ dash ∷ m1 ∷ m2 ∷ dash' ∷ d1 ∷ d2 ∷ []) =
    is_digit y1
    && is_digit y2
    && is_digit y3
    && is_digit y4
    && dash == 45
    && is_digit m1
    && is_digit m2
    && dash' == 45
    && is_digit d1
    && is_digit d2
    && is_calendar_date (digit y1 * 1000 + digit y2 * 100 + digit y3 * 10 + digit y4)
        (digit m1 * 10 + digit m2) (digit d1 * 10 + digit d2)
is_date _ = false

unfoldable pub is_valid_summary_date : String → Bool
unfolding codes is_date
is_valid_summary_date value = is_date (codes value)

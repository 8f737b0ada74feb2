-- ===== src/Cron/Schedule.antt =====
-- src/cron/cron_service.cpp: NormalizeCronExpr, the names of the schedule kinds, and
-- ComputeNextRun. The croncpp library is the parameter `cron_next`: the time in milliseconds that
-- `make_cron` and `cron_next` give for an expression and a time, or `none` where they throw.
pub mod Kinds
pub mod Next
use Prim.Native.Char.{Char, code}
use Prim.Native.String
use kabot.Base.{
  ℕ, ◌+◌, Bool, true, false, not, ◌&&◌, ◌||◌, String, Option, none, some, List, [], ◌∷◌, length,
  leb, ltb, ◌==◌, str_eq, empty, if◌then◌else◌,
}
use kabot.Base.Int.{ℤ, pos, ◌+ℤ◌, ltb_ℤ, leb_ℤ}
use kabot.Cron.Types.{CronScheduleKind, at, every, cron, CronSchedule}

-- std::isspace in the "C" locale, which stream extraction skips.
abbrev pub is_space : Char → Bool
is_space c = code c == 32 || (leb 9 (code c) && leb (code c) 13)

abbrev pub flush : String → List String → List String
flush word words = if empty word then words else word ∷ words

-- The characters up to the first space, and the words behind it.
unfoldable pub split_words : String → String × List String
split_words String.[] = ("", [])
split_words (String.◌∷◌ c s) =
    let (word, words) = split_words s in
    if is_space c then ("", flush word words) else (String.◌∷◌ c word, words)

-- The tokens that `while (stream >> token)` collects.
unfoldable pub fields : String → List String
unfolding split_words
fields s = let (word, words) = split_words s in flush word words

-- normalized.append(" ").append(field), for each field.
unfoldable pub append_fields : String → List String → String
append_fields s [] = s
append_fields s (f ∷ fs) = append_fields (String.◌++◌ s (String.◌++◌ " " f)) fs

unfoldable pub normalize_cron_expr : String → String
unfolding fields append_fields
normalize_cron_expr expr =
    if length (fields expr) == 5 then append_fields "0" (fields expr) else expr

unfoldable pub schedule_kind_to_string : CronScheduleKind → String
schedule_kind_to_string at = "at"
schedule_kind_to_string every = "every"
schedule_kind_to_string cron = "cron"

unfoldable pub schedule_kind_from_string : String → CronScheduleKind
schedule_kind_from_string value =
    if str_eq value "at" then at else if str_eq value "cron" then cron else every

next_at : Option ℤ → ℤ → Option ℤ
next_at none now_ms = none
next_at (some at_ms) now_ms = if ltb_ℤ now_ms at_ms then some at_ms else none

next_every : Option ℤ → ℤ → Option ℤ
next_every none now_ms = none
next_every (some every_ms) now_ms =
    if leb_ℤ every_ms (pos 0) then none else some (now_ms +ℤ every_ms)

module _ (cron_next : String → ℤ → Option ℤ) where
  next_for : CronScheduleKind → CronSchedule → ℤ → Option ℤ
  unfolding next_at next_every
  next_for at schedule now_ms = next_at schedule.at_ms now_ms
  next_for every schedule now_ms = next_every schedule.every_ms now_ms
  next_for cron schedule now_ms =
      if empty schedule.expr then none else cron_next (normalize_cron_expr schedule.expr) now_ms

  unfoldable pub compute_next_run : CronSchedule → ℤ → Option ℤ
  unfolding next_for
  compute_next_run schedule now_ms = next_for schedule.kind schedule now_ms

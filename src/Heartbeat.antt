-- ===== src/Heartbeat.antt =====
-- src/heartbeat/heartbeat_service.cpp: when the service wakes up, and what it does then. Times are
-- milliseconds since the epoch. The cron service and the handler act on a state `S`; the file is its text.
mod Examples
use Prim.Native.String
use text.Mathlib.Text.{starts_with}
use kabot.Base.{
  ℕ, ◌+◌, ◌-◌, ◌*◌, ◌/◌, ◌≤◌, ◌<◌, min, Bool, true, false, not, ◌&&◌, ◌||◌, String, Option, none,
  some, List, [], ◌∷◌, ◌≡◌, refl, ◌⊎◌, inl, inr, ltb, all, member, empty, arith, if◌then◌else◌,
  Bool-cases, lt→ltb,
}
use kabot.Agents.Memory.{trim, lines_of}

unfoldable pub next_sleep : ℕ → Option ℕ → ℕ → ℕ
next_sleep interval none now_ms = interval
next_sleep interval (some next_wake) now_ms =
    if ltb now_ms next_wake then min interval ((next_wake - now_ms) / 1000) else interval

abbrev pub skip_patterns : List String
skip_patterns = "- [ ]" ∷ "* [ ]" ∷ "- [x]" ∷ "* [x]" ∷ []

unfoldable pub is_skipped : String → Bool
unfolding trim
is_skipped raw =
    let line = trim raw in
    empty line || starts_with line "#" || starts_with line "<!--" || member line skip_patterns

unfoldable pub is_heartbeat_empty : String → Bool
unfolding lines_of is_skipped
is_heartbeat_empty content = empty content || all is_skipped (lines_of content)

abbrev pub heartbeat_prompt : String
heartbeat_prompt =
    "Read HEARTBEAT.md in your workspace (if it exists).\nFollow any instructions or tasks listed there.\nIf nothing needs attention, reply with just: HEARTBEAT_OK"

-- What the service is given; an empty handler is `none`.
pub record Callees (S : Type 0) : Type 0 where
  pub run_due_jobs : S → S
  pub next_wake_ms : S → Option ℕ
  pub heartbeat_file : S → String
  pub on_heartbeat : Option (String → S → S)

module _ {S : Type 0} (callees : Callees S) where
  unfoldable pub tick : S → S
  unfolding is_heartbeat_empty
  tick s =
      let s' = callees.run_due_jobs s in
      elim callees.on_heartbeat [
        | none ↦ s'
        | some handler ↦
            if is_heartbeat_empty (callees.heartbeat_file s')
            then s'
            else handler heartbeat_prompt s'
      ]

  -- One round of RunLoop that is not stopped while it sleeps: the seconds slept, and the state behind it.
  unfoldable pub round : ℕ → ℕ → S → ℕ × S
  unfolding next_sleep tick
  round interval now_ms s = (next_sleep interval (callees.next_wake_ms s) now_ms, tick s)

-- Towards a wake-up in the future the service sleeps no longer than its interval and never past the wake-up, and
-- it wakes up less than a second in front of it or after the whole interval.
pub next_sleep-bounds :
    (interval next_wake now_ms : ℕ)
    → now_ms < next_wake
    → (next_sleep interval (some next_wake) now_ms ≤ interval)
      × (now_ms + next_sleep interval (some next_wake) now_ms * 1000 ≤ next_wake)
      × ((next_sleep interval (some next_wake) now_ms ≡ interval)
          ⊎ (next_wake < now_ms + next_sleep interval (some next_wake) now_ms * 1000 + 1000))
unfolding next_sleep
next_sleep-bounds interval next_wake now_ms h =
    rw (lt→ltb now_ms next_wake h) (omega arith, omega (arith, h), closest)
  where
    closest :
        (min interval ((next_wake - now_ms) / 1000) ≡ interval)
        ⊎ (next_wake < now_ms + min interval ((next_wake - now_ms) / 1000) * 1000 + 1000)
    closest = elim (Bool-cases (ltb interval ((next_wake - now_ms) / 1000))) [
      | inl e ↦ inl (ground (arith, e))
      | inr e ↦ inr (ground (arith, e, h))
    ]

-- ===== src/Cron/Schedule/Next.antt =====
-- When a schedule fires next.
use mathlib.Core.Option.{some-injective}
use kabot.Base.{◌<◌, ◌≡◌, false, String, Option, none, some, arith, Bool-cases, inl, inr, subst}
use kabot.Base.Int.{ℤ, pos, ◌+ℤ◌, ◌<ℤ◌, leb_ℤ, pos_part, neg_part, +ℤ_parts}
use kabot.Cron.Types.{CronScheduleKind, at, every, cron, CronSchedule}
use kabot.Cron.Schedule.{compute_next_run, normalize_cron_expr, next_for, next_every}

-- The documented behaviour of croncpp: the next occurrence lies after the given time.
abbrev pub IsAfter : (String → ℤ → Option ℤ) → Type 0
IsAfter cron_next = (expr : String) (now t : ℤ) → cron_next expr now ≡ some t → now <ℤ t

positive : (p : ℤ) → leb_ℤ p (pos 0) ≡ false → neg_part p < pos_part p
positive p h = ground arith

grows : (now period : ℤ) → leb_ℤ period (pos 0) ≡ false → now <ℤ now +ℤ period
grows now period h = omega (arith, +ℤ_parts now period, positive period h)

next_every-after : (o : Option ℤ) (now t : ℤ) → next_every o now ≡ some t → now <ℤ t
unfolding next_every
next_every-after none now t h = cc
next_every-after (some period) now t h = elim (Bool-cases (leb_ℤ period (pos 0))) [
  | inl e ↦ cc (rw e at h)
  | inr e ↦ subst (λ x. now <ℤ x) (some-injective _ _ (rw e at h)) (grows now period e)
]

module _ (cron_next : String → ℤ → Option ℤ) (after : IsAfter cron_next) where
  next_for-after :
      (k : CronScheduleKind) (schedule : CronSchedule) (now t : ℤ)
      → next_for cron_next k schedule now ≡ some t
      → now <ℤ t
  unfolding next_for
  next_for-after at schedule now t h = ground arith
  next_for-after every schedule now t h = next_every-after schedule.every_ms now t h
  next_for-after cron schedule now t h =
      ground (arith, after (normalize_cron_expr schedule.expr) now t)

  -- If the expression library gives only later times, the next run of a schedule of any kind lies
  -- strictly after the given time.
  pub compute_next_run-after :
      (schedule : CronSchedule) (now t : ℤ)
      → compute_next_run cron_next schedule now ≡ some t
      → now <ℤ t
  unfolding compute_next_run
  compute_next_run-after schedule now t h = next_for-after schedule.kind schedule now t h

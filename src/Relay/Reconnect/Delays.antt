-- ===== src/Relay/Reconnect/Delays.antt =====
-- How long a worker of src/relay/relay_manager.cpp waits before it connects again.
use native.Mathlib.Nat.{pow-zero, pow-suc}
use kabot.Base.{
  ℕ, zero, suc, ◌*◌, ◌^◌, ◌≤◌, min, Bool, true, false, some, List, [], ◌∷◌, ◌≡◌, refl, ◌∙◌, ap,
  arith, All, get_elem?, replicate, Option, if◌then◌else◌,
}
use kabot.Base.Int.{ℤ, pos, ◌+ℤ◌, ◌<ℤ◌, ◌≤ℤ◌, +ℤ_parts}
use kabot.Config.Types.{RelayManagedAgentConfig, Config}
use kabot.Config.Valid.{validate_config, managed_name}
use kabot.Config.Valid.Named.{AllNamed}
use kabot.Config.Valid.Errors.{GoodManagedAgent}
use kabot.Config.Valid.Exact.{validate_config-IsValid}
use kabot.Relay.Reconnect.{max_ℤ, min_ℤ, is_int, first_delay, next_delay, waits, run}

-- The longest delay whose double is an `int`, 12 days.
abbrev pub max_doubled : ℕ
max_doubled = 1073741823

abbrev pub IsDelay : RelayManagedAgentConfig → ℤ → Type 0
IsDelay a d = (pos 0 <ℤ d) × (d ≤ℤ max_ℤ (first_delay a) a.reconnect_max_delay_ms)

-- The loop meets no undefined behaviour, and each of its waits is a delay.
abbrev pub AllDelays : RelayManagedAgentConfig → Option (List ℤ) → Type 0
AllDelays a result = (delays : List ℤ) × (result ≡ some delays) × All (IsDelay a) delays

abbrev IsShort : RelayManagedAgentConfig → Type 0
IsShort a =
    (pos 0 <ℤ a.reconnect_max_delay_ms)
    × (first_delay a ≤ℤ pos max_doubled)
    × (a.reconnect_max_delay_ms ≤ℤ pos max_doubled)

first_delay-IsDelay : (a : RelayManagedAgentConfig) → IsDelay a (first_delay a)
unfolding first_delay
first_delay-IsDelay a = ground arith

next_delay-IsDelay :
    (a : RelayManagedAgentConfig) (d : ℤ)
    → IsShort a
    → IsDelay a d
    → (e : ℤ) × (next_delay a d ≡ some e) × IsDelay a e
unfolding next_delay ◌+ℤ◌
next_delay-IsDelay a d (positive, first, longest) (above, below) = (
  min_ℤ a.reconnect_max_delay_ms (d +ℤ d),
  rw (next_delay, fits) refl,
  ground (arith, +ℤ_parts d d),
)
  where
    fits : is_int (d +ℤ d) ≡ true
    fits = ground (arith, +ℤ_parts d d)

waits-cons :
    (a : RelayManagedAgentConfig) (d e : ℤ) (connected : Bool) (rounds : List Bool)
    (delays : List ℤ)
    → next_delay a (if connected then first_delay a else d) ≡ some e
    → waits a e rounds ≡ some delays
    → waits a d (connected ∷ rounds) ≡ some ((if connected then first_delay a else d) ∷ delays)
unfolding waits first_delay
waits-cons a d e connected rounds delays n w = rw (waits, n, w) refl

waits-AllDelays :
    (a : RelayManagedAgentConfig) (d : ℤ) (rounds : List Bool)
    → IsShort a
    → IsDelay a d
    → AllDelays a (waits a d rounds)
unfolding waits
waits-AllDelays a d [] h k = ([], refl, tt)
waits-AllDelays a d (connected ∷ rounds) h k =
    let waited : IsDelay a (if connected then first_delay a else d) = either connected in
    let (e, n, l) = next_delay-IsDelay a (if connected then first_delay a else d) h waited in
    let (delays, w, all) = waits-AllDelays a e rounds h l in
    (
      (if connected then first_delay a else d) ∷ delays,
      waits-cons a d e connected rounds delays n w,
      (waited, all),
    )
  where
    either : (b : Bool) → IsDelay a (if b then first_delay a else d)
    either true = first_delay-IsDelay a
    either false = k

pub run-AllDelays :
    (a : RelayManagedAgentConfig) (rounds : List Bool) → IsShort a → AllDelays a (run a rounds)
unfolding run
run-AllDelays a rounds h = waits-AllDelays a (first_delay a) rounds h (first_delay-IsDelay a)

shortened :
    (a : RelayManagedAgentConfig)
    → pos 0 <ℤ a.reconnect_initial_delay_ms
    → a.reconnect_initial_delay_ms ≤ℤ a.reconnect_max_delay_ms
    → a.reconnect_max_delay_ms ≤ℤ pos max_doubled
    → IsShort a
unfolding first_delay
shortened a initial longest h = (omega (arith, initial, longest), ground arith, h)

good_delays :
    (config : Config) (agents : List RelayManagedAgentConfig) (rounds : List Bool)
    → AllNamed managed_name (GoodManagedAgent config) agents
    → All (λ a. a.reconnect_max_delay_ms ≤ℤ pos max_doubled) agents
    → All (λ a. AllDelays a (run a rounds)) agents
good_delays config [] rounds h k = tt
good_delays config (a ∷ agents) rounds (named, only, (identity, connection), rest) (k, ks) =
    let (slash, port, heartbeat, initial, longest, scheme) = connection in
    (
      run-AllDelays a rounds (shortened a initial longest k),
      good_delays config agents rounds rest ks,
    )

-- Under settings that ValidateConfig passes, with no longest delay above 1073741823 ms, no worker ever connects again
-- without a wait, none waits for longer than its first or its longest delay, and no `int` overflows, however its
-- connections succeed and fail.
pub validate_config-delays :
    (config : Config) (rounds : List Bool)
    → validate_config config ≡ []
    → All (λ a. a.reconnect_max_delay_ms ≤ℤ pos max_doubled) config.relay.managed_agents
    → All (λ a. AllDelays a (run a rounds)) config.relay.managed_agents
validate_config-delays config rounds h =
    good_delays config config.relay.managed_agents rounds
      ((validate_config-IsValid config).0 h).managed

doubled :
    (a : RelayManagedAgentConfig) (m d : ℕ)
    → a.reconnect_max_delay_ms ≡ pos m
    → m ≤ max_doubled
    → next_delay a (pos (min m d)) ≡ some (pos (min m (d * 2)))
unfolding next_delay ◌+ℤ◌
doubled a m d h k = ground (arith, h)

waits-failures :
    (a : RelayManagedAgentConfig) (m d n : ℕ)
    → a.reconnect_max_delay_ms ≡ pos m
    → m ≤ max_doubled
    → (delays : List ℤ) × (waits a (pos (min m d)) (replicate (suc n) false) ≡ some delays)
      × (get_elem? delays n ≡ some (pos (min m (d * 2 ^ n))))
unfolding waits
waits-failures a m d zero h k = (
  pos (min m d) ∷ [],
  waits-cons a (pos (min m d)) (pos (min m (d * 2))) false [] [] (doubled a m d h k) refl,
  ap (λ k. some (pos (min m k))) (omega (arith, pow-zero 2)),
)
waits-failures a m d (suc n) h k =
    let (delays, w, last) = waits-failures a m (d * 2) n h k in
    (
      pos (min m d) ∷ delays,
      waits-cons a (pos (min m d)) (pos (min m (d * 2))) false (replicate (suc n) false) delays
          (doubled a m d h k) w,
      last ∙ ap (λ k. some (pos (min m k))) (rw (pow-suc 2 n) (omega arith)),
    )

-- If no connection succeeds, the first delay, which is at least 100 ms, is at most the longest delay, and that is at most
-- 1073741823 ms, then the wait behind each round is the first delay, doubled for each round before it, and at most the
-- longest delay.
pub run-failures :
    (a : RelayManagedAgentConfig) (m f n : ℕ)
    → a.reconnect_max_delay_ms ≡ pos m
    → first_delay a ≡ pos f
    → f ≤ m
    → m ≤ max_doubled
    → (delays : List ℤ) × (run a (replicate (suc n) false) ≡ some delays)
      × (get_elem? delays n ≡ some (pos (min m (f * 2 ^ n))))
unfolding run
run-failures a m f n h e le k =
    let (delays, w, last) = waits-failures a m f n h k in
    (
      delays,
      ap (λ z. waits a z (replicate (suc n) false)) (e ∙ ap pos {y = min m f} (omega (arith, le)))
          ∙ w,
      last,
    )

-- ===== src/Relay/Reconnect.antt =====
-- The loop of a worker in src/relay/relay_manager.cpp that connects again: Run, with the milliseconds that it waits behind
-- each round. A round says whether Connect succeeded before the connection was lost. `none` is undefined behaviour: a
-- doubled delay that is no `int`.
pub mod Delays
mod Examples
use kabot.Base.{Bool, true, false, ◌&&◌, Option, none, some, List, [], ◌∷◌, if◌then◌else◌}
use kabot.Base.Int.{ℤ, pos, negsuc, ◌+ℤ◌, ltb_ℤ, leb_ℤ}
use kabot.Config.Types.{RelayManagedAgentConfig}

-- std::max and std::min.
abbrev pub max_ℤ : ℤ → ℤ → ℤ
max_ℤ a b = if ltb_ℤ a b then b else a

abbrev pub min_ℤ : ℤ → ℤ → ℤ
min_ℤ a b = if ltb_ℤ b a then b else a

-- The numbers that an `int` of 32 bits holds.
abbrev pub is_int : ℤ → Bool
is_int n = leb_ℤ (negsuc 2147483647) n && leb_ℤ n (pos 2147483647)

unfoldable pub first_delay : RelayManagedAgentConfig → ℤ
first_delay config = max_ℤ (pos 100) config.reconnect_initial_delay_ms

unfoldable pub next_delay : RelayManagedAgentConfig → ℤ → Option ℤ
unfolding ◌+ℤ◌
next_delay config delay =
    let doubled : ℤ = delay +ℤ delay in
    if is_int doubled then some (min_ℤ config.reconnect_max_delay_ms doubled) else none

abbrev pub put_front : ℤ → Option (List ℤ) → Option (List ℤ)
put_front delay none = none
put_front delay (some delays) = some (delay ∷ delays)

unfoldable pub waits : RelayManagedAgentConfig → ℤ → List Bool → Option (List ℤ)
unfolding first_delay next_delay
waits config delay [] = some []
waits config delay (connected ∷ rounds) =
    let waited : ℤ = if connected then first_delay config else delay in
    elim (next_delay config waited) [
      | none ↦ none
      | some next ↦ put_front waited (waits config next rounds)
    ]

unfoldable pub run : RelayManagedAgentConfig → List Bool → Option (List ℤ)
unfolding waits
run config rounds = waits config (first_delay config) rounds

-- ===== src/Agents/Memory/Ends.antt =====
-- The loops of StripMemoryBlock end, and what they leave.
use Prim.Native.Char.{Char}
use Prim.Native.String.{count}
use kabot.Base.{◌<◌, String, Option, some, ◌≡◌}

-- A round that goes on makes the text shorter.
abbrev Shortens : (String → Option String) → Type 0
Shortens round = (s shorter : String) → round s ≡ some shorter → count shorter < count s

abbrev open_prefix : String
open_prefix = "<kabot_memory"

abbrev close_prefix : String
close_prefix = "</kabot_memory"

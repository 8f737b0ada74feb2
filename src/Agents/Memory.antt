-- ===== src/Agents/Memory.antt =====
-- The memory block of an agent's reply, in src/agent/agent_loop.cpp: ExtractMemoryBlock,
-- StripMemoryBlock, NormalizeMemoryLines and the entry that AppendMemoryEntry writes. `find` with the
-- two pieces around the match is a split, and std::tolower changes one byte into one byte, so a
-- search in the lowered text is a split that lowers each character. A loop that erases pieces has as
-- much fuel as the text has characters, since each round erases at least one.
pub mod Ends
mod Examples
use Prim.Native.Char.{Char, code}
use Prim.Native.String
use Prim.Native.String.{count}
use kabot.Base.{
  ℕ, zero, suc, Bool, true, false, not, ◌&&◌, String, Option, none, some, List, [], ◌∷◌, ◌==◌,
  empty, if◌then◌else◌,
}
use kabot.Bus.{◌<+>◌}
use kabot.Cron.Schedule.{is_space}
use kabot.Tasks.Questions.{lower_char}

-- The text behind a prefix, where `same` compares a character with one of the prefix.
unfoldable pub behind_prefix : (Char → Char → Bool) → String → String → Option String
behind_prefix same String.[] s = some s
behind_prefix same (String.◌∷◌ p prefix) String.[] = none
behind_prefix same (String.◌∷◌ p prefix) (String.◌∷◌ c s) =
    let rest = behind_prefix same prefix s in if same c p then rest else none

abbrev pub before_cons : Char → Option (String × String) → Option (String × String)
before_cons c none = none
before_cons c (some (before, rest)) = some (String.◌∷◌ c before, rest)

-- The texts in front of the first occurrence of a tag and behind it.
unfoldable pub split_at : (Char → Char → Bool) → String → String → Option (String × String)
split_at same tag String.[] = none
split_at same tag (String.◌∷◌ c s) =
    let later = before_cons c (split_at same tag s) in
    elim (behind_prefix same tag (String.◌∷◌ c s)) [ some rest ↦ some ("", rest) | none ↦ later ]

abbrev pub exact : Char → Char → Bool
exact c p = code c == code p

abbrev pub lowered : Char → Char → Bool
lowered c p = code (lower_char c) == code p

unfoldable pub trim_front : String → String
trim_front String.[] = ""
trim_front (String.◌∷◌ c s) = let rest = trim_front s in if is_space c then rest else String.◌∷◌ c s

unfoldable pub trim_back : String → String
trim_back String.[] = ""
trim_back (String.◌∷◌ c s) =
    let rest = trim_back s in if is_space c && empty rest then "" else String.◌∷◌ c rest

unfoldable pub trim : String → String
unfolding trim_front trim_back
trim s = trim_back (trim_front s)

unfoldable pub extract_memory_block : String → String
unfolding split_at trim
extract_memory_block content = elim (split_at exact "<kabot_memory>" content) [
  | none ↦ ""
  | some (before, rest) ↦ elim (split_at exact "</kabot_memory>" rest) [
    | none ↦ ""
    | some (raw, behind) ↦ trim raw
  ]
]

-- A round of the first loop, `none` where it stops.
unfoldable pub erase_block : String → Option String
unfolding split_at
erase_block s = elim (split_at lowered "<kabot_memory" s) [
  | none ↦ none
  | some (before, rest) ↦ elim (split_at exact ">" rest) [
    | none ↦ some (before <+> rest)
    | some (attributes, body) ↦ elim (split_at lowered "</kabot_memory>" body) [
      | none ↦ some (before <+> body)
      | some (memory, behind) ↦ some (before <+> behind)
    ]
  ]
]

-- A round of the second loop.
unfoldable pub erase_close : String → Option String
unfolding split_at
erase_close s = elim (split_at lowered "</kabot_memory" s) [
  | none ↦ none
  | some (before, rest) ↦ elim (split_at exact ">" rest) [
    | none ↦ some (before <+> rest)
    | some (attributes, behind) ↦ some (before <+> behind)
  ]
]

-- A round of the third and of the fourth loop.
unfoldable pub erase_tag : String → String → Option String
unfolding split_at
erase_tag tag s = elim (split_at lowered tag s) [
  | none ↦ none
  | some (before, behind) ↦ some (before <+> behind)
]

-- `while (true)`; `none` if the fuel runs out.
unfoldable pub erase_all : (String → Option String) → ℕ → String → Option String
erase_all round zero s = elim (round s) [ none ↦ some s | some shorter ↦ none ]
erase_all round (suc fuel) s = elim (round s) [
  | none ↦ some s
  | some shorter ↦ erase_all round fuel shorter
]

infixl 5 ◌>>=◌
abbrev pub ◌>>=◌ {ℓ κ} : {A : Type ℓ} {B : Type κ} → Option A → (A → Option B) → Option B
none >>= f = none
some a >>= f = f a

unfoldable pub strip_tags : String → Option String
unfolding erase_all erase_block erase_close erase_tag
strip_tags content = do
  a ← erase_all erase_block (count content) content
  b ← erase_all erase_close (count a) a
  c ← erase_all (erase_tag "<kabot_memory>") (count b) b
  erase_all (erase_tag "</kabot_memory>") (count c) c

unfoldable pub strip_memory_block : String → Option String
unfolding strip_tags trim
strip_memory_block content = do stripped ← strip_tags content; some (trim stripped)

abbrev pub onto_line : Char → List String → List String
onto_line c [] = String.◌∷◌ c "" ∷ []
onto_line c (line ∷ lines) = String.◌∷◌ c line ∷ lines

-- The lines that std::getline reads.
unfoldable pub lines_of : String → List String
lines_of String.[] = []
lines_of (String.◌∷◌ c s) =
    let rest = lines_of s in if code c == 10 then "" ∷ rest else onto_line c rest

abbrev pub without_bullet : String → String
without_bullet line = elim (behind_prefix exact "- " line) [ none ↦ line | some rest ↦ trim rest ]

abbrev pub line_and : String → List String → List String
line_and line lines = if empty line then lines else line ∷ lines

unfoldable pub normalize_lines : List String → List String
unfolding behind_prefix trim
normalize_lines [] = []
normalize_lines (line ∷ lines) =
    line_and (if empty (trim line) then "" else without_bullet (trim line)) (normalize_lines lines)

unfoldable pub normalize_memory_lines : String → List String
unfolding lines_of normalize_lines
normalize_memory_lines block = normalize_lines (lines_of block)

abbrev pub entry_lines : String → List String → String
entry_lines session_key [] = ""
entry_lines session_key (line ∷ lines) =
    "- [" <+> session_key <+> "] " <+> line <+> "\n" <+> entry_lines session_key lines

-- What AppendMemoryEntry appends to the memory of the day, if anything.
unfoldable pub memory_entry : String → String → Option String
unfolding normalize_memory_lines
memory_entry session_key memory_block =
    if empty memory_block then none else elim (normalize_memory_lines memory_block) [
      | [] ↦ none
      | line ∷ lines ↦ some (entry_lines session_key (line ∷ lines))
    ]

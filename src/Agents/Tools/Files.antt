-- ===== src/Agents/Tools/Files.antt =====
-- WriteFileTool and EditFileTool of src/agent/tools/filesystem.cpp. The files are texts by their paths; a
-- path that is not among them cannot be read, and `writable` says which can be opened for writing.
use Prim.Native.String.{len, slice, find}
use text.Mathlib.TextFind.{find_cases}
use text.Mathlib.TextPositions.{slice-append_left, slice-append_right, len-append}
use text.Mathlib.TextLemmas.{append_assoc}
use kabot.Base.{
  ℕ, suc, ◌≤◌, ◌+◌, Bool, true, false, String, Option, none, some, ◌≡◌, refl, sym, ap, ◌∙◌, inl,
  inr, arith, find?, empty, ◌⊎◌, if◌then◌else◌,
}
use kabot.Base.Dict.{Dict, lookup, insert}
use kabot.Bus.{◌<+>◌}
use kabot.Agents.Tools.SendMessage.{get_param}

unfoldable pub write_file : (String → Bool) → Dict String → Dict String → Dict String × String
write_file writable params files =
    let path = get_param params "path" in
    if empty path
    then (files, "Error: path is required")
    else if writable path
    then (insert path (get_param params "content") files, "OK")
    else (files, "Error: failed to open file")

-- The content with the first occurrence replaced, if there is one.
unfoldable pub replaced : String → String → String → Option String
replaced content old_str new_str = elim (find? content old_str) [
  | none ↦ none
  | some pos ↦
      some (slice content 0 pos <+> new_str <+> slice content (pos + len old_str) (len content))
]

unfoldable pub edit_file : (String → Bool) → Dict String → Dict String → Dict String × String
unfolding replaced
edit_file writable params files =
    let path = get_param params "path" in
    if empty path then (files, "Error: path is required") else elim (lookup path files) [
      | none ↦ (files, "Error: failed to open file")
      | some content ↦
          elim (replaced content (get_param params "old_string") (get_param params "new_string")) [
            | none ↦ (files, "Error: old_string not found")
            | some edited ↦
                if writable path
                then (insert path edited files, "OK")
                else (files, "Error: failed to write file")
          ]
    ]

find?-found :
    (content old_str : String) (k : ℕ)
    → find content old_str ≡ k
    → k ≤ len content
    → find? content old_str ≡ some k
find?-found content old_str k e h = ground (arith, e, h)

find?-missing :
    (content old_str : String)
    → find content old_str ≡ suc (len content)
    → find? content old_str ≡ none
find?-missing content old_str e = ground (arith, e)

behind :
    (u old_str v : String)
    → slice (u <+> old_str <+> v) (len u + len old_str) (len (u <+> old_str <+> v)) ≡ v
behind u old_str v =
    let joined : (u <+> old_str) <+> v ≡ u <+> old_str <+> v = append_assoc u old_str v in
    let size : len u + len old_str ≡ len (u <+> old_str) = sym (len-append u old_str) in
    ap (λ k. slice (u <+> old_str <+> v) k (len (u <+> old_str <+> v))) size
    ∙ ap (λ w. slice w (len (u <+> old_str)) (len w)) (sym joined)
    ∙ ap (λ k. slice ((u <+> old_str) <+> v) (len (u <+> old_str)) k) (len-append (u <+> old_str) v)
    ∙ slice-append_right (u <+> old_str) v

around :
    (u old_str v new_str : String)
    → slice (u <+> old_str <+> v) 0 (len u)
        <+> new_str
        <+> slice (u <+> old_str <+> v) (len u + len old_str) (len (u <+> old_str <+> v))
      ≡ u <+> new_str <+> v
around u old_str v new_str = rw (slice-append_left u (old_str <+> v), behind u old_str v) refl

-- The first occurrence is replaced, and the text in front of it and behind it stays.
replaced-parts :
    (content old_str new_str : String)
    → ((find? content old_str ≡ none) × (replaced content old_str new_str ≡ none))
      ⊎ ((u : String) × (v : String) × (content ≡ u <+> old_str <+> v)
          × (find? content old_str ≡ some (len u))
          × (replaced content old_str new_str ≡ some (u <+> new_str <+> v)))
unfolding replaced
replaced-parts content old_str new_str = elim (find_cases content old_str) [
  | inr miss ↦
      inl (find?-missing content old_str miss, missing (find?-missing content old_str miss))
  | inl (u, v, split, at) ↦
      let first : find? content old_str ≡ some (len u) =
        find?-found content old_str (len u) at (within u v split) in
      inr (
        u,
        v,
        split,
        first,
        found first
            ∙ ap some (
                ap (λ w. slice w 0 (len u) <+> new_str <+> slice w (len u + len old_str) (len w))
                  split
                ∙ around u old_str v new_str),
      )
]
  where
    missing : find? content old_str ≡ none → replaced content old_str new_str ≡ none
    missing f = rw (replaced, f) refl

    found :
        {k : ℕ}
        → find? content old_str ≡ some k
        → replaced content old_str new_str
          ≡ some (slice content 0 k <+> new_str <+> slice content (k + len old_str) (len content))
    found f = rw (replaced, f) refl

    within : (u v : String) → content ≡ u <+> old_str <+> v → len u ≤ len content
    within u v split = ground (arith, ap len split, len-append u (old_str <+> v))

-- An edit whose old text is in the file replaces its first occurrence, in that file and in no other; an
-- edit whose old text is not there is refused, with every file as before. The file has to be one that
-- can be read and written.
pub edit_file-replaced :
    (writable : String → Bool)
    → (params : Dict String) → (files : Dict String) → (content : String)
    → empty (get_param params "path") ≡ false
    → lookup (get_param params "path") files ≡ some content
    → writable (get_param params "path") ≡ true
    → ((find? content (get_param params "old_string") ≡ none)
        × (edit_file writable params files ≡ (files, "Error: old_string not found")))
      ⊎ ((u : String) × (v : String) × (content ≡ u <+> get_param params "old_string" <+> v)
          × (find? content (get_param params "old_string") ≡ some (len u))
          × (edit_file writable params files ≡ (
            insert (get_param params "path") (u <+> get_param params "new_string" <+> v) files,
            "OK",
          )))
unfolding edit_file
edit_file-replaced writable params files content named readable can_write =
    elim (replaced-parts content old_str (get_param params "new_string")) [
      | inl (miss, none_replaced) ↦ inl (miss, rw (edit_file, named, readable, none_replaced) refl)
      | inr (u, v, split, at, edited) ↦
          inr (u, v, split, at, rw (edit_file, named, readable, edited, can_write) refl)
    ]
  where
    old_str : String
    old_str = get_param params "old_string"

-- ===== src/Agents/Planner/Count.antt =====
-- How often an index stands in a list, and lists of indices without repetition.
use native.Mathlib.Decide.{dec_lt}
use kabot.Base.{
  ℕ, zero, suc, ◌+◌, ◌≤◌, ◌<◌, ◌≡◌, refl, not, List, [], ◌∷◌, ◌++◌, ◌==◌, length, keep,
  if◌then◌else◌, arith, ltb,
}

abbrev pub count : ℕ → List ℕ → ℕ
count v [] = 0
count v (x ∷ xs) = (if x == v then 1 else 0) + count v xs

pub count-append : (v : ℕ) (xs ys : List ℕ) → count v (xs ++ ys) ≡ count v xs + count v ys
count-append v [] ys = omega arith
count-append v (x ∷ xs) ys = omega (arith, count-append v xs ys)

without : ℕ → List ℕ → List ℕ
without m xs = keep (λ x. not (x == m)) xs

length-without : (m : ℕ) (xs : List ℕ) → length xs ≡ count m xs + length (without m xs)
unfolding without
length-without m [] = omega arith
length-without m (x ∷ xs) = ground (arith, length-without m xs)

count-without :
    (m v : ℕ) (xs : List ℕ) → count v (without m xs) ≡ (if v == m then 0 else count v xs)
unfolding without
count-without m v [] = ground arith
count-without m v (x ∷ xs) = ground (arith, count-without m v xs)

abbrev pub below : ℕ → ℕ → ℕ
below n v = if ltb v n then 1 else 0

no_counts : (xs : List ℕ) → ((v : ℕ) → count v xs ≤ 0) → length xs ≡ 0
no_counts [] h = refl
no_counts (x ∷ xs) h = absurd (ground (arith, h x))

-- Distinct indices below `n` are at most `n`.
pub length_le : (n : ℕ) (xs : List ℕ) → ((v : ℕ) → count v xs ≤ below n v) → length xs ≤ n
length_le zero xs h = omega (arith, no_counts xs (λ v. ground (arith, h v)))
length_le (suc n) xs h = ground (
  arith,
  length-without n xs,
  h n,
  length_le n (without n xs) (λ v. ground (arith, h v, count-without n v xs)),
)

-- If there are `n` of them, each index below `n` is there.
pub all_counted :
    (n : ℕ) (xs : List ℕ)
    → ((v : ℕ) → count v xs ≤ below n v)
    → length xs ≡ n
    → (v : ℕ) → v < n
    → count v xs ≡ 1
all_counted zero xs h e v lt = absurd (omega arith)
all_counted (suc n) xs h e v lt = elim (dec_lt v n) [
  | yes p ↦ ground (
    arith,
    count-without n v xs,
    all_counted n (without n xs) smaller (omega (arith, counts)) v p,
  )
  | no p ↦ let same : v ≡ n = omega arith in rw same (omega (arith, counts))
]
  where
    smaller : (w : ℕ) → count w (without n xs) ≤ below n w
    smaller w = ground (arith, h w, count-without n w xs)

    counts : (count n xs ≡ 1) × (length (without n xs) ≡ n)
    counts = ground (arith, e, h n, length-without n xs, length_le n (without n xs) smaller)

-- A list that names every index below `n` has at least `n` of them.
pub le_length : (n : ℕ) (xs : List ℕ) → ((v : ℕ) → v < n → 0 < count v xs) → n ≤ length xs
le_length zero xs h = omega arith
le_length (suc n) xs h = omega (
  arith,
  length-without n xs,
  h n (omega arith),
  le_length n (without n xs) (λ v lt. ground (arith, h v (omega arith), count-without n v xs)),
)

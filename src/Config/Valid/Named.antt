-- ===== src/Config/Valid/Named.antt =====
-- The loops of ValidateConfig in src/config/config_loader.cpp over parts that have names.
use kabot.Base.{
  false, String, List, [], ◌∷◌, ◌++◌, ◌≡◌, refl, subst, member, any, str_eq, eq_iff, empty, arith,
  if◌then◌else◌,
}
use kabot.Config.Valid.{validate_each}

-- Every part has a name that no later part has, and is good.
abbrev pub AllNamed {ℓ κ} : {A : Type ℓ} → (A → String) → (A → Type κ) → List A → Type κ
AllNamed name Good [] = Unit
AllNamed name Good (x ∷ xs) =
    (empty (name x) ≡ false)
    × (any (λ y. str_eq (name y) (name x)) xs ≡ false)
    × Good x
    × AllNamed name Good xs

pub append-none {ℓ} : {A : Type ℓ} (xs ys : List A) → xs ++ ys ≡ [] → (xs ≡ []) × (ys ≡ [])
append-none [] ys h = (refl, h)
append-none (x ∷ xs) ys h = cc

module _ {A : Type 0} (name : A → String) where
  -- No part has a name that was seen.
  abbrev pub Fresh : List String → List A → Type 0
  Fresh seen [] = Unit
  Fresh seen (x ∷ xs) = (member (name x) seen ≡ false) × Fresh seen xs

  pub Fresh-none : (xs : List A) → Fresh [] xs
  Fresh-none [] = tt
  Fresh-none (x ∷ xs) = (refl, Fresh-none xs)

  Fresh-more :
      (s : String) (seen : List String) (xs : List A)
      → Fresh seen xs
      → any (λ y. str_eq (name y) s) xs ≡ false
      → Fresh (s ∷ seen) xs
  Fresh-more s seen [] f h = tt
  Fresh-more s seen (x ∷ xs) f h =
      ground (arith, Fresh-more s seen xs, eq_iff s (name x), eq_iff (name x) s)

  Fresh-fewer :
      (s : String) (seen : List String) (xs : List A)
      → Fresh (s ∷ seen) xs
      → Fresh seen xs × (any (λ y. str_eq (name y) s) xs ≡ false)
  Fresh-fewer s seen [] f = (tt, refl)
  Fresh-fewer s seen (x ∷ xs) f =
      ground (arith, Fresh-fewer s seen xs, eq_iff s (name x), eq_iff (name x) s)

module _ {A : Type 0} (name : A → String) (errors : List String → A → List String)
    (Good : A → Type 0)
    (silent : (seen : List String) (x : A)
      → errors seen x ≡ []
      → (member (name x) seen ≡ false) × (empty (name x) ≡ false) × Good x)
    (passes : (seen : List String) (x : A)
      → member (name x) seen ≡ false
      → empty (name x) ≡ false
      → Good x
      → errors seen x ≡ []) where
  pub validate_each-AllNamed :
      (seen : List String) (xs : List A)
      → validate_each name errors seen xs ≡ []
      → Fresh name seen xs × AllNamed name Good xs
  unfolding validate_each
  validate_each-AllNamed seen [] h = (tt, tt)
  validate_each-AllNamed seen (x ∷ xs) h =
      let (here, later) =
        append-none (errors seen x)
          (validate_each name errors (if empty (name x) then seen else name x ∷ seen) xs) h in
      let (new, named, good) = silent seen x here in
      let (fresh, rest) =
        validate_each-AllNamed (if empty (name x) then seen else name x ∷ seen) xs later in
      let (fewer, only) =
        Fresh-fewer name (name x) seen xs
          (subst (λ b. Fresh name (if b then seen else name x ∷ seen) xs) named fresh) in
      ((new, fewer), (named, only, good, rest))

  pub AllNamed-validate_each :
      (seen : List String) (xs : List A)
      → Fresh name seen xs
      → AllNamed name Good xs
      → validate_each name errors seen xs ≡ []
  unfolding validate_each
  AllNamed-validate_each seen [] f h = refl
  AllNamed-validate_each seen (x ∷ xs) (new, fresh) (named, only, good, rest) =
      rw (passes seen x new named good, named)
        (AllNamed-validate_each (name x ∷ seen) xs (Fresh-more name (name x) seen xs fresh only)
          rest)

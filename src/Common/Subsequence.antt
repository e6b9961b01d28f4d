-- ===== src/Common/Subsequence.antt =====
-- One list within another, in order and with gaps.
use mathlib.Core.Path.{◌≡◌, refl}
use mathlib.Core.Logic.{◌⊎◌, inl, inr}
use mathlib.Core.List.{List, [], ◌∷◌, ◌++◌}

module _ {A : Type 0} where
  abbrev pub IsWithin : List A → List A → Type 0
  IsWithin [] ys = Unit
  IsWithin (x ∷ xs) [] = ⊥
  IsWithin (x ∷ xs) (y ∷ ys) = ((x ≡ y) × IsWithin xs ys) ⊎ IsWithin (x ∷ xs) ys

  pub IsWithin-skip : (y : A) (xs ys : List A) → IsWithin xs ys → IsWithin xs (y ∷ ys)
  IsWithin-skip y [] ys h = tt
  IsWithin-skip y (x ∷ xs) ys h = inr h

  pub IsWithin-refl : (xs : List A) → IsWithin xs xs
  IsWithin-refl [] = tt
  IsWithin-refl (x ∷ xs) = inl (refl, IsWithin-refl xs)

  IsWithin-before : (ys xs zs : List A) → IsWithin xs zs → IsWithin xs (ys ++ zs)
  IsWithin-before [] xs zs h = h
  IsWithin-before (y ∷ ys) xs zs h = IsWithin-skip y xs (ys ++ zs) (IsWithin-before ys xs zs h)

  -- more at the end of both
  pub IsWithin-append : (xs ys zs : List A) → IsWithin xs ys → IsWithin (xs ++ zs) (ys ++ zs)
  IsWithin-append [] ys zs h = IsWithin-before ys zs zs (IsWithin-refl zs)
  IsWithin-append (x ∷ xs) [] zs h = elim h [ ]
  IsWithin-append (x ∷ xs) (y ∷ ys) zs (inl (e, h)) = inl (e, IsWithin-append xs ys zs h)
  IsWithin-append (x ∷ xs) (y ∷ ys) zs (inr h) = inr (IsWithin-append (x ∷ xs) ys zs h)

  -- more at the end of the longer one
  pub IsWithin-longer : (xs ys zs : List A) → IsWithin xs ys → IsWithin xs (ys ++ zs)
  IsWithin-longer [] ys zs h = tt
  IsWithin-longer (x ∷ xs) [] zs h = elim h [ ]
  IsWithin-longer (x ∷ xs) (y ∷ ys) zs (inl (e, h)) = inl (e, IsWithin-longer xs ys zs h)
  IsWithin-longer (x ∷ xs) (y ∷ ys) zs (inr h) = inr (IsWithin-longer (x ∷ xs) ys zs h)

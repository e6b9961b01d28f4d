-- ===== src/Bundle/Keys.antt =====
-- Keys of a map as a list of names: membership, distinctness, and counting.
use m_waf.Common.{
  Bool-cases, Dict, List, String, [], arith, eq_iff, eq_refl, false, if◌then◌else◌, inl, inr,
  insert, is_some, length, lookup, none, refl, suc, true, ◌++◌, ◌==◌, ◌||◌, ◌∷◌, ◌≡◌, ◌≤◌,
}
use m_waf.Bundle.Types.{contains_name}

abbrev pub names_of {ℓ} : {V : Type ℓ} → Dict V → List String
names_of [] = []
names_of ((k, _) ∷ m) = k ∷ names_of m

abbrev pub IsDistinct : List String → Type 0
IsDistinct [] = Unit
IsDistinct (x ∷ xs) = (contains_name xs x ≡ false) × IsDistinct xs

module _ {ℓ} {V : Type ℓ} where
  pub contains_name-names_of :
      (k : String) (m : Dict V) → contains_name (names_of m) k ≡ is_some (lookup k m)
  unfolding contains_name lookup
  contains_name-names_of k [] = refl
  contains_name-names_of k ((j, v) ∷ m) = ground (arith, contains_name-names_of k m)

  -- a new key goes to the end
  pub insert_new :
      (k : String) (v : V) (m : Dict V) → lookup k m ≡ none → insert k v m ≡ m ++ (k, v) ∷ []
  unfolding lookup insert
  insert_new k v [] h = refl
  insert_new k v ((j, w) ∷ m) h = ground (arith, insert_new k v m)

  pub names_of-append : (m n : Dict V) → names_of (m ++ n) ≡ names_of m ++ names_of n
  names_of-append [] n = refl
  names_of-append ((k, v) ∷ m) n = rw (names_of-append m n)

  pub length-names_of : (m : Dict V) → length (names_of m) ≡ length m
  length-names_of [] = refl
  length-names_of ((k, v) ∷ m) = rw (length-names_of m)

pub contains_name-append :
    (xs ys : List String) (k : String)
    → contains_name (xs ++ ys) k ≡ (contains_name xs k || contains_name ys k)
unfolding contains_name
contains_name-append [] ys k = refl
contains_name-append (x ∷ xs) ys k = ground (arith, contains_name-append xs ys k)

pub IsDistinct-concat :
    (xs : List String) (k : String)
    → IsDistinct xs
    → contains_name xs k ≡ false
    → IsDistinct (xs ++ k ∷ [])
unfolding contains_name
IsDistinct-concat [] k d h = (refl, tt)
IsDistinct-concat (x ∷ xs) k d h = (
  ground (arith, contains_name-append xs (k ∷ []) x, eq_iff x k, eq_iff k x),
  IsDistinct-concat xs k d.1 (ground arith),
)

-- the names but the first `k`
without : String → List String → List String
without k [] = []
without k (x ∷ xs) = if x == k then xs else x ∷ without k xs

contains_name-without :
    (k j : String) (xs : List String)
    → (k == j) ≡ false
    → contains_name (without k xs) j ≡ contains_name xs j
unfolding contains_name without
contains_name-without k j [] h = refl
contains_name-without k j (x ∷ xs) h =
    ground (arith, contains_name-without k j xs h, eq_iff x k, eq_iff k j, eq_iff x j)

length-without :
    (k : String) (xs : List String)
    → contains_name xs k ≡ true
    → length xs ≡ suc (length (without k xs))
unfolding contains_name without
length-without k [] h = cc
length-without k (x ∷ xs) h = ground (arith, length-without k xs)

ne_of_new :
    (k j : String) (xs : List String)
    → contains_name xs k ≡ false
    → contains_name xs j ≡ true
    → (k == j) ≡ false
ne_of_new k j xs h p = ground (arith, eq_iff k j)

-- Distinct names that all stand in a list no longer than theirs are all that stands there.
pub counted :
    (xs ys : List String)
    → IsDistinct xs
    → ((j : String) → contains_name xs j ≡ true → contains_name ys j ≡ true)
    → length ys ≤ length xs
    → (j : String) → contains_name ys j ≡ true
    → contains_name xs j ≡ true
unfolding contains_name
counted [] [] d sub le j h = h
counted [] (y ∷ ys) d sub le j h = absurd (omega arith)
counted (x ∷ xs) ys d sub le j h = elim (Bool-cases (x == j)) [
  | inl same ↦ rw same
  | inr other ↦
      rw other (
        counted xs (without x ys) d.1 smaller shorter j (rw (contains_name-without x j ys other) h))
]
  where
    there : contains_name ys x ≡ true
    there = sub x (rw (eq_refl x))

    smaller : (k : String) → contains_name xs k ≡ true → contains_name (without x ys) k ≡ true
    smaller k p =
        let e = ne_of_new x k xs d.0 p in rw (contains_name-without x k ys e) (sub k (rw e p))

    shorter : length (without x ys) ≤ length xs
    shorter = omega (arith, length-without x ys there)

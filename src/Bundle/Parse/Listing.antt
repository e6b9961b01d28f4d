-- ===== src/Bundle/Parse/Listing.antt =====
-- What the loop over the files of a manifest has checked when it ends.
use m_waf.Common.{
  All, Bool, Bool-cases, Bytes, Dict, List, String, [], arith, bind-eq-ok, drop, eq_iff,
  eq_of_int_eq, eq_refl, equal_fold, false, inl, inr, length, lookup, not, ok, or-false-left,
  or-false-right, or_err-eq-ok, pos, refl, refuse-eq-ok, some, starts_with, take, true, ◌&&◌, ◌+◌,
  ◌==◌, ◌||◌, ◌∷◌, ◌≡◌, ◌≤◌,
}
use m_waf.Bundle.Types.{FileManifest, contains_name, ordered_files, override_ordered_files}
use m_waf.Bundle.Keys.{IsDistinct}
use m_waf.Bundle.Codec.{Codec}
use m_waf.Bundle.Parse.{Validity, check_entry, is_empty, out_of_order, verify_files}

abbrev pub paths : List FileManifest → List String
paths [] = []
paths (e ∷ es) = e.path ∷ paths es

-- `core` as far as there are paths, and the paths as far as there is `core`, are the same names.
abbrev pub Follows : List String → List String → Type 0
Follows [] ps = Unit
Follows (n ∷ core) [] = Unit
Follows (n ∷ core) (p ∷ ps) = (p ≡ n) × Follows core ps

pub take_of_Follows :
    (core ps : List String)
    → Follows core ps
    → length core ≤ length ps
    → take (length core) ps ≡ core
take_of_Follows [] ps f h = refl
take_of_Follows (n ∷ core) [] f h = absurd (omega arith)
take_of_Follows (n ∷ core) (p ∷ ps) f h = rw (f.0, take_of_Follows core ps f.1 (omega arith))

abbrev pub IsNotManifest : String → Type 0
IsNotManifest name = (name == "manifest.json") ≡ false

abbrev pub IsOneOf : Validity → Type 0
IsOneOf v = (v.v2 || v.v3 || v.base || v.override) ≡ true

module _ (c : Codec) (files : Dict Bytes) where
  -- A listed file is there, with the size and the digest that the manifest states.
  pub record IsListed (e : FileManifest) : Type 0 where
    pub content : Bytes
    pub there : lookup e.path files ≡ some content
    pub sized : e.size ≡ pos (length content)
    pub digest : equal_fold e.sha256 (c.sha256_hex content) ≡ true
    pub other : IsNotManifest e.path

  -- one round
  record IsChecked (v : Validity) (core seen : List String) (e : FileManifest) : Type 0 where
    fresh : contains_name seen e.path ≡ false
    in_order : out_of_order core e.path ≡ false
    v2_path : (v.v2 && not (contains_name ordered_files e.path)) ≡ false
    crs_path : ((v.v3 || v.base) && is_empty core && not (starts_with e.path "crs/")) ≡ false
    override_path : (v.override && not (contains_name override_ordered_files e.path)) ≡ false
    content : Bytes
    there : lookup e.path files ≡ some content
    sized : e.size ≡ pos (length content)
    digest : equal_fold e.sha256 (c.sha256_hex content) ≡ true

  check_entry-IsChecked :
      (v : Validity) (core seen : List String) (e : FileManifest) (u : Unit {0})
      → check_entry c v core seen files e ≡ ok u
      → IsChecked v core seen e
  unfolding check_entry
  check_entry-IsChecked v core seen e u h0 =
      let (t1, h1) = refuse-eq-ok _ _ _ h0 in
      let (t2, h2) = refuse-eq-ok _ _ _ h1 in
      let (t3, h3) = refuse-eq-ok _ _ _ h2 in
      let (t4, h4) = refuse-eq-ok _ _ _ h3 in
      let (t5, h5) = refuse-eq-ok _ _ _ h4 in
      let (content, found, h6) = bind-eq-ok _ _ h5 in
      let (t6, h7) = refuse-eq-ok _ _ _ h6 in
      record {
        fresh = or-false-left _ _ t1;
        in_order = t2;
        v2_path = t3;
        crs_path = t4;
        override_path = t5;
        content = content;
        there = or_err-eq-ok _ _ found;
        sized = eq_of_int_eq _ _ (of_not _ (or-false-left _ _ t6));
        digest = of_not _ (or-false-right _ _ t6);
      }
    where
      of_not : (b : Bool) → not b ≡ false → b ≡ true
      of_not b h = ground arith

  not_manifest :
      (v : Validity) (core seen : List String) (e : FileManifest)
      → IsOneOf v
      → All IsNotManifest core
      → IsChecked v core seen e
      → IsNotManifest e.path
  unfolding contains_name out_of_order
  not_manifest v [] seen e one ordinary k = elim (Bool-cases (e.path == "manifest.json")) [
    | inr other ↦ other
    | inl same ↦
        let p = (eq_iff e.path "manifest.json").0 same in
        let a = rw p at (k.v2_path) in
        let b = rw p at (k.crs_path) in let d = rw p at (k.override_path) in ground arith
  ]
  not_manifest v (n ∷ core) seen e one ordinary k =
      ground (arith, eq_iff e.path n, k.in_order, ordinary.0)

  -- After the loop: every entry is listed, the names seen are those of the entries and distinct,
  -- and the core files come first.
  pub record IsPassed (core seen seen' : List String) (es : List FileManifest) : Type 0 where
    pub listed : All IsListed es
    pub seen_iff :
        (j : String) → contains_name seen' j ≡ (contains_name (paths es) j || contains_name seen j)
    pub distinct : IsDistinct seen → IsDistinct seen'
    pub counted : length seen' ≡ length es + length seen
    pub follows : Follows core (paths es)
    pub apart : (j : String) → contains_name (paths es) j ≡ true → contains_name seen j ≡ false
    pub paths_distinct : IsDistinct (paths es)

  Follows-cons :
      (core ps : List String) (p : String)
      → out_of_order core p ≡ false
      → Follows (drop 1 core) ps
      → Follows core (p ∷ ps)
  unfolding out_of_order
  Follows-cons [] ps p h f = tt
  Follows-cons (n ∷ core) ps p h f = (ground (arith, eq_iff p n), f)

  All-drop : (core : List String) → All IsNotManifest core → All IsNotManifest (drop 1 core)
  All-drop [] h = tt
  All-drop (n ∷ core) h = h.1

  pub verify_files-IsPassed :
      (v : Validity) (core seen seen' : List String) (es : List FileManifest)
      → IsOneOf v
      → All IsNotManifest core
      → verify_files c v core seen files es ≡ ok seen'
      → IsPassed core seen seen' es
  unfolding verify_files contains_name
  verify_files-IsPassed v core seen seen' [] one ordinary h = record {
    listed = tt;
    seen_iff = λ j. ground arith;
    distinct = λ d. ground arith;
    counted = ground arith;
    follows = none_left core;
    apart = λ j p. cc;
    paths_distinct = tt;
  }
    where
      none_left : (core : List String) → Follows core []
      none_left [] = tt
      none_left (n ∷ core) = tt
  verify_files-IsPassed v core seen seen' (e ∷ es) one ordinary h =
      let (u, checked, rest) = bind-eq-ok _ _ h in
      let k = check_entry-IsChecked v core seen e u checked in
      let r =
        verify_files-IsPassed v (drop 1 core) (e.path ∷ seen) seen' es one (All-drop core ordinary)
          rest in
      record {
        listed = (
          record {
            content = k.content;
            there = k.there;
            sized = k.sized;
            digest = k.digest;
            other = not_manifest v core seen e one ordinary k;
          },
          r.listed,
        );
        seen_iff = λ j. ground (arith, r.seen_iff j);
        distinct = λ d. r.distinct (k.fresh, d);
        counted = omega (arith, r.counted);
        follows = Follows-cons core (paths es) e.path k.in_order r.follows;
        apart = λ j p. ground (arith, k.fresh, r.apart j, eq_iff e.path j, p);
        paths_distinct = (ground (arith, r.apart e.path, eq_refl e.path), r.paths_distinct);
      }

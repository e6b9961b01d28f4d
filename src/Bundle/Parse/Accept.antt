-- ===== src/Bundle/Parse/Accept.antt =====
-- What Parse has verified when it accepts a bundle.
use mathlib.Core.Path.{subst}
use m_waf.Common.{
  All, Bool, Bool-cases, Bytes, Dict, List, Option, String, [], arith, bind, bind-eq-ok, eq_iff,
  erase, false, inl, inr, is_some, length, lookup, lookup-erase, ltb, nat_eq, none, not, ok,
  or-false-left, or_err, or_err-eq-ok, refl, refuse, refuse-eq-ok, some, suc, take, true, ℕ, ◌&&◌,
  ◌+◌, ◌==◌, ◌||◌, ◌∷◌, ◌≡◌, ◌≢◌, ◌≤◌,
}
use m_waf.Bundle.Types.{
  BundleError, FileManifest, Manifest, contains_name, gzip_failed, manifest_missing,
  manifest_undecodable, size_invalid, unlisted_files,
}
use m_waf.Bundle.Codec.{Codec, Entries}
use m_waf.Bundle.Keys.{IsDistinct, contains_name-names_of, counted, length-names_of, names_of}
use m_waf.Bundle.Build.{mib, total_size}
use m_waf.Bundle.Parse.{
  Validity, core_files, incomplete, manifest_refused, parse, read_entries, validity, verify,
  with_encoded, with_entries, with_files,
}
use m_waf.Bundle.Parse.Reading.{
  AllSafe, IsReadable, IsReadable-empty, IsSafeFile, read_entries-IsReadable,
}
use m_waf.Bundle.Parse.Listing.{
  IsListed, IsNotManifest, IsOneOf, IsPassed, paths, take_of_Follows, verify_files-IsPassed,
}

-- The files of an accepted bundle are exactly those that its manifest lists.
pub record IsVerified (c : Codec) (m : Manifest) (files : Dict Bytes) : Type 0 where
  pub valid : manifest_refused m ≡ false
  -- each listed file is there with its size and digest
  pub listed : All (IsListed c files) m.files
  -- no path is listed twice
  pub distinct : IsDistinct (paths m.files)
  -- each file is listed
  pub only : (name : String) → lookup name files ≢ none → contains_name (paths m.files) name ≡ true
  -- the core files of the format come first, in their order
  pub ordered : take (length (core_files (validity m))) (paths m.files) ≡ core_files (validity m)
  -- names and sizes
  pub safe : (name : String) (raw : Bytes) → lookup name files ≡ some raw → IsSafeFile name raw
  pub bounded : total_size files ≤ mib 64

manifest_refused-IsOneOf : (m : Manifest) → manifest_refused m ≡ false → IsOneOf (validity m)
unfolding manifest_refused
manifest_refused-IsOneOf m h = some_of (validity m) (or-false-left _ _ h)
  where
    some_of :
        (v : Validity) → (not v.v2 && not v.v3 && not v.base && not v.override) ≡ false → IsOneOf v
    some_of v e = ground arith

core_files-ordinary : (v : Validity) → All IsNotManifest (core_files v)
unfolding core_files
core_files-ordinary v = elim (Bool-cases v.base) [
  | inl b ↦ rw b (ground arith)
  | inr b ↦ elim (Bool-cases v.override) [
    | inl o ↦ rw (b, o) (ground arith)
    | inr o ↦ rw (b, o) (ground arith)
  ]
]

-- a valid manifest lists at least the core files of its format
core_files-length :
    (m : Manifest) → manifest_refused m ≡ false → length (core_files (validity m)) ≤ length m.files
unfolding manifest_refused core_files
core_files-length m h = ground arith

safe_at :
    (files : Dict Bytes) (name : String) (raw : Bytes)
    → AllSafe files
    → lookup name files ≡ some raw
    → IsSafeFile name raw
unfolding lookup
safe_at [] name raw s h = cc
safe_at ((j, b) ∷ files) name raw s h = elim (Bool-cases (j == name)) [
  | inl same ↦
      let p = (eq_iff j name).0 same in let q = some_inj b raw (rw same at h) in rw (← p, ← q) s.0
  | inr other ↦ safe_at files name raw s.1 (rw other at h)
]
  where
    some_inj : (x y : Bytes) → some x ≡ some y → x ≡ y
    some_inj x y e = cc

total_size-erase : (k : String) (files : Dict Bytes) → total_size (erase k files) ≤ total_size files
unfolding total_size erase
total_size-erase k [] = omega arith
total_size-erase k ((j, b) ∷ files) = ground (arith, total_size-erase k files)

length-paths : (es : List FileManifest) → length (paths es) ≡ length es
length-paths [] = refl
length-paths (e ∷ es) = rw (length-paths es)

-- erasing another key keeps what the manifest lists
IsListed-erase :
    (c : Codec) (files : Dict Bytes) (e : FileManifest)
    → IsListed c files e
    → IsListed c (erase "manifest.json" files) e
IsListed-erase c files e l = record {
  content = l.content;
  there = rw lookup-erase (
      ground
        (arith, l.other, l.there, eq_iff e.path "manifest.json", eq_iff "manifest.json" e.path));
  sized = l.sized;
  digest = l.digest;
  other = l.other;
}

AllListed-erase :
    (c : Codec) (files : Dict Bytes) (es : List FileManifest)
    → All (IsListed c files) es
    → All (IsListed c (erase "manifest.json" files)) es
AllListed-erase c files [] h = tt
AllListed-erase c files (e ∷ es) h = (IsListed-erase c files e h.0, AllListed-erase c files es h.1)

listed_there :
    (c : Codec) (files : Dict Bytes) (es : List FileManifest) (j : String)
    → All (IsListed c files) es
    → contains_name (paths es) j ≡ true
    → is_some (lookup j files) ≡ true
unfolding contains_name
listed_there c files [] j h p = cc
listed_there c files (e ∷ es) j h p = elim (Bool-cases (e.path == j)) [
  | inl same ↦ rw (← (eq_iff e.path j).0 same) (rw (h.0.there))
  | inr other ↦ listed_there c files es j h.1 (rw other at p)
]

not_listed :
    (c : Codec) (files : Dict Bytes) (es : List FileManifest)
    → All (IsListed c files) es
    → contains_name (paths es) "manifest.json" ≡ false
unfolding contains_name
not_listed c files [] h = refl
not_listed c files (e ∷ es) h = ground (arith, h.0.other, not_listed c files es h.1)

-- counting: as many files as there are names seen and the manifest leave no other file
only_listed :
    (c : Codec) (files : Dict Bytes) (es : List FileManifest) (core seen : List String)
    → IsPassed c files core [] seen es
    → IsDistinct (names_of files)
    → lookup "manifest.json" files ≢ none
    → length seen + 1 ≡ length files
    → (name : String) → lookup name (erase "manifest.json" files) ≢ none
    → contains_name (paths es) name ≡ true
unfolding contains_name
only_listed c files es core seen p d there count name h =
    let named =
      counted ("manifest.json" ∷ seen) (names_of files) (fresh, p.distinct tt) inside le name
        held in
    ground (
      arith,
      named,
      p.seen_iff name,
      eq_iff "manifest.json" name,
      lookup-erase "manifest.json" name files,
    )
  where
    fresh : contains_name seen "manifest.json" ≡ false
    fresh = ground (arith, p.seen_iff "manifest.json", not_listed c files es p.listed)

    some_of_ne : (k : String) → lookup k files ≢ none → is_some (lookup k files) ≡ true
    some_of_ne k ne = ground arith

    inside :
        (j : String)
        → contains_name ("manifest.json" ∷ seen) j ≡ true
        → contains_name (names_of files) j ≡ true
    inside j q = rw (contains_name-names_of j files) (elim (Bool-cases ("manifest.json" == j)) [
      | inl same ↦ rw (← (eq_iff "manifest.json" j).0 same) (some_of_ne "manifest.json" there)
      | inr other ↦ listed_there c files es j p.listed (ground (arith, p.seen_iff j))
    ])

    le : length (names_of files) ≤ suc (length seen)
    le = omega (arith, length-names_of files)

    held : contains_name (names_of files) name ≡ true
    held =
        rw (contains_name-names_of name files)
          (some_of_ne name (λ e. h (rw lookup-erase (ground (arith, e)))))

counted_files :
    (v : Validity) (seen : List String) (files : Dict Bytes)
    → incomplete v seen files ≡ false
    → length seen + 1 ≡ length files
unfolding incomplete
counted_files v seen files h = ground arith

-- a value that one branch of a refusal returns
value_of :
    {A : Type 0} (t : Bool) (e : BundleError) (a b : A)
    → refuse t e (ok a) ≡ ok b
    → (t ≡ false) × (a ≡ b)
value_of true e a b h = cc
value_of false e a b h = (refl, ground arith)

safe_in_erased :
    (files : Dict Bytes) (name : String) (raw : Bytes)
    → lookup name (erase "manifest.json" files) ≡ some raw
    → lookup name files ≡ some raw
safe_in_erased files name raw h = ground (arith, h, lookup-erase "manifest.json" name files)

verify-IsVerified :
    (c : Codec) (m m' : Manifest) (size : ℕ) (files files' : Dict Bytes)
    → IsReadable size files
    → lookup "manifest.json" files ≢ none
    → verify c m files ≡ ok (m', files')
    → IsVerified c m' files'
unfolding verify
verify-IsVerified c m m' size files files' r there h =
    let (valid, h1) = refuse-eq-ok _ _ _ h in
    let (seen, passed, h2) = bind-eq-ok _ _ h1 in
    let (counts, same) =
      value_of (incomplete (validity m) seen files) unlisted_files (m, erase "manifest.json" files)
        (m', files') h2 in
    let p =
      verify_files-IsPassed c files (validity m) (core_files (validity m)) [] seen m.files
        (manifest_refused-IsOneOf m valid) (core_files-ordinary (validity m)) passed in
    subst (λ (x : Manifest × Dict Bytes). IsVerified c x.0 x.1) same
      (record {
        valid = valid;
        listed = AllListed-erase c files m.files p.listed;
        distinct = p.paths_distinct;
        only =
            only_listed c files m.files (core_files (validity m)) seen p r.distinct there
              (counted_files (validity m) seen files counts);
        ordered =
            take_of_Follows _ _ p.follows (rw (length-paths m.files) (core_files-length m valid));
        safe = λ name raw e. safe_at files name raw r.safe (safe_in_erased files name raw e);
        bounded = omega (arith, total_size-erase "manifest.json" files, r.counted, r.bounded);
      })

with_files-IsVerified :
    (c : Codec) (size : ℕ) (read : Dict Bytes) (m : Manifest) (files : Dict Bytes)
    → IsReadable size read
    → with_files c read ≡ ok (m, files)
    → IsVerified c m files
unfolding with_files with_encoded
with_files-IsVerified c size read m files r h =
    let (encoded, found, h1) =
      bind-eq-ok (or_err (lookup "manifest.json" read) manifest_missing) (with_encoded c read) h in
    let (decoded, decoding, h2) =
      bind-eq-ok (or_err (c.decode encoded) manifest_undecodable) (λ x. verify c x read) h1 in
    verify-IsVerified c decoded m size read files r
      (some_not_none encoded (lookup "manifest.json" read) (or_err-eq-ok _ manifest_missing found))
      h2
  where
    some_not_none : (x : Bytes) (o : Option Bytes) → o ≡ some x → o ≡ none → ⊥
    some_not_none x o p q = cc

with_entries-IsVerified :
    (c : Codec) (entries : Entries) (m : Manifest) (files : Dict Bytes)
    → with_entries c entries ≡ ok (m, files)
    → IsVerified c m files
unfolding with_entries
with_entries-IsVerified c entries m files h =
    let (read, reading, h1) = bind-eq-ok (read_entries entries 0 []) (with_files c) h in
    let (size, r) = read_entries-IsReadable entries 0 [] read IsReadable-empty reading in
    with_files-IsVerified c size read m files r h1

-- A bundle that Parse accepts is verified: its manifest has one of the four forms, every listed
-- file is there with the listed size and SHA-256, no path is listed twice, no other file is there,
-- the core files of the format come first and in order, every name is allowed and clean and does
-- not leave the directory, and no file passes 8 MiB nor all of them 64 MiB.
pub parse-IsVerified :
    (c : Codec) (raw : Bytes) (m : Manifest) (files : Dict Bytes)
    → parse c raw ≡ ok (m, files)
    → IsVerified c m files
unfolding parse
parse-IsVerified c raw m files h =
    let (sized, h1) =
      refuse-eq-ok (nat_eq (length raw) 0 || ltb (mib 64) (length raw)) size_invalid
        (bind (or_err (c.read_archive raw) gzip_failed) (with_entries c)) h in
    let (entries, opened, h2) =
      bind-eq-ok (or_err (c.read_archive raw) gzip_failed) (with_entries c) h1 in
    with_entries-IsVerified c entries m files h2

-- ===== src/Bundle/RoundTrip.antt =====
-- What a builder of internal/policybundle/bundle.go returns is parsed to what was built.
use mathlib.Core.List.{append-nil, append_assoc}
pub mod Built
pub mod Overlaid
use m_waf.Common.{
  Bool, Bytes, Dict, List, Option, Option-cases, String, [], ap, arith, base, drop, equal_fold_refl,
  erase, false, int_eq, is_some, length, lookup, ltb, none, not, ok, pos, refl, some, starts_with,
  sym, take_all, true, ℕ, ◌&&◌, ◌++◌, ◌+◌, ◌||◌, ◌∙◌, ◌∷◌, ◌≡◌, ◌≤◌,
}
use m_waf.Bundle.Types.{Manifest, contains_name, ordered_files, override_ordered_files}
use m_waf.Bundle.Codec.{Codec, Header, IsFaithful, regular_entries}
use m_waf.Bundle.Keys.{insert_new}
use m_waf.Bundle.Build.{describe, describe_all, mib}
use m_waf.Bundle.Parse.{
  Validity, check_entry, complete, core_files, incomplete, is_empty, limited, manifest_refused,
  out_of_order, parse, read_entries, refused, validity, verify, verify_files, with_encoded,
  with_entries, with_files,
}

abbrev pub header_of : String → Bytes → Header
header_of name raw = record { name = name; regular = true; size = pos (length raw) }

-- These files pass the tests on entries, one after the other.
abbrev pub CanRead : ℕ → Dict Bytes → Dict Bytes → Type 0
CanRead total before [] = Unit
CanRead total before ((name, raw) ∷ files) =
    (refused (header_of name raw) total before ≡ false)
    × CanRead (total + length raw) (before ++ (name, raw) ∷ []) files

not_refused-small :
    (name : String) (raw : Bytes) (total : ℕ) (before : Dict Bytes)
    → refused (header_of name raw) total before ≡ false
    → length raw ≤ mib 8
unfolding refused
not_refused-small name raw total before h = ground (arith, h)

not_refused-new :
    (name : String) (raw : Bytes) (total : ℕ) (before : Dict Bytes)
    → refused (header_of name raw) total before ≡ false
    → lookup name before ≡ none
unfolding refused
not_refused-new name raw total before h = none_of (lookup name before) (ground (arith, h))
  where
    none_of : (o : Option Bytes) → is_some o ≡ false → o ≡ none
    none_of o k = ground (arith, Option-cases o)

complete_of_small :
    (raw : Bytes) → length raw ≤ mib 8 → complete (some raw) (pos (length raw)) ≡ some raw
unfolding complete limited
complete_of_small raw h = rw (take_all (mib 8 + 1) raw (omega (arith, h))) (ground arith)

read_entries_of_CanRead :
    (files before : Dict Bytes) (total : ℕ)
    → CanRead total before files
    → read_entries (regular_entries files) total before ≡ ok (before ++ files)
unfolding read_entries
read_entries_of_CanRead [] before total h = ap ok (sym (append-nil before))
read_entries_of_CanRead ((name, raw) ∷ files) before total (h, hs) =
    rw
      (
        h,
        complete_of_small raw (not_refused-small name raw total before h),
        insert_new name raw before (not_refused-new name raw total before h),
      )
      (read_entries_of_CanRead files (before ++ (name, raw) ∷ []) (total + length raw) hs
        ∙ ap ok (append_assoc before ((name, raw) ∷ []) files))

-- the tests of one round of the loop over the manifest, but those of the content
unfoldable pub misplaced : Validity → List String → List String → String → Bool
misplaced v core seen name =
    contains_name seen name
    || out_of_order core name
    || v.v2 && not (contains_name ordered_files name)
    || (v.v3 || v.base) && is_empty core && not (starts_with name "crs/")
    || v.override && not (contains_name override_ordered_files name)

abbrev pub CanVerify : Validity → List String → List String → Dict Bytes → Dict Bytes → Type 0
CanVerify v core seen files [] = Unit
CanVerify v core seen files ((name, raw) ∷ listed) =
    (misplaced v core seen name ≡ false)
    × (lookup name files ≡ some raw)
    × CanVerify v (drop 1 core) (name ∷ seen) files listed

abbrev pub names_onto : List String → Dict Bytes → List String
names_onto seen [] = seen
names_onto seen ((name, raw) ∷ files) = names_onto (name ∷ seen) files

int_eq_refl : (n : ℕ) → int_eq (pos n) (pos n) ≡ true
int_eq_refl n = ground arith

module _ (c : Codec) where
  check_entry_of_described :
      (v : Validity) (core seen : List String) (files : Dict Bytes) (name : String) (raw : Bytes)
      → misplaced v core seen name ≡ false
      → lookup name files ≡ some raw
      → check_entry c v core seen files (describe c name raw) ≡ ok tt
  unfolding check_entry misplaced
  check_entry_of_described v core seen files name raw h there =
      ground (arith, h, there, equal_fold_refl (c.sha256_hex raw), int_eq_refl (length raw))

  verify_files_of_CanVerify :
      (v : Validity) (listed : Dict Bytes) (core seen : List String) (files : Dict Bytes)
      → CanVerify v core seen files listed
      → verify_files c v core seen files (describe_all c listed) ≡ ok (names_onto seen listed)
  unfolding verify_files describe_all
  verify_files_of_CanVerify v [] core seen files h = refl
  verify_files_of_CanVerify v ((name, raw) ∷ listed) core seen files (h, there, hs) =
      rw (check_entry_of_described v core seen files name raw h there)
        (verify_files_of_CanVerify v listed (drop 1 core) (name ∷ seen) files hs)

  -- an archive of a manifest and its files
  abbrev pub packed : Bytes → Dict Bytes → Dict Bytes
  packed encoded listed = ("manifest.json", encoded ++ 10 ∷ []) ∷ listed

  -- What stands in the archive is parsed to the manifest and its files.
  pub parse_of_packed :
      IsFaithful c
      → (m : Manifest) (encoded raw : Bytes) (listed : Dict Bytes) → c.marshal m ≡ some encoded
      → c.write_archive (packed encoded listed) ≡ some raw
      → ltb (mib 64) (length raw) ≡ false
      → m.files ≡ describe_all c listed
      → manifest_refused m ≡ false
      → CanRead 0 [] (packed encoded listed)
      → CanVerify (validity m) (core_files (validity m)) [] (packed encoded listed) listed
      → incomplete (validity m) (names_onto [] listed) (packed encoded listed) ≡ false
      → parse c raw ≡ ok (m, erase "manifest.json" (packed encoded listed))
  unfolding parse with_entries with_files with_encoded verify lookup
  parse_of_packed faithful m encoded raw listed marshalled written size described valid readable
        verifiable whole =
      rw
        (
          faithful.length-write (packed encoded listed) raw written,
          size,
          faithful.read-write (packed encoded listed) raw written,
        )
        (rw (read_entries_of_CanRead (packed encoded listed) [] 0 readable) (
          rw (faithful.decode-marshal m encoded marshalled)
            (rw (valid, listed_verified) (rw whole refl))))
    where
      listed_verified :
          verify_files c (validity m) (core_files (validity m)) [] (packed encoded listed) m.files
          ≡ ok (names_onto [] listed)
      listed_verified =
          ap
            (λ es.
              verify_files c (validity m) (core_files (validity m)) [] (packed encoded listed) es)
            described
          ∙ verify_files_of_CanVerify (validity m) listed (core_files (validity m)) []
              (packed encoded listed) verifiable

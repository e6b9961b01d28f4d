-- ===== src/Bundle/Parse/Reading.antt =====
-- What holds of the files that Parse has read from an archive.
use m_waf.Common.{
  Bytes, Dict, Option, String, [], ap, arith, bind-eq-ok, clean, eq_iff, eq_of_int_eq, false,
  insert, is_negative, is_some, length, length-append, lookup, none, ok, or_err-eq-ok, pos,
  pos_part, refl, refuse-eq-ok, some, starts_with, take, true, ℕ, ℤ, ◌++◌, ◌+◌, ◌<◌, ◌∷◌, ◌≡◌, ◌≤◌,
}
use m_waf.Bundle.Keys.{
  IsDistinct, IsDistinct-concat, contains_name-names_of, insert_new, names_of, names_of-append,
}
use m_waf.Bundle.Codec.{Entries, Header, broken, entry, eof}
use m_waf.Bundle.Build.{mib, total_size}
use m_waf.Bundle.Parse.{allowed, complete, read_entries, refused}

-- A name that Parse lets in, with content of at most 8 MiB.
pub record IsSafeFile (name : String) (raw : Bytes) : Type 0 where
  pub known : allowed name ≡ true
  pub cleaned : clean name ≡ name
  pub inside : starts_with name "../" ≡ false
  pub fits : length raw ≤ mib 8

abbrev pub AllSafe : Dict Bytes → Type 0
AllSafe [] = Unit
AllSafe ((name, raw) ∷ files) = IsSafeFile name raw × AllSafe files

pub record IsReadable (total : ℕ) (files : Dict Bytes) : Type 0 where
  pub safe : AllSafe files
  pub distinct : IsDistinct (names_of files)
  pub counted : total ≡ total_size files
  pub bounded : total ≤ mib 64
  pub few : length files ≤ 4096

pub IsReadable-empty : IsReadable 0 []
unfolding total_size
IsReadable-empty = record {
  safe = tt;
  distinct = tt;
  counted = refl;
  bounded = omega arith;
  few = omega arith;
}

AllSafe-concat :
    (files : Dict Bytes) (name : String) (raw : Bytes)
    → AllSafe files
    → IsSafeFile name raw
    → AllSafe (files ++ (name, raw) ∷ [])
AllSafe-concat [] name raw h s = (s, tt)
AllSafe-concat ((j, b) ∷ files) name raw h s = (h.0, AllSafe-concat files name raw h.1 s)

pub total_size-append : (xs ys : Dict Bytes) → total_size (xs ++ ys) ≡ total_size xs + total_size ys
unfolding total_size
total_size-append [] ys = omega arith
total_size-append ((j, b) ∷ xs) ys = omega (arith, total_size-append xs ys)

-- what one header's test has established
pub record IsAccepted (h : Header) (total : ℕ) (files : Dict Bytes) : Type 0 where
  pub is_regular : h.regular ≡ true
  pub known : allowed h.name ≡ true
  pub cleaned : clean h.name ≡ h.name
  pub inside : starts_with (clean h.name) "../" ≡ false
  pub nonnegative : is_negative h.size ≡ false
  pub fits : pos_part h.size ≤ mib 8
  pub room : total + pos_part h.size ≤ mib 64
  pub fresh : lookup h.name files ≡ none
  pub few : length files < 4096

none_of_absent : {A : Type 0} (o : Option A) → is_some o ≡ false → o ≡ none
none_of_absent none h = refl
none_of_absent (some a) h = cc

refused-IsAccepted :
    (h : Header) (total : ℕ) (files : Dict Bytes)
    → refused h total files ≡ false
    → IsAccepted h total files
unfolding refused
refused-IsAccepted h total files e = record {
  is_regular = ground arith;
  known = ground arith;
  cleaned = ground (arith, eq_iff (clean h.name) h.name);
  inside = ground arith;
  nonnegative = ground arith;
  fits = ground arith;
  room = ground arith;
  fresh = none_of_absent (lookup h.name files) (ground arith);
  few = ground arith;
}

complete-eq-some :
    (content : Option Bytes) (n : ℤ) (raw : Bytes)
    → complete content n ≡ some raw
    → pos (length raw) ≡ n
unfolding complete
complete-eq-some none n raw h = cc
complete-eq-some (some whole) n raw h =
    ground (arith, eq_of_int_eq (pos (length (take (mib 8 + 1) whole))) n)

next-IsReadable :
    (h : Header) (raw : Bytes) (total : ℕ) (files : Dict Bytes)
    → IsReadable total files
    → IsAccepted h total files
    → pos (length raw) ≡ h.size
    → IsReadable (total + length raw) (files ++ (h.name, raw) ∷ [])
unfolding total_size
next-IsReadable h raw total files r a e = record {
  safe = AllSafe-concat files h.name raw r.safe (record {
    known = a.known;
    cleaned = a.cleaned;
    inside = rw a.cleaned at (a.inside);
    fits = fits;
  });
  distinct = rw names_of-append (
      IsDistinct-concat (names_of files) h.name r.distinct
        (rw (contains_name-names_of h.name files) (rw a.fresh)));
  counted = omega (arith, total_size-append files ((h.name, raw) ∷ []), r.counted);
  bounded = room;
  few = omega (arith, length-append files ((h.name, raw) ∷ []), a.few);
}
  where
    size : length raw ≡ pos_part h.size
    size = ap pos_part e

    fits : length raw ≤ mib 8
    fits = omega (arith, size, a.fits)

    room : total + length raw ≤ mib 64
    room = omega (arith, size, a.room)

-- Whatever the archive holds, the files that Parse reads from it are safe, distinct and bounded.
pub read_entries-IsReadable :
    (es : Entries) (total : ℕ) (files result : Dict Bytes)
    → IsReadable total files
    → read_entries es total files ≡ ok result
    → (size : ℕ) × IsReadable size result
unfolding read_entries
read_entries-IsReadable eof total files result r h = (total, ground arith)
read_entries-IsReadable broken total files result r h = cc
read_entries-IsReadable (entry hd content rest) total files result r h =
    let (accepted, h1) = refuse-eq-ok (refused hd total files) _ _ h in
    let (raw, read, h2) = bind-eq-ok _ _ h1 in
    let a = refused-IsAccepted hd total files accepted in
    let e = complete-eq-some content hd.size raw (or_err-eq-ok _ _ read) in
    read_entries-IsReadable rest (total + length raw) (insert hd.name raw files) result
      (rw (insert_new hd.name raw files a.fresh) (next-IsReadable hd raw total files r a e)) h2

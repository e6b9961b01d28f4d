-- ===== src/Bundle/RoundTrip/Built.antt =====
-- Build and BuildOverride of internal/policybundle/bundle.go, and Parse on what they return.
use m_waf.Common.{
  Bool, Bytes, Dict, List, Result, String, [], ap, arith, bind-eq-ok, clean, erase, false,
  if◌then◌else◌, is_some, leb, length, length-append, lookup, ltb, not, ok, ok_inj, or_err,
  or_err-eq-ok, refl, refuse-eq-ok, some, starts_with, sym, true, ℕ, ◌&&◌, ◌++◌, ◌+◌, ◌==◌, ◌∙◌,
  ◌∷◌, ◌≡◌, ◌≤◌,
}
use m_waf.Bundle.Types.{
  BundleError, Input, Manifest, PolicySourceRef, archive_failed, bundle_too_large, contains_name,
  files_too_large, format_v2, marshal_failed, mode_invalid, source_required,
}
use m_waf.Bundle.Codec.{Codec, IsFaithful}
use m_waf.Bundle.Keys.{contains_name-names_of, length-names_of, names_of, names_of-append}
use m_waf.Bundle.Build.{
  build, build_archive, collect, core_files_v2, describe_all, empty_manifest, manifest_of, mib,
  mode_unknown, pack, self_contained, source_missing, total_size,
}
use m_waf.Bundle.Parse.{
  allowed, core_files, incomplete, manifest_refused, out_of_order, parse, refused, validity,
}
use m_waf.Bundle.RoundTrip.{
  CanRead, CanVerify, header_of, misplaced, names_onto, packed, parse_of_packed,
}

-- every file has at most 8 MiB
abbrev pub EachSmall : Dict Bytes → Type 0
EachSmall [] = Unit
EachSmall ((name, raw) ∷ files) = (length raw ≤ mib 8) × EachSmall files

-- The sizes that a bundle is read with: the manifest with its newline and each file have at most 8 MiB, and
-- they have at most 64 MiB together.
abbrev pub IsSmall : Codec → Manifest → Dict Bytes → Type 0
IsSmall c m files =
    (encoded : Bytes)
    → c.marshal m ≡ some encoded
    → (length encoded + 1 ≤ mib 8)
      × EachSmall files
      × ((length encoded + 1) + total_size files ≤ mib 64)

-- what `pack` has done when it returns a bundle
pub record IsPacked (c : Codec) (made : Manifest) (listed : Dict Bytes) (raw : Bytes) (m : Manifest)
    : Type 0 where
  pub same : made ≡ m
  pub encoded : Bytes
  pub marshalled : c.marshal made ≡ some encoded
  pub written : c.write_archive (packed c encoded listed) ≡ some raw
  pub size : ltb (mib 64) (length raw) ≡ false

pub pack-IsPacked :
    (c : Codec) (format : String) (made : Manifest) (listed : Dict Bytes) (raw : Bytes)
    (m : Manifest)
    → pack c format made listed ≡ ok (raw, m)
    → IsPacked c made listed raw m
unfolding pack
pack-IsPacked c format made listed raw m h =
    let (_, h1) =
      refuse-eq-ok (self_contained format && ltb (mib 64) (total_size listed)) files_too_large _
        h in
    let (encoded, e1, h2) = bind-eq-ok (or_err (c.marshal made) marshal_failed) _ h1 in
    let (output, e2, h3) =
      bind-eq-ok (or_err (c.write_archive (packed c encoded listed)) archive_failed) _ h2 in
    let (fits, h4) =
      refuse-eq-ok (ltb (if self_contained format then mib 64 else mib 4) (length output))
        bundle_too_large _ h3 in
    let same = ok_inj h4 in
    record {
      same = ap (λ r. r.1) same;
      encoded = encoded;
      marshalled = or_err-eq-ok (c.marshal made) marshal_failed e1;
      written =
          or_err-eq-ok (c.write_archive (packed c encoded listed)) archive_failed e2
          ∙ ap (λ r. some (r.0)) same;
      size = rw (sym (ap (λ r. r.0) same)) (within_limit (self_contained format) output fits);
    }
  where
    within_limit :
        (b : Bool) (output : Bytes)
        → ltb (if b then mib 64 else mib 4) (length output) ≡ false
        → ltb (mib 64) (length output) ≡ false
    within_limit true output h = h
    within_limit false output h = ground (arith, h)

refused_small :
    (name : String) (raw : Bytes) (total : ℕ) (before : Dict Bytes)
    → (clean name == name) ≡ true
    → starts_with (clean name) "../" ≡ false
    → allowed name ≡ true
    → is_some (lookup name before) ≡ false
    → leb 4096 (length before) ≡ false
    → length raw ≤ mib 8
    → total + length raw ≤ mib 64
    → refused (header_of name raw) total before ≡ false
unfolding refused
refused_small name raw total before h1 h2 h3 h4 h5 h6 h7 =
    rw (h1, h2, h3, h4, h5, below (mib 8) (length raw) h6, below (mib 64) (total + length raw) h7)
      refl
  where
    below : (most n : ℕ) → n ≤ most → ltb most n ≡ false
    below most n h = ground (arith, h)

-- The names of an archive pass the tests on entries, behind those before.
unfoldable pub names_readable : List String → List String → Bool
names_readable before [] = true
names_readable before (name ∷ names) =
    clean name == name
    && not (starts_with (clean name) "../")
    && allowed name
    && not (contains_name before name)
    && not (leb 4096 (length before))
    && names_readable (before ++ name ∷ []) names

pub CanRead-of_names :
    (files before : Dict Bytes) (total : ℕ)
    → names_readable (names_of before) (names_of files) ≡ true
    → EachSmall files × (total + total_size files ≤ mib 64)
    → CanRead total before files
unfolding names_readable total_size
CanRead-of_names [] before total h k = tt
CanRead-of_names ((name, raw) ∷ files) before total h ((small, each), k) = (
  refused_small name raw total before (ground (arith, h)) (ground (arith, h)) (ground (arith, h))
      (sym (contains_name-names_of name before) ∙ ground (arith, h))
      (ap (leb 4096) (sym (length-names_of before)) ∙ ground (arith, h)) small (omega (arith, k)),
  CanRead-of_names files (before ++ (name, raw) ∷ []) (total + length raw)
      (ap (λ ns. names_readable ns (names_of files)) (names_of-append before ((name, raw) ∷ []))
        ∙ ground (arith, h))
      (each, omega (arith, k)),
)

valid_v2 :
    (c : Codec) (source : PolicySourceRef) (a b d e f g : String × Bytes)
    → source_missing source ≡ false
    → manifest_refused
        (manifest_of c source format_v2 2 empty_manifest (a ∷ b ∷ d ∷ e ∷ f ∷ g ∷ []))
      ≡ false
unfolding manifest_refused validity manifest_of describe_all source_missing
valid_v2 c source a b d e f g h = ground (arith, h)

-- the manifest is written with a newline
pub small_enough :
    (c : Codec) (made m : Manifest) (encoded : Bytes) (listed : Dict Bytes)
    → made ≡ m
    → IsSmall c m listed
    → c.marshal made ≡ some encoded
    → EachSmall (packed c encoded listed) × (0 + total_size (packed c encoded listed) ≤ mib 64)
unfolding total_size
small_enough c made m encoded listed same small e =
    let (first, each, fits) = small encoded (ap c.marshal (sym same) ∙ e) in
    (
      (omega (arith, first, length-append encoded (10 ∷ [])), each),
      omega (arith, fits, length-append encoded (10 ∷ [])),
    )

module _ (c : Codec) (faithful : IsFaithful c) where
  -- one builder: its manifest is valid, and its files can be read and verified
  pub parse_of_pack :
      (format : String) (made : Manifest) (listed : Dict Bytes) (raw : Bytes) (m : Manifest)
      → pack c format made listed ≡ ok (raw, m)
      → made.files ≡ describe_all c listed
      → manifest_refused made ≡ false
      → ((encoded : Bytes)
          → c.marshal made ≡ some encoded
          → CanRead 0 [] (packed c encoded listed)
            × CanVerify
                (validity made)
                (core_files (validity made))
                []
                (packed c encoded listed)
                listed
            × (incomplete (validity made) (names_onto [] listed) (packed c encoded listed) ≡ false)
            × (erase "manifest.json" (packed c encoded listed) ≡ listed))
      → parse c raw ≡ ok (m, listed)
  parse_of_pack format made listed raw m h described valid readable =
      let p = pack-IsPacked c format made listed raw m h in
      let (read, verified, whole, rest) = readable p.encoded p.marshalled in
      parse_of_packed c faithful made p.encoded raw listed p.marshalled p.written p.size described
        valid read verified whole
      ∙ paired p.same rest
    where
      paired :
          {a b : Manifest} {x y : Dict Bytes}
          → a ≡ b
          → x ≡ y
          → ◌≡◌ {A = Result BundleError (Manifest × Dict Bytes)} (ok (a, x)) (ok (b, y))
      paired h k = rw (h, k) refl

  -- A bundle that Build returns is parsed to the manifest that Build returned with it and to the six
  -- rendered files, when the manifest and each of these are at most 8 MiB and together at most 64 MiB.
  pub build-parse :
      (source : PolicySourceRef) (input : Input) (raw : Bytes) (m : Manifest)
      → IsSmall c m (core_files_v2 input)
      → build c source input ≡ ok (raw, m)
      → parse c raw ≡ ok (m, core_files_v2 input)
  unfolding build build_archive collect core_files_v2 lookup manifest_of names_readable clean
      allowed contains_name erase incomplete validity describe_all total_size misplaced out_of_order
      core_files
  build-parse source input raw m small h =
      let (known, h1) = refuse-eq-ok (source_missing source) source_required _ h in
      let (mode, h2) = refuse-eq-ok (mode_unknown input.mode) mode_invalid _ h1 in
      let made : Manifest = manifest_of c source format_v2 2 empty_manifest (core_files_v2 input) in
      let same = (pack-IsPacked c format_v2 made (core_files_v2 input) raw m h2).same in
      parse_of_pack format_v2 made (core_files_v2 input) raw m h2 refl
        (valid_v2 c source _ _ _ _ _ _ known)
        λ encoded e. (
          CanRead-of_names (packed c encoded (core_files_v2 input)) [] 0 refl
              (small_enough c made m encoded (core_files_v2 input) same small e),
          (refl, refl, (refl, refl, (refl, refl, (refl, refl, (refl, refl, (refl, refl, tt)))))),
          refl,
          refl,
        )

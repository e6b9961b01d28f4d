-- ===== src/Tests/Codecs.antt =====
-- A faithful codec that writes one manifest and one archive, for the builders of
-- internal/policybundle/bundle.go.
use m_waf.Common.{
  Bool, Bytes, Dict, List, Option, String, [], and-left, and-right, ap, arith, eq_iff, false,
  if◌then◌else◌, length, nat_eq, nat_eq_iff, negsuc, none, not, pos, refl, some, suc, sym, true,
  zero, ℕ, ℤ, ◌&&◌, ◌==◌, ◌∷◌, ◌≡◌,
}
use m_waf.Bundle.Types.{FileManifest, Manifest}
use m_waf.Bundle.Codec.{Codec, Entries, IsFaithful, regular_entries}

same_bytes : Bytes → Bytes → Bool
same_bytes [] [] = true
same_bytes (a ∷ ms) (b ∷ ns) = nat_eq a b && same_bytes ms ns
same_bytes _ _ = false

same_bytes-equal : (ms ns : Bytes) → same_bytes ms ns ≡ true → ms ≡ ns
unfolding same_bytes
same_bytes-equal [] [] h = refl
same_bytes-equal (a ∷ ms) (b ∷ ns) h =
    rw
      (
        (nat_eq_iff a b).0 (and-left (nat_eq a b) (same_bytes ms ns) h),
        same_bytes-equal ms ns (and-right (nat_eq a b) (same_bytes ms ns) h),
      )
      refl
same_bytes-equal [] (b ∷ ns) h = cc
same_bytes-equal (a ∷ ms) [] h = cc

unfoldable same_files : Dict Bytes → Dict Bytes → Bool
unfolding same_bytes
same_files [] [] = true
same_files ((m, ms) ∷ xs) ((n, ns) ∷ ys) = (m == n && same_bytes ms ns) && same_files xs ys
same_files _ _ = false

same_files-equal : (xs ys : Dict Bytes) → same_files xs ys ≡ true → xs ≡ ys
unfolding same_files
same_files-equal [] [] h = refl
same_files-equal ((m, ms) ∷ xs) ((n, ns) ∷ ys) h =
    let both = and-left (m == n && same_bytes ms ns) (same_files xs ys) h in
    rw
      (
        (eq_iff m n).0 (and-left (m == n) (same_bytes ms ns) both),
        same_bytes-equal ms ns (and-right (m == n) (same_bytes ms ns) both),
        same_files-equal xs ys (and-right (m == n && same_bytes ms ns) (same_files xs ys) h),
      )
      refl
same_files-equal [] (_ ∷ _) h = cc
same_files-equal (_ ∷ _) [] h = cc

unfoldable pub same_size : ℤ → ℤ → Bool
same_size (pos m) (pos n) = nat_eq m n
same_size _ _ = false

pub same_size-equal : (a b : ℤ) → same_size a b ≡ true → a ≡ b
unfolding same_size
same_size-equal (pos m) (pos n) h = ap pos ((nat_eq_iff m n).0 h)
same_size-equal (pos m) (negsuc n) h = cc
same_size-equal (negsuc m) (pos n) h = cc
same_size-equal (negsuc m) (negsuc n) h = cc

unfoldable same_entry : FileManifest → FileManifest → Bool
unfolding same_size
same_entry a b = a.path == b.path && (same_size a.size b.size && a.sha256 == b.sha256)

same_entry-equal : (a b : FileManifest) → same_entry a b ≡ true → a ≡ b
unfolding same_entry
same_entry-equal a b h =
    let rest = and-right (a.path == b.path) (same_size a.size b.size && a.sha256 == b.sha256) h in
    let p = (eq_iff a.path b.path).0 (and-left (a.path == b.path) _ h) in
    let s = same_size-equal a.size b.size (and-left (same_size a.size b.size) _ rest) in
    let d = (eq_iff a.sha256 b.sha256).0 (and-right (same_size a.size b.size) _ rest) in
    λ i. record { path = p i; size = s i; sha256 = d i }

unfoldable same_entries : List FileManifest → List FileManifest → Bool
unfolding same_entry
same_entries [] [] = true
same_entries (a ∷ ms) (b ∷ ns) = same_entry a b && same_entries ms ns
same_entries _ _ = false

same_entries-equal : (ms ns : List FileManifest) → same_entries ms ns ≡ true → ms ≡ ns
unfolding same_entries
same_entries-equal [] [] h = refl
same_entries-equal (a ∷ ms) (b ∷ ns) h =
    rw
      (
        same_entry-equal a b (and-left (same_entry a b) (same_entries ms ns) h),
        same_entries-equal ms ns (and-right (same_entry a b) (same_entries ms ns) h),
      )
      refl
same_entries-equal [] (b ∷ ns) h = cc
same_entries-equal (a ∷ ms) [] h = cc

unfoldable same_texts : List String → List String → Bool
same_texts [] [] = true
same_texts (a ∷ ms) (b ∷ ns) = a == b && same_texts ms ns
same_texts _ _ = false

abbrev texts_of : Manifest → List String
texts_of m =
    m.artifact_format ∷ m.base_policy_id ∷ m.base_artifact_sha256 ∷ m.override_config_sha256
    ∷ m.effective_config_sha256 ∷ m.validation_digest ∷ m.policy_source.id
    ∷ m.policy_source.repository ∷ m.policy_source.channel ∷ m.policy_source.tag
    ∷ m.policy_source.commit ∷ m.policy_source.tag_object_sha ∷ m.policy_source.archive_sha256
    ∷ m.policy_source.index_sha256 ∷ []

same_texts-equal : (ms ns : List String) → same_texts ms ns ≡ true → ms ≡ ns
unfolding same_texts
same_texts-equal [] [] h = refl
same_texts-equal (a ∷ ms) (b ∷ ns) h =
    rw
      (
        (eq_iff a b).0 (and-left (a == b) (same_texts ms ns) h),
        same_texts-equal ms ns (and-right (a == b) (same_texts ms ns) h),
      )
      refl
same_texts-equal [] (b ∷ ns) h = cc
same_texts-equal (a ∷ ms) [] h = cc

abbrev text_at : ℕ → List String → String
text_at n [] = ""
text_at zero (s ∷ ss) = s
text_at (suc n) (s ∷ ss) = text_at n ss

same_flag : Bool → Bool → Bool
same_flag true b = b
same_flag false b = not b

same_flag-equal : (a b : Bool) → same_flag a b ≡ true → a ≡ b
unfolding same_flag
same_flag-equal true b h = sym h
same_flag-equal false true h = cc
same_flag-equal false false h = refl

unfoldable same_manifest : Manifest → Manifest → Bool
unfolding same_texts same_entries same_size same_flag
same_manifest m n =
    same_texts (texts_of m) (texts_of n)
    && (same_entries m.files n.files
        && (same_size m.schema_version n.schema_version
            && same_flag m.policy_source.tag_verified n.policy_source.tag_verified))

same_manifest-equal : (m n : Manifest) → same_manifest m n ≡ true → m ≡ n
unfolding same_manifest
same_manifest-equal m n h =
    let texts =
      same_texts-equal (texts_of m) (texts_of n)
        (and-left (same_texts (texts_of m) (texts_of n)) _ h) in
    let h1 = and-right (same_texts (texts_of m) (texts_of n)) _ h in
    let files = same_entries-equal m.files n.files (and-left (same_entries m.files n.files) _ h1) in
    let h2 = and-right (same_entries m.files n.files) _ h1 in
    let version =
      same_size-equal m.schema_version n.schema_version
        (and-left (same_size m.schema_version n.schema_version) _ h2) in
    let verified =
      same_flag-equal m.policy_source.tag_verified n.policy_source.tag_verified
        (and-right (same_size m.schema_version n.schema_version) _ h2) in
    λ i. record {
      schema_version = version i;
      artifact_format = text_at 0 (texts i);
      policy_source = record {
        id = text_at 6 (texts i);
        repository = text_at 7 (texts i);
        channel = text_at 8 (texts i);
        tag = text_at 9 (texts i);
        commit = text_at 10 (texts i);
        tag_object_sha = text_at 11 (texts i);
        tag_verified = verified i;
        archive_sha256 = text_at 12 (texts i);
        index_sha256 = text_at 13 (texts i);
      };
      base_policy_id = text_at 1 (texts i);
      base_artifact_sha256 = text_at 2 (texts i);
      override_config_sha256 = text_at 3 (texts i);
      effective_config_sha256 = text_at 4 (texts i);
      validation_digest = text_at 5 (texts i);
      files = files i;
    }

-- It writes this manifest as `{` and one archive with it, and nothing else.
unfoldable pub codec_of : Manifest → Dict Bytes → Codec
unfolding same_manifest same_files same_entries same_texts
codec_of manifest files = record {
  sha256_hex = λ raw. "ab";
  marshal = λ m. if same_manifest m manifest then some (123 ∷ []) else none;
  decode = λ raw. some manifest;
  write_archive = λ written. if same_files written files then some (31 ∷ []) else none;
  read_archive = λ raw. some (regular_entries files);
}

pub codec_of-IsFaithful :
    (manifest : Manifest) (files : Dict Bytes) → IsFaithful (codec_of manifest files)
unfolding codec_of
codec_of-IsFaithful manifest files = record {
  decode-marshal = λ m raw h. by_manifest m (same_manifest m manifest) raw refl h;
  read-write = λ written raw h. by_files written (same_files written files) raw refl h;
  length-write = λ written raw h. by_length (same_files written files) raw h;
}
  where
    by_manifest :
        (m : Manifest) (b : Bool) (raw : Bytes)
        → same_manifest m manifest ≡ b
        → ◌≡◌ {A = Option Bytes} (if b then some (123 ∷ []) else none) (some raw)
        → ◌≡◌ {A = Option Manifest} (some manifest) (some m)
    by_manifest m true raw e h = ap some (sym (same_manifest-equal m manifest e))
    by_manifest m false raw e h = cc

    by_files :
        (written : Dict Bytes) (b : Bool) (raw : Bytes)
        → same_files written files ≡ b
        → ◌≡◌ {A = Option Bytes} (if b then some (31 ∷ []) else none) (some raw)
        → ◌≡◌ {A = Option Entries} (some (regular_entries files)) (some (regular_entries written))
    by_files written true raw e h =
        ap (λ fs. some (regular_entries fs)) (sym (same_files-equal written files e))
    by_files written false raw e h = cc

    by_length :
        (b : Bool) (raw : Bytes)
        → ◌≡◌ {A = Option Bytes} (if b then some (31 ∷ []) else none) (some raw)
        → nat_eq (length raw) 0 ≡ false
    by_length true raw h = ground (arith, h)
    by_length false raw h = cc

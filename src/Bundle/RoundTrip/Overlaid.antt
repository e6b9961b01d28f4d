-- ===== src/Bundle/RoundTrip/Overlaid.antt =====
-- BuildOverride of internal/policybundle/bundle.go, and Parse on what it returns.
use mathlib.Core.Path.{subst}
use m_waf.Common.{
  Bytes, Dict, String, [], ap, arith, clean, erase, false, len, lookup, nat_eq, not, ok, refl,
  refuse-eq-ok, sym, true, ◌&&◌, ◌==◌, ◌∷◌, ◌≡◌,
}
use m_waf.Bundle.Types.{
  Manifest, OverrideInput, OverrideMetadata, PolicySourceRef, contains_name, format_override,
  metadata_required, override_mode_invalid, source_required,
}
use m_waf.Bundle.Codec.{Codec, IsFaithful}
use m_waf.Bundle.Build.{
  build_archive, build_override, collect, describe_all, empty_manifest, manifest_of,
  metadata_missing, mode_unknown, override_files, source_missing, total_size,
}
use m_waf.Bundle.Parse.{
  Validity, allowed, core_files, incomplete, manifest_refused, out_of_order, parse, validity,
}
use m_waf.Bundle.RoundTrip.{CanVerify, misplaced, names_onto, packed}
use m_waf.Bundle.RoundTrip.Built.{
  CanRead-of_names, IsSmall, names_readable, pack-IsPacked, parse_of_pack, small_enough,
}

abbrev only_override : Validity
only_override = record { v2 = false; v3 = false; base = false; override = true }

abbrev pub seed_of : OverrideMetadata → Manifest
seed_of metadata = record empty_manifest {
  base_policy_id = metadata.base_policy_id;
  base_artifact_sha256 = metadata.base_artifact_sha256;
  override_config_sha256 = metadata.override_config_sha256;
  effective_config_sha256 = metadata.effective_config_sha256;
  validation_digest = metadata.validation_digest;
}

abbrev made_of : Codec → PolicySourceRef → OverrideMetadata → Dict Bytes → Manifest
made_of c source metadata listed = manifest_of c source format_override 1 (seed_of metadata) listed

validity_override :
    (c : Codec) (source : PolicySourceRef) (metadata : OverrideMetadata)
    (a b d e f : String × Bytes)
    → metadata_missing metadata ≡ false
    → validity (made_of c source metadata (a ∷ b ∷ d ∷ e ∷ f ∷ [])) ≡ only_override
unfolding validity manifest_of describe_all metadata_missing
validity_override c source metadata a b d e f h =
    λ i. record { v2 = false; v3 = false; base = false; override = complete_metadata i }
  where
    complete_metadata :
        (not (metadata.base_policy_id == "")
          && nat_eq (len metadata.base_artifact_sha256) 64
          && nat_eq (len metadata.override_config_sha256) 64
          && nat_eq (len metadata.effective_config_sha256) 64
          && nat_eq (len metadata.validation_digest) 64)
        ≡ true
    complete_metadata = ground (arith, h)

not_refused-override :
    (m : Manifest)
    → validity m ≡ only_override
    → (m.policy_source.id == "") ≡ false
    → manifest_refused m ≡ false
unfolding manifest_refused validity
not_refused-override m h k =
    let valid = ap (λ (v : Validity). v.override) h in ground (arith, valid, k)

has_source : (source : PolicySourceRef) → source_missing source ≡ false → (source.id == "") ≡ false
unfolding source_missing
has_source source h = ground (arith, h)

module _ (c : Codec) (faithful : IsFaithful c) where
  -- A bundle that BuildOverride returns is parsed to the manifest that BuildOverride returned with it and
  -- to the five rendered files, when the manifest and each of these are at most 8 MiB and together at most
  -- 64 MiB.
  pub build_override-parse :
      (source : PolicySourceRef) (input : OverrideInput) (metadata : OverrideMetadata) (raw : Bytes)
      (m : Manifest)
      → IsSmall c m (override_files input)
      → build_override c source input metadata ≡ ok (raw, m)
      → parse c raw ≡ ok (m, override_files input)
  unfolding build_override build_archive collect override_files lookup manifest_of names_readable
      clean allowed contains_name erase incomplete describe_all total_size misplaced out_of_order
      core_files
  build_override-parse source input metadata raw m small h =
      let (known, h1) = refuse-eq-ok (source_missing source) source_required _ h in
      let (given, h2) = refuse-eq-ok (metadata_missing metadata) metadata_required _ h1 in
      let (mode, h3) =
        refuse-eq-ok (input.include_scalars && mode_unknown input.mode) override_mode_invalid _
          h2 in
      let made : Manifest = made_of c source metadata (override_files input) in
      let valid : validity made ≡ only_override =
        validity_override c source metadata _ _ _ _ _ given in
      let agrees = (pack-IsPacked c format_override made (override_files input) raw m h3).same in
      parse_of_pack c faithful format_override made (override_files input) raw m h3 refl
        (not_refused-override made valid (has_source source known))
        λ manifest_raw e. (
          CanRead-of_names (packed c manifest_raw (override_files input)) [] 0 refl
              (small_enough c made m manifest_raw (override_files input) agrees small e),
          subst
              (λ v.
                CanVerify v (core_files v) [] (packed c manifest_raw (override_files input))
                  (override_files input))
              (sym valid) (refl, refl, (refl, refl, (refl, refl, (refl, refl, (refl, refl, tt))))),
          subst
              (λ v.
                incomplete v (names_onto [] (override_files input))
                  (packed c manifest_raw (override_files input))
                ≡ false)
              (sym valid) refl,
          refl,
        )

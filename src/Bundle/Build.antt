-- ===== src/Bundle/Build.antt =====
-- Building: Build, BuildWithCRS, BuildBaseWithCRS, BuildOverride and buildArchive of
-- internal/policybundle/bundle.go. A nil slice in a map stands for an absent key.
use m_waf.Common.{
  Bool, Bytes, Dict, List, Result, String, [], bind, bytes, clean, false, if◌then◌else◌, insert,
  is_some, len, length, lookup, ltb, nat_eq, not, ok, or_err, pos, refuse, sort, starts_with, ℕ,
  ◌&&◌, ◌*◌, ◌++◌, ◌+◌, ◌==◌, ◌||◌, ◌∷◌,
}
use m_waf.Bundle.Types.{
  BundleError, FileManifest, Input, Manifest, OverrideInput, OverrideMetadata, PolicySourceRef,
  archive_failed, base_id_required, base_ordered_files, bundle_too_large, crs_setup_required,
  file_missing, files_too_large, format_base, format_override, format_v2, format_v3, marshal_failed,
  metadata_required, mode_invalid, ordered_files, override_mode_invalid, override_ordered_files,
  source_required, unsafe_crs_file,
}
use m_waf.Bundle.Render.{
  render_after, render_before, render_engine, render_service_rules, render_setup, render_setup_v3,
  render_setup_values,
}
use m_waf.Bundle.Codec.{Codec}

abbrev pub Fallible : Type 0 → Type 0
Fallible A = Result BundleError A

abbrev pub mib : ℕ → ℕ
mib n = n * 1048576

-- the check that every builder begins with
unfoldable pub source_missing : PolicySourceRef → Bool
source_missing source =
    source.id == "" || source.commit == "" || not (nat_eq (len source.index_sha256) 64)

unfoldable pub mode_unknown : String → Bool
mode_unknown mode = not (mode == "DetectionOnly") && not (mode == "On")

abbrev pub empty_manifest : Manifest
empty_manifest = record {
  schema_version = pos 0;
  artifact_format = "";
  policy_source = record {
    id = "";
    repository = "";
    channel = "";
    tag = "";
    commit = "";
    tag_object_sha = "";
    tag_verified = false;
    archive_sha256 = "";
    index_sha256 = "";
  };
  base_policy_id = "";
  base_artifact_sha256 = "";
  override_config_sha256 = "";
  effective_config_sha256 = "";
  validation_digest = "";
  files = [];
}

-- the loop of `buildArchive` over `names`: the listed files in order
unfoldable pub collect : Dict Bytes → List String → Fallible (Dict Bytes)
collect files [] = ok []
collect files (name ∷ names) =
    bind (or_err (lookup name files) (file_missing name))
      λ raw. bind (collect files names) λ rest. ok ((name, raw) ∷ rest)

unfoldable pub total_size : Dict Bytes → ℕ
total_size [] = 0
total_size ((name, raw) ∷ rest) = length raw + total_size rest

abbrev pub self_contained : String → Bool
self_contained format = format == format_v3 || format == format_base

-- the six rendered files of Build, BuildWithCRS and BuildBaseWithCRS, under the given names
abbrev rendered : List String → String → String → Input → Dict Bytes
rendered (a ∷ b ∷ d ∷ e ∷ f ∷ g ∷ []) setup rules input =
    (a, bytes (render_engine input.mode input.request_body input.response_body))
    ∷ (b, bytes setup)
    ∷ (d, bytes (render_before input))
    ∷ (e, bytes rules)
    ∷ (f, bytes (render_after input))
    ∷ (g, bytes (render_service_rules input))
    ∷ []
rendered _ setup rules input = []

unfoldable pub core_files_v2 : Input → Dict Bytes
core_files_v2 input =
    rendered ordered_files (render_setup input.crs_setup)
      "# Immutable OWASP CRS rules supplied by the signed module package.\nInclude /usr/share/mwaf/crs/rules/*.conf\n"
      input

unfoldable pub unsafe_crs_name : String → Bytes → Bool
unsafe_crs_name name raw =
    not (clean name == name)
    || not (starts_with name "crs/")
    || starts_with name "crs/../"
    || ltb (mib 8) (length raw)

-- The loop over `crsFiles`: Go visits the map in any order, so the file named by the error may be
-- another unsafe one.
unfoldable pub add_crs_files : Dict Bytes → Dict Bytes → Fallible (Dict Bytes × List String)
add_crs_files files [] = ok (files, [])
add_crs_files files ((name, raw) ∷ rest) =
    refuse (unsafe_crs_name name raw) (unsafe_crs_file name)
      (bind (add_crs_files (insert name raw files) rest) λ r. ok (r.0, name ∷ r.1))

unfoldable pub core_files_v3 : Input → Dict Bytes
core_files_v3 input =
    rendered ordered_files (render_setup_v3 input.crs_setup)
      "# Immutable OWASP CRS rules carried by this signed policy revision.\nInclude /etc/mwaf/active/crs/rules/*.conf\n"
      input

unfoldable pub core_files_base : Input → Dict Bytes
core_files_base input =
    rendered base_ordered_files (render_setup_v3 input.crs_setup)
      "# Immutable OWASP CRS rules carried by this signed base policy.\nInclude /etc/mwaf/active/crs/rules/*.conf\n"
      input

abbrev digest_missing : String → Bool
digest_missing digest = not (nat_eq (len digest) 64)

unfoldable pub metadata_missing : OverrideMetadata → Bool
metadata_missing m =
    m.base_policy_id == ""
    || digest_missing m.base_artifact_sha256
    || digest_missing m.override_config_sha256
    || digest_missing m.effective_config_sha256
    || digest_missing m.validation_digest

-- `Input{Exclusions: …, CustomRules: …, IPRules: …}`
abbrev pub overlay : OverrideInput → Input
overlay input = record {
  mode = "";
  request_body = false;
  response_body = false;
  crs_setup = [];
  before = [];
  after = [];
  target = [];
  excluded_paths = [];
  excluded_ips = [];
  system_rules = "";
  enterprise_rules = "";
  exclusions = input.exclusions;
  custom_rules = input.custom_rules;
  ip_rules = input.ip_rules;
}

unfoldable pub override_files : OverrideInput → Dict Bytes
override_files input =
    let engine =
      if input.include_scalars
      then render_engine input.mode input.request_body input.response_body
      else "# Enterprise policy inherits base engine settings.\n" in
    let setup =
      if input.include_scalars
      then render_setup_values input.crs_setup 3000
      else "# Enterprise policy inherits base CRS setup.\n" in
    ("10-enterprise-engine.conf", bytes engine)
    ∷ ("25-enterprise-crs-setup.conf", bytes setup)
    ∷ ("35-enterprise-before-crs-exclusions.conf", bytes (render_before (overlay input)))
    ∷ ("55-enterprise-after-crs-exclusions.conf", bytes (render_after (overlay input)))
    ∷ ("65-enterprise-service-rules.conf", bytes (render_service_rules (overlay input)))
    ∷ []

module _ (c : Codec) where
  abbrev pub describe : String → Bytes → FileManifest
  describe name raw = record { path = name; size = pos (length raw); sha256 = c.sha256_hex raw }

  unfoldable pub describe_all : Dict Bytes → List FileManifest
  describe_all [] = []
  describe_all ((name, raw) ∷ rest) = describe name raw ∷ describe_all rest

  -- from the size check on
  unfoldable pub pack : String → Manifest → Dict Bytes → Fallible (Bytes × Manifest)
  pack format manifest listed =
      refuse (self_contained format && ltb (mib 64) (total_size listed)) files_too_large (
        bind (or_err (c.marshal manifest) marshal_failed) λ encoded.
          bind
            (or_err (c.write_archive (("manifest.json", encoded ++ 10 ∷ []) ∷ listed))
              archive_failed)
            λ output.
              refuse (ltb (if self_contained format then mib 64 else mib 4) (length output))
                bundle_too_large (ok (output, manifest)))

  unfoldable pub manifest_of : PolicySourceRef → String → ℕ → Manifest → Dict Bytes → Manifest
  manifest_of source format schema_version seed listed = record seed {
    schema_version = pos schema_version;
    artifact_format = format;
    policy_source = source;
    files = describe_all listed;
  }

  unfoldable pub build_archive :
      PolicySourceRef
      → String
      → ℕ
      → Dict Bytes
      → List String
      → Manifest
      → Fallible (Bytes × Manifest)
  build_archive source format schema_version files names seed =
      bind (collect files names)
        λ listed. pack format (manifest_of source format schema_version seed listed) listed

  unfoldable pub build : PolicySourceRef → Input → Fallible (Bytes × Manifest)
  build source input = refuse (source_missing source) source_required (
      refuse (mode_unknown input.mode) mode_invalid
        (build_archive source format_v2 2 (core_files_v2 input) ordered_files empty_manifest))

  unfoldable pub build_with_crs : PolicySourceRef → Input → Dict Bytes → Fallible (Bytes × Manifest)
  build_with_crs source input crs_files = refuse (source_missing source) source_required (
      refuse (mode_unknown input.mode) mode_invalid (
        refuse (not (is_some (lookup "crs/crs-setup.conf" crs_files))) crs_setup_required (
          bind (add_crs_files (core_files_v3 input) crs_files)
            λ r. build_archive source format_v3 3 r.0 (ordered_files ++ sort r.1) empty_manifest)))

  unfoldable pub build_base_with_crs :
      String → PolicySourceRef → Input → Dict Bytes → Fallible (Bytes × Manifest)
  build_base_with_crs base_policy_id source input crs_files =
      refuse (base_policy_id == "") base_id_required (
        refuse (source_missing source) source_required (
          refuse (mode_unknown input.mode) mode_invalid (
            refuse (not (is_some (lookup "crs/crs-setup.conf" crs_files))) crs_setup_required (
              bind (add_crs_files (core_files_base input) crs_files) λ r.
                build_archive source format_base 1 r.0 (base_ordered_files ++ sort r.1)
                  (record empty_manifest { base_policy_id = base_policy_id })))))

  unfoldable pub build_override :
      PolicySourceRef → OverrideInput → OverrideMetadata → Fallible (Bytes × Manifest)
  build_override source input metadata = refuse (source_missing source) source_required (
      refuse (metadata_missing metadata) metadata_required (
        refuse (input.include_scalars && mode_unknown input.mode) override_mode_invalid (
          build_archive source format_override 1 (override_files input) override_ordered_files
            (record empty_manifest {
              base_policy_id = metadata.base_policy_id;
              base_artifact_sha256 = metadata.base_artifact_sha256;
              override_config_sha256 = metadata.override_config_sha256;
              effective_config_sha256 = metadata.effective_config_sha256;
              validation_digest = metadata.validation_digest;
            }))))

-- ===== src/Tests/Builders.antt =====
-- A bundle that policybundle.Build (internal/policybundle/bundle.go) makes and Parse reads.
use m_waf.Common.{
  Bytes, Dict, List, String, [], ap, arith, bytes, false, length, lookup, ok, pos, refl, sort, sym,
  trim_space, true, ℕ, ◌+◌, ◌∷◌, ◌≡◌, ◌≤◌,
}
use m_waf.Bundle.Types.{
  FileManifest, Input, Manifest, OverrideInput, OverrideMetadata, PolicySourceRef, format_override,
  format_v2,
}
use m_waf.Bundle.Build.{
  build, build_archive, build_override, collect, core_files_v2, describe_all, empty_manifest,
  manifest_of, metadata_missing, mib, mode_unknown, override_files, pack, source_missing,
  total_size,
}
use m_waf.Bundle.Render.{
  render_after, render_before, render_engine, render_service_rules, render_setup,
  render_setup_values,
}
use m_waf.Bundle.RoundTrip.Built.{EachSmall, IsSmall, build-parse}
use m_waf.Tests.Codecs.{codec_of, codec_of-IsFaithful}
use m_waf.Bundle.Parse.{parse}
use m_waf.Bundle.RoundTrip.Overlaid.{build_override-parse, seed_of}
use mathlib.Core.Option.{some_inj}

abbrev source : PolicySourceRef
source = record {
  id = "crs";
  repository = "coreruleset";
  channel = "lts";
  tag = "v4.25.0";
  commit = "c0";
  tag_object_sha = "t0";
  tag_verified = true;
  archive_sha256 = "a0";
  index_sha256 = "0123456789abcdef0123456789abcdef0123456789abcdef0123456789abcdef";
}

abbrev input : Input
input = record {
  mode = "On";
  request_body = true;
  response_body = false;
  crs_setup = [];
  before = [];
  after = [];
  target = [];
  excluded_paths = [];
  excluded_ips = [];
  system_rules = "";
  enterprise_rules = "";
  exclusions = [];
  custom_rules = [];
  ip_rules = [];
}

abbrev described : String → Bytes → FileManifest
described name raw = record { path = name; size = pos (length raw); sha256 = "ab" }

describe_each : Dict Bytes → List FileManifest
describe_each [] = []
describe_each ((name, raw) ∷ files) = described name raw ∷ describe_each files

made : Manifest
unfolding describe_each core_files_v2
made = record empty_manifest {
  schema_version = pos 2;
  artifact_format = format_v2;
  policy_source = source;
  files = describe_each (core_files_v2 input);
}

files_of_bundle : Dict Bytes
unfolding core_files_v2
files_of_bundle = ("manifest.json", 123 ∷ 10 ∷ []) ∷ core_files_v2 input

built : build (codec_of made files_of_bundle) source input ≡ ok (31 ∷ [], made)
unfolding build build_archive pack manifest_of describe_all collect total_size core_files_v2 lookup
    source_missing mode_unknown codec_of made describe_each files_of_bundle bytes render_engine
    render_setup sort render_before render_after render_service_rules trim_space
built = refl

-- files of at most 8 MiB together are small
small_of_total :
    (n : ℕ) (files : Dict Bytes)
    → (n + 1) + total_size files ≤ mib 8
    → (n + 1 ≤ mib 8) × EachSmall files × ((n + 1) + total_size files ≤ mib 64)
unfolding total_size
small_of_total n files h = (omega (arith, h), each files (omega (arith, h)), omega (arith, h))
  where
    each : (files : Dict Bytes) → total_size files ≤ mib 8 → EachSmall files
    each [] h = tt
    each ((name, raw) ∷ rest) h = (omega (arith, h), each rest (omega (arith, h)))

rendered_size : (1 + 1) + total_size (core_files_v2 input) ≤ mib 8
unfolding total_size core_files_v2 bytes render_engine render_setup sort render_before render_after
    render_service_rules trim_space
rendered_size = omega arith

built-IsSmall : IsSmall (codec_of made files_of_bundle) made (core_files_v2 input)
unfolding codec_of made describe_each core_files_v2 bytes render_engine render_setup sort
    render_before render_after render_service_rules trim_space
built-IsSmall encoded h =
    rw (ap (λ e. length e) (sym ((some_inj).0 h)))
      (small_of_total 1 (core_files_v2 input) rendered_size)

build-parse_example :
    parse (codec_of made files_of_bundle) (31 ∷ []) ≡ ok (made, core_files_v2 input)
build-parse_example =
    build-parse (codec_of made files_of_bundle) (codec_of-IsFaithful made files_of_bundle) source
      input (31 ∷ []) made built-IsSmall built

-- an override with its own scalars
abbrev override_input : OverrideInput
override_input = record {
  include_scalars = true;
  mode = "On";
  request_body = true;
  response_body = false;
  crs_setup = [];
  exclusions = [];
  custom_rules = [];
  ip_rules = [];
}

abbrev digest : String
digest = "0123456789abcdef0123456789abcdef0123456789abcdef0123456789abcdef"

abbrev metadata : OverrideMetadata
metadata = record {
  base_policy_id = "b1";
  base_artifact_sha256 = digest;
  override_config_sha256 = digest;
  effective_config_sha256 = digest;
  validation_digest = digest;
}

rendering_override : Unit {0}
unfolding override_files bytes render_engine render_setup_values sort render_before render_after
    render_service_rules trim_space
rendering_override = tt

made_override : Manifest
unfolding describe_each override_files
made_override = record (seed_of metadata) {
  schema_version = pos 1;
  artifact_format = format_override;
  policy_source = source;
  files = describe_each (override_files override_input);
}

files_of_override : Dict Bytes
unfolding override_files
files_of_override = ("manifest.json", 123 ∷ 10 ∷ []) ∷ override_files override_input

override_built :
    build_override (codec_of made_override files_of_override) source override_input metadata
    ≡ ok (31 ∷ [], made_override)
unfolding rendering_override build_override build_archive pack manifest_of describe_all collect
    total_size lookup source_missing metadata_missing mode_unknown codec_of made_override
    describe_each files_of_override
override_built = refl

override_size : (1 + 1) + total_size (override_files override_input) ≤ mib 8
unfolding rendering_override total_size
override_size = omega arith

override_built-IsSmall :
    IsSmall (codec_of made_override files_of_override) made_override (override_files override_input)
unfolding rendering_override codec_of made_override describe_each
override_built-IsSmall encoded h =
    rw (ap (λ e. length e) (sym ((some_inj).0 h)))
      (small_of_total 1 (override_files override_input) override_size)

build_override-parse_example :
    parse (codec_of made_override files_of_override) (31 ∷ [])
    ≡ ok (made_override, override_files override_input)
build_override-parse_example =
    build_override-parse (codec_of made_override files_of_override)
      (codec_of-IsFaithful made_override files_of_override) source override_input metadata (31 ∷ [])
      made_override override_built-IsSmall override_built

-- ===== src/Tests/Bundles.antt =====
-- A bundle of the second format that policybundle.Parse (internal/policybundle/bundle.go) accepts.
use m_waf.Common.{
  Bytes, Dict, List, String, [], clean, equal_fold, erase, insert, lookup, map, ok, pos, refl, some,
  true, ◌∷◌, ◌≡◌,
}
use m_waf.Bundle.Types.{
  FileManifest, Manifest, PolicySourceRef, contains_name, format_v2, ordered_files,
}
use m_waf.Bundle.Codec.{Codec, regular_entries}
use m_waf.Bundle.Parse.{
  allowed, check_entry, complete, core_files, incomplete, limited, manifest_refused, out_of_order,
  parse, read_entries, refused, validity, verify, verify_files, with_encoded, with_entries,
  with_files,
}
use m_waf.Bundle.Parse.Accept.{IsVerified, parse-IsVerified}

parsing : Unit {0}
unfolding parse with_entries read_entries refused allowed limited complete with_files with_encoded
    verify manifest_refused validity core_files verify_files check_entry out_of_order incomplete
    contains_name lookup insert erase clean equal_fold
parsing = tt

abbrev source : PolicySourceRef
source = record {
  id = "crs";
  repository = "coreruleset";
  channel = "lts";
  tag = "v4.25.0";
  commit = "c0";
  tag_object_sha = "t0";
  tag_verified = true;
  archive_sha256 = "a0";
  index_sha256 = "i0";
}

abbrev described : String → FileManifest
described name = record { path = name; size = pos 1; sha256 = "AB" }

abbrev manifest : Manifest
manifest = record {
  schema_version = pos 2;
  artifact_format = format_v2;
  policy_source = source;
  base_policy_id = "";
  base_artifact_sha256 = "";
  override_config_sha256 = "";
  effective_config_sha256 = "";
  validation_digest = "";
  files = map described ordered_files;
}

abbrev with_content : List String → Dict Bytes
with_content names = map (λ name. (name, 7 ∷ [])) names

abbrev codec : Codec
codec = record {
  sha256_hex = λ raw. "ab";
  marshal = λ m. some (123 ∷ []);
  decode = λ raw. some manifest;
  write_archive = λ files. some (31 ∷ []);
  read_archive = λ raw. some (regular_entries (with_content ("manifest.json" ∷ ordered_files)));
}

parse_accepts : parse codec (31 ∷ []) ≡ ok (manifest, with_content ordered_files)
unfolding parsing
parse_accepts = refl

parse-IsVerified_example : IsVerified codec manifest (with_content ordered_files)
parse-IsVerified_example =
    parse-IsVerified codec (31 ∷ []) manifest (with_content ordered_files) parse_accepts

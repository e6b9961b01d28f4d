-- ===== src/Tests/Servers.antt =====
-- A server and a split policy for it, whose key verifies every signature but one, for the tests of
-- internal/agent.
use m_waf.Common.{
  Bool, Bytes, Dict, List, String, [], false, if◌then◌else◌, map, nat_eq, none, pos, some, true, ℕ,
  ◌++◌, ◌==◌, ◌∷◌,
}
use m_waf.Bundle.Types.{
  FileManifest, Manifest, PolicySourceRef, base_ordered_files, format_base, format_override,
  format_v3, override_ordered_files,
}
use m_waf.Bundle.Codec.{Codec, regular_entries}
use m_waf.Agent.Host.{World, link}
use m_waf.Agent.Verify.{Crypto, IsAuthentic, ed25519}
use m_waf.Agent.Policy.Server.{Applier, DesiredState}

abbrev pub digest : String
digest = "0123456789abcdef0123456789abcdef0123456789abcdef0123456789abcdef"

abbrev pub source : PolicySourceRef
source = record {
  id = "crs";
  repository = "coreruleset";
  channel = "lts";
  tag = "v4.25.0";
  commit = "c0";
  tag_object_sha = "t0";
  tag_verified = true;
  archive_sha256 = digest;
  index_sha256 = digest;
}

abbrev pub base_names : List String
base_names = base_ordered_files ++ "crs/crs-setup.conf" ∷ []

abbrev pub listed : List String → List FileManifest
listed names = map (λ name. record { path = name; size = pos 1; sha256 = digest }) names

abbrev pub base_manifest : Manifest
base_manifest = record {
  schema_version = pos 1;
  artifact_format = format_base;
  policy_source = source;
  base_policy_id = "b1";
  base_artifact_sha256 = "";
  override_config_sha256 = "";
  effective_config_sha256 = "";
  validation_digest = "";
  files = listed base_names;
}

abbrev pub override_manifest : Manifest
override_manifest = record {
  schema_version = pos 1;
  artifact_format = format_override;
  policy_source = source;
  base_policy_id = "b1";
  base_artifact_sha256 = digest;
  override_config_sha256 = digest;
  effective_config_sha256 = digest;
  validation_digest = digest;
  files = listed override_ordered_files;
}

abbrev pub content : ℕ → List String → Dict Bytes
content n names = map (λ name. (name, n ∷ [])) names

abbrev pub is_base : Bytes → Bool
is_base [] = false
is_base (n ∷ _) = nat_eq n 1

-- The artifact of the base is the byte 1, that of the override the byte 2.
abbrev pub codec : Codec
codec = record {
  sha256_hex = λ raw. digest;
  marshal = λ m. some (123 ∷ []);
  decode = λ raw. some (if is_base raw then base_manifest else override_manifest);
  write_archive = λ files. some (31 ∷ []);
  read_archive = λ raw. some (
      regular_entries (
        if is_base raw
        then content 1 ("manifest.json" ∷ base_names)
        else content 2 ("manifest.json" ∷ override_ordered_files)));
}

abbrev pub has_signature : Bytes → Bool
has_signature [] = false
has_signature (_ ∷ _) = true

-- every signature but "bad" verifies
abbrev pub crypto : Crypto
crypto = record {
  codec = codec;
  key_file = some (1 ∷ []);
  pem_decode = λ raw. some raw;
  parse_key = λ block. some (ed25519 block);
  base64_decode = λ encoded. if encoded == "bad" then some [] else some (9 ∷ []);
  ed25519_verify = λ key artifact signature. has_signature signature;
}

abbrev pub applier : Applier
applier = record {
  policy_path = "/etc/mwaf/active/main.conf";
  web_server_binary = "";
  web_server_control = "";
  crypto = crypto;
  now = 100;
  has_apachectl = true;
}

abbrev pub desired : DesiredState
desired = record {
  revision_id = "r2";
  artifact_format = format_override;
  sha256 = digest;
  signature = "s";
  mode = "On";
  base_policy = some (record { id = "b1"; format = format_base; sha256 = digest; signature = "s" });
  override_policy = some (record {
    revision_id = "r2";
    format = format_override;
    sha256 = digest;
    signature = "s";
    override_config_sha256 = digest;
    effective_config_sha256 = digest;
    validation_digest = digest;
  });
}

abbrev pub host : World
host = record {
  active = link "/etc/mwaf/revisions/r1";
  dirs = ("/etc/mwaf/revisions/r1", []) ∷ [];
  previous_policy = none;
  previous_revision = none;
  commands = [];
  faults = [];
}

abbrev pub forged : DesiredState
forged = record desired { artifact_format = format_v3; signature = "bad" }

pub forged-unauthentic : ¬ (IsAuthentic crypto (1 ∷ []) forged.sha256 forged.signature)
forged-unauthentic h = cc

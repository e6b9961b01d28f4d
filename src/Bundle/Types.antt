-- ===== src/Bundle/Types.antt =====
-- The data of internal/policybundle/bundle.go, and the source reference and rule conditions of
-- internal/systempolicy/catalog.go that it names. Rule ids are not negative.
use m_waf.Common.{Bool, Dict, List, String, [], false, ℕ, ℤ, ◌==◌, ◌||◌, ◌∷◌}

pub record PolicySourceRef : Type 0 where
  pub id : String
  pub repository : String
  pub channel : String
  pub tag : String
  pub commit : String
  pub tag_object_sha : String
  pub tag_verified : Bool
  pub archive_sha256 : String
  pub index_sha256 : String

-- systempolicy.RuleCondition and policybundle.Condition have the same fields.
pub record Condition : Type 0 where
  pub field : String
  pub operator : String
  pub value : String

pub record RuleExclusion : Type 0 where
  pub rule_id : ℕ
  pub conditions : List Condition

pub record TargetExclusion : Type 0 where
  pub rule_id : ℕ
  pub target : String
  pub conditions : List Condition

pub record Exclusion : Type 0 where
  pub type : String
  pub load_stage : String
  pub rule_id : ℕ
  pub rule_tag : String
  pub target : String
  pub generated_rule_id : ℕ
  pub enabled : Bool
  pub conditions : List Condition

pub record CustomRule : Type 0 where
  pub rule_id : ℕ
  pub scope : String
  pub canonical : String
  pub enabled : Bool

pub record IpRule : Type 0 where
  pub action : String
  pub network : String
  pub generated_rule_id : ℕ
  pub enabled : Bool

pub record Input : Type 0 where
  pub mode : String
  pub request_body : Bool
  pub response_body : Bool
  pub crs_setup : Dict String
  pub before : List RuleExclusion
  pub after : List RuleExclusion
  pub target : List TargetExclusion
  pub excluded_paths : List String
  pub excluded_ips : List String
  pub system_rules : String
  pub enterprise_rules : String
  pub exclusions : List Exclusion
  pub custom_rules : List CustomRule
  pub ip_rules : List IpRule

pub record OverrideInput : Type 0 where
  pub include_scalars : Bool
  pub mode : String
  pub request_body : Bool
  pub response_body : Bool
  pub crs_setup : Dict String
  pub exclusions : List Exclusion
  pub custom_rules : List CustomRule
  pub ip_rules : List IpRule

pub record OverrideMetadata : Type 0 where
  pub base_policy_id : String
  pub base_artifact_sha256 : String
  pub override_config_sha256 : String
  pub effective_config_sha256 : String
  pub validation_digest : String

pub record FileManifest : Type 0 where
  pub path : String
  pub size : ℤ
  pub sha256 : String

pub record Manifest : Type 0 where
  pub schema_version : ℤ
  pub artifact_format : String
  pub policy_source : PolicySourceRef
  pub base_policy_id : String
  pub base_artifact_sha256 : String
  pub override_config_sha256 : String
  pub effective_config_sha256 : String
  pub validation_digest : String
  pub files : List FileManifest

abbrev pub format_v2 : String
format_v2 = "policy-bundle-v2"

abbrev pub format_v3 : String
format_v3 = "policy-bundle-v3"

abbrev pub format_base : String
format_base = "policy-base-v1"

abbrev pub format_override : String
format_override = "policy-override-v1"

abbrev pub ordered_files : List String
ordered_files =
    "00-engine.conf" ∷ "20-crs-setup.conf" ∷ "30-before-crs-exclusions.conf" ∷ "40-crs-rules.conf"
    ∷ "50-after-crs-exclusions.conf" ∷ "60-service-rules.conf" ∷ []

abbrev pub base_ordered_files : List String
base_ordered_files =
    "00-base-engine.conf" ∷ "20-base-crs-setup.conf" ∷ "30-base-before-crs-exclusions.conf"
    ∷ "40-base-crs-rules.conf" ∷ "50-base-after-crs-exclusions.conf" ∷ "60-base-service-rules.conf"
    ∷ []

abbrev pub override_ordered_files : List String
override_ordered_files =
    "10-enterprise-engine.conf" ∷ "25-enterprise-crs-setup.conf"
    ∷ "35-enterprise-before-crs-exclusions.conf" ∷ "55-enterprise-after-crs-exclusions.conf"
    ∷ "65-enterprise-service-rules.conf" ∷ []

unfoldable pub contains_name : List String → String → Bool
contains_name [] target = false
contains_name (value ∷ values) target = value == target || contains_name values target

-- Each error that the package makes.
pub data BundleError : Type 0 where
  source_required mode_invalid crs_setup_required base_id_required : BundleError
  metadata_required override_mode_invalid files_too_large marshal_failed : BundleError
  archive_failed bundle_too_large : BundleError
  unsafe_crs_file file_missing : String → BundleError
  size_invalid gzip_failed tar_failed read_entry_failed manifest_missing : BundleError
  manifest_undecodable manifest_invalid invalid_file core_order crs_payload : BundleError
  invalid_crs_path unexpected_file unlisted_files : BundleError
  unsafe_entry failed_verification : String → BundleError

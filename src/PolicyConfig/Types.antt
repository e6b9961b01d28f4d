-- ===== src/PolicyConfig/Types.antt =====
-- The configuration of a policy (internal/manager/policy_configuration.go). A time is a number of
-- nanoseconds since the epoch.
use m_waf.Common.{
  Bool, List, Option, Result, String, [], bind, false, int_eq, leb, negsuc, ok, pos, ℕ, ℤ, ◌&&◌,
  ◌==◌, ◌||◌, ◌∷◌,
}

pub record SetupValue : Type 0 where
  pub key : String
  pub value : String
  pub source_scope : String

pub record ExclusionCondition : Type 0 where
  pub field : String
  pub operator : String
  pub value : String
  pub order : ℤ

pub record PolicyExclusion : Type 0 where
  pub id : String
  pub source_scope : String
  pub type_name : String
  pub load_stage : String
  pub rule_id : ℤ
  pub rule_tag : String
  pub target : String
  pub generated_rule_id : ℤ
  pub reason : String
  pub expires_at : Option ℕ
  pub enabled : Bool
  pub legacy : Bool
  pub order : ℤ
  pub conditions : List ExclusionCondition

pub record PolicyCustomRule : Type 0 where
  pub id : String
  pub source_scope : String
  pub rule_id : ℤ
  pub name : String
  pub phase : String
  pub severity : String
  pub canonical_sec_rule : String
  pub content_sha256 : String
  pub enabled : Bool
  pub legacy_id_range : Bool
  pub order : ℤ

pub record PolicyIpRule : Type 0 where
  pub id : String
  pub source_scope : String
  pub action : String
  pub network : String
  pub generated_rule_id : ℤ
  pub reason : String
  pub expires_at : Option ℕ
  pub created_by : String
  pub enabled : Bool
  pub order : ℤ

pub record PolicyConfiguration : Type 0 where
  pub id : String
  pub system_policy_version_id : String
  pub policy_revision_id : String
  pub crs_release_id : String
  pub engine_mode : String
  pub blocking_paranoia_level : ℤ
  pub executing_paranoia_level : ℤ
  pub inbound_anomaly_threshold : ℤ
  pub outbound_anomaly_threshold : ℤ
  pub request_body_access : Bool
  pub response_body_access : Bool
  pub early_blocking : Bool
  pub sampling_percentage : ℤ
  pub rule_id_namespace_version : ℤ
  pub config_sha256 : String
  pub setup : List SetupValue
  pub exclusions : List PolicyExclusion
  pub custom_rules : List PolicyCustomRule
  pub ip_rules : List PolicyIpRule

-- What the checks take from Go's library: strings.ToLower, net.ParseIP and net.ParseCIDR with no
-- error, the parsing and printing of netip, and what the three regular expressions of policy_config.go
-- find (`custom_rule_id` is the group of digits behind `id:`).
pub record Matchers : Type 0 where
  pub to_lower : String → String
  pub is_ip : String → Bool
  pub is_cidr : String → Bool
  pub canonical_network : String → Option String
  pub custom_rule_id : String → Option String
  pub forbidden_rule_token : String → Bool
  pub forbidden_rule_action : String → Bool

pub data ConfigError : Type 0 where
  rules_too_long : ConfigError
  not_one_directive forbidden_content quotes_invalid actions_invalid id_required id_not_unique :
      ℕ → ConfigError
  exclusion_invalid : String → ConfigError
  owner_invalid engine_mode_invalid levels_invalid thresholds_invalid percentage_invalid :
      ConfigError
  namespace_unsupported setup_invalid generated_id_invalid : ConfigError
  ip_rule_invalid network_not_canonical ip_rule_repeated ip_reason_required : ConfigError
  trust_expiry_invalid block_expiry_invalid ip_id_invalid : ConfigError
  custom_rule_incomplete rule_not_canonical rule_without_id rule_id_differs : ConfigError
  rule_outside_namespace legacy_rule_outside rule_id_repeated namespace_exhausted : ConfigError

abbrev pub Checking : Type 0 → Type 0
Checking = Result ConfigError

-- lo <= z && z <= hi
abbrev pub within : ℕ → ℤ → ℕ → Bool
within lo (pos n) hi = leb lo n && leb n hi
within lo (negsuc n) hi = false

-- a key of `map[int]bool` that holds true
abbrev pub has_id : List ℤ → ℤ → Bool
has_id [] z = false
has_id (y ∷ ys) z = int_eq y z || has_id ys z

-- validPolicyScope
abbrev pub valid_policy_scope : String → Bool
valid_policy_scope value = value == "SYSTEM" || value == "ENTERPRISE"

-- isLegacyPolicyRuleID
abbrev pub is_legacy_policy_rule_id : ℤ → Bool
is_legacy_policy_rule_id id = within 100000 id 199999 || within 240000 id 249999

-- the rule ids of a scope
abbrev pub scope_range : String → ℤ → Bool
scope_range scope id =
    scope == "SYSTEM" && within 10000 id 39999 || scope == "ENTERPRISE" && within 40000 id 89999

-- a loop over a slice that may return an error
abbrev pub for_each : {A S : Type 0} → (A → S → Checking S) → List A → S → Checking S
for_each check [] s = ok s
for_each check (x ∷ xs) s = bind (check x s) (for_each check xs)

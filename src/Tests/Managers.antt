-- ===== src/Tests/Managers.antt =====
-- Concrete templates, configurations and sessions of internal/systempolicy and internal/manager.
use m_waf.Common.{
  All, List, String, [], arith, base, bytes, ext, false, inl, insert, lookup, ltb, none, ok, pos,
  refl, replace_char, some, split, trim_space, true, ℤ, ◌==◌, ◌∷◌, ◌≡◌, ◌≤◌,
}
use m_waf.Bundle.Types.{PolicySourceRef}
use m_waf.SystemPolicy.Template.{
  Defaults, IsSound, Template, check_source, missing_fields, reference, trim_v, validate,
}
use m_waf.SystemPolicy.Sound.{validate-IsSound}
use m_waf.PolicyConfig.Types.{
  Matchers, PolicyConfiguration, PolicyCustomRule, PolicyExclusion, PolicyIpRule,
}
use m_waf.PolicyConfig.Rules.{
  atoi, check_line, check_lines, check_syntax, contains_any, safe_custom_rules, sec_rule_actions,
  valid_sec_rule_quotes,
}
use m_waf.PolicyConfig.Validate.{
  check_custom_rule, check_exclusion, check_ip_fields, check_ip_rule, check_rule_text,
  check_scalars, check_setup, reserve_generated, validate_at, validate_policy_exclusion,
}
use m_waf.PolicyConfig.Generated.{
  IsNext, next_generated_policy_rule_id, next_generated_policy_rule_id-IsNext,
}
use m_waf.PolicyConfig.Reserved.{AllNew, after, rule_ids, validate_at-AllNew}
use m_waf.Session.{
  SessionData, as_enterprise_console, as_system_console, can_access_system_management,
  effective_role, enterprise_console_confined, mutation_enterprise_id, no_role, read_enterprise_id,
  scope_enterprise_id, system, system-enterprise_console, system_admin, tenant_scope,
}
use m_waf.Session.Limits.{login_allow}
use m_waf.Session.Limits.Logins.{
  LoginCall, allowed, cleared, count_younger, failed, failures, login_allow-run_calls, run_calls,
  time_of,
}
use m_waf.SystemPolicy.Catalog.{
  Catalog, LifecycleCatalog, TemplateFile, add_item, add_policies, add_templates, add_versions,
  admit, check_default, latest, load, valid_status,
}
use m_waf.SystemPolicy.Loaded.{load-AllSound}

abbrev text_of_64 : String
text_of_64 = "0123456789abcdef0123456789abcdef0123456789abcdef0123456789abcdef"

abbrev pinned_source : PolicySourceRef
pinned_source = record {
  id = "crs";
  repository = "coreruleset";
  channel = "lts";
  tag = "v4.25.0";
  commit = "c0";
  tag_object_sha = "t0";
  tag_verified = true;
  archive_sha256 = text_of_64;
  index_sha256 = text_of_64;
}

abbrev lts_defaults : Defaults
lts_defaults = record {
  mode = "DetectionOnly";
  paranoia_level = pos 1;
  executing_paranoia_level = pos 2;
  inbound_score = pos 5;
  outbound_score = pos 0;
  request_body = true;
  response_body = false;
  early_blocking = false;
  sampling_percentage = pos 100;
  excluded_paths = [];
  excluded_ips = [];
  custom_rules = "";
  custom_rule_count = pos 0;
  crs_source = some pinned_source;
  crs_setup = [];
  before_exclusions = [];
  after_exclusions = [];
  tag_exclusions = [];
  target_exclusions = [];
  engine_bypasses = [];
  artifact_format = "policy-bundle-v3";
  hot_rule_set_version = "";
  hot_rule_set_sha256 = "";
}

abbrev lts_template : Template
lts_template = record {
  schema_version = pos 1;
  key = "crs-lts-baseline";
  version = "1.0.0";
  name = "LTS";
  description = "";
  crs_track = "lts";
  crs_version = "4.25.0";
  defaults = lts_defaults;
  migration_notes = [];
  status = "";
  digest = "";
}

lts_template_valid : validate lts_template ≡ ok tt
unfolding validate missing_fields check_source trim_v
lts_template_valid = refl

validate-IsSound_example : IsSound lts_template
validate-IsSound_example = validate-IsSound lts_template tt lts_template_valid

-- the regular expressions and the parsers, for one rule and one network
abbrev one_rule : String
one_rule = "SecRule REQUEST_URI \"@beginsWith /x\" \"id:40000,phase:1,deny\""

abbrev matchers : Matchers
matchers = record {
  to_lower = λ s. s;
  is_ip = λ s. s == "10.0.0.1";
  is_cidr = λ s. s == "10.0.0.0/8";
  canonical_network = λ s. some s;
  custom_rule_id = λ s. some "40000";
  forbidden_rule_token = λ s. false;
  forbidden_rule_action = λ s. false;
}

abbrev one_exclusion : PolicyExclusion
one_exclusion = record {
  id = "e";
  source_scope = "ENTERPRISE";
  type_name = "RULE";
  load_stage = "BEFORE_CRS";
  rule_id = pos 920100;
  rule_tag = "";
  target = "";
  generated_rule_id = pos 5000;
  reason = "";
  expires_at = none;
  enabled = true;
  legacy = false;
  order = pos 0;
  conditions =
      record {
        field = "REMOTE_ADDR";
        operator = "@ipMatch";
        value = "10.0.0.1 10.0.0.0/8";
        order = pos 0;
      }
      ∷ [];
}

abbrev one_ip_rule : PolicyIpRule
one_ip_rule = record {
  id = "i";
  source_scope = "ENTERPRISE";
  action = "TRUST";
  network = "10.0.0.0/8";
  generated_rule_id = pos 5001;
  reason = "scanner";
  expires_at = some 1000;
  created_by = "ann";
  enabled = true;
  order = pos 0;
}

abbrev one_custom_rule : PolicyCustomRule
one_custom_rule = record {
  id = "c";
  source_scope = "ENTERPRISE";
  rule_id = pos 40000;
  name = "";
  phase = "1";
  severity = "";
  canonical_sec_rule = one_rule;
  content_sha256 = "";
  enabled = true;
  legacy_id_range = false;
  order = pos 0;
}

abbrev configuration : PolicyConfiguration
configuration = record {
  id = "p";
  system_policy_version_id = "";
  policy_revision_id = "r1";
  crs_release_id = "crs";
  engine_mode = "On";
  blocking_paranoia_level = pos 1;
  executing_paranoia_level = pos 1;
  inbound_anomaly_threshold = pos 5;
  outbound_anomaly_threshold = pos 4;
  request_body_access = true;
  response_body_access = false;
  early_blocking = false;
  sampling_percentage = pos 100;
  rule_id_namespace_version = pos 1;
  config_sha256 = "";
  setup = record { key = "allowed_methods"; value = "GET"; source_scope = "SYSTEM" } ∷ [];
  exclusions = one_exclusion ∷ [];
  custom_rules = one_custom_rule ∷ [];
  ip_rules = one_ip_rule ∷ [];
}

abbrev configuration_ids : List ℤ
configuration_ids = pos 40000 ∷ pos 5001 ∷ pos 5000 ∷ []

configuration_valid : validate_at matchers 0 configuration ≡ ok configuration_ids
unfolding validate_at check_scalars check_setup check_exclusion validate_policy_exclusion
    check_ip_rule check_ip_fields check_custom_rule check_rule_text safe_custom_rules check_lines
    check_line check_syntax reserve_generated contains_any valid_sec_rule_quotes sec_rule_actions
    atoi trim_space split bytes replace_char
configuration_valid = refl

validate_at-AllNew_example :
    AllNew [] (rule_ids configuration) × (configuration_ids ≡ after [] (rule_ids configuration))
validate_at-AllNew_example =
    validate_at-AllNew matchers 0 configuration configuration_ids configuration_valid

next_generated_policy_rule_id-IsNext_example :
    IsNext configuration (next_generated_policy_rule_id configuration)
next_generated_policy_rule_id-IsNext_example = next_generated_policy_rule_id-IsNext configuration

abbrev admin_session : SessionData
admin_session = record {
  user_id = "u1";
  enterprise_id = "e1";
  username = "ann";
  display_name = "Ann";
  enterprise_name = "E";
  role = system_admin;
  credential_tag = "t";
  expires_at = 100;
  csrf = "x";
  actual_role = no_role;
  console_area = system;
}

admin_session-effective : effective_role admin_session ≡ system_admin
unfolding effective_role
admin_session-effective = refl

enterprise_console_confined_example :
    (read_enterprise_id (tenant_scope (as_enterprise_console admin_session)) "e2" ≡ "e1")
    × (mutation_enterprise_id (tenant_scope (as_enterprise_console admin_session)) "e2" ≡ "e1")
    × (scope_enterprise_id (as_enterprise_console admin_session) ≡ "e1")
    × (can_access_system_management (as_enterprise_console admin_session)
        ≡ can_access_system_management admin_session)
enterprise_console_confined_example =
    enterprise_console_confined admin_session "e2" (inl admin_session-effective)

system-enterprise_console_example :
    as_system_console (as_enterprise_console admin_session) ≡ as_system_console admin_session
system-enterprise_console_example = system-enterprise_console admin_session

abbrev calls : List LoginCall
calls =
    failed 1 "ann"
    ∷ failed 2 "ann"
    ∷ allowed 3 "bob"
    ∷ cleared "ann"
    ∷ failed 4 "ann"
    ∷ allowed 5 "ann"
    ∷ []

calls_before : All (λ c. time_of c ≤ 1000) calls
calls_before =
    (omega arith, (omega arith, (omega arith, (omega arith, (omega arith, (omega arith, tt))))))

login_allow-run_calls_example :
    (login_allow 1000 "ann" (run_calls calls (record { attempts = [] }))).0
    ≡ ltb (count_younger 1000 (failures "ann" [] calls)) 5
login_allow-run_calls_example = login_allow-run_calls 1000 "ann" calls calls_before

abbrev lifecycle : LifecycleCatalog
lifecycle = record {
  default_key = "crs-lts-baseline";
  policies =
      record {
        key = "crs-lts-baseline";
        current_version = "1.0.0";
        versions = ("1.0.0", "PUBLISHED") ∷ [];
      }
      ∷ [];
}

abbrev template_files : List TemplateFile
template_files =
    record { name = "README.md"; is_dir = false; decoded = none; sha256 = "" }
    ∷ record { name = "lts.json"; is_dir = false; decoded = some lts_template; sha256 = "d1" }
    ∷ []

abbrev loaded_template : Template
loaded_template = record lts_template { status = "PUBLISHED"; digest = "d1" }

abbrev loaded_catalog : Catalog
loaded_catalog = record {
  items = loaded_template ∷ [];
  by_key = ("crs-lts-baseline", loaded_template) ∷ [];
  by_refs = ("crs-lts-baseline@1.0.0", loaded_template) ∷ [];
  default_key = "crs-lts-baseline";
}

catalog_loads : load lifecycle template_files ≡ ok loaded_catalog
unfolding load add_policies add_versions valid_status add_templates admit add_item check_default
    reference validate missing_fields check_source trim_v lookup insert ext base
catalog_loads = refl

load-AllSound_example :
    ((t : Template) × (latest loaded_catalog "crs-lts-baseline" ≡ some t)
      × (t.defaults.mode ≡ "DetectionOnly"))
    × ((key : String) (t : Template) → latest loaded_catalog key ≡ some t → IsSound t)
load-AllSound_example = load-AllSound lifecycle template_files loaded_catalog catalog_loads

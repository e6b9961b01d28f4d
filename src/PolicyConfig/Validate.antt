-- ===== src/PolicyConfig/Validate.antt =====
-- PolicyConfiguration.ValidateAt and validatePolicyExclusion of
-- internal/manager/policy_configuration.go.
use m_waf.Common.{
  Bool, List, Option, String, [], all, bind, bytes, false, if◌then◌else◌, int_eq, keep, leb, length,
  ltb, nat_eq, none, not, ok, or_err, pos, pos_part, refuse, replace_char, some, split, trim_space,
  true, ℕ, ℤ, ◌&&◌, ◌+◌, ◌==◌, ◌||◌, ◌∷◌, ◌⧺◌,
}
use m_waf.PolicyConfig.Types.{
  Checking, ConfigError, ExclusionCondition, Matchers, PolicyConfiguration, PolicyCustomRule,
  PolicyExclusion, PolicyIpRule, SetupValue, block_expiry_invalid, custom_rule_incomplete,
  engine_mode_invalid, exclusion_invalid, for_each, generated_id_invalid, has_id, ip_id_invalid,
  ip_reason_required, ip_rule_invalid, ip_rule_repeated, is_legacy_policy_rule_id,
  legacy_rule_outside, levels_invalid, namespace_unsupported, network_not_canonical, owner_invalid,
  percentage_invalid, rule_id_differs, rule_id_repeated, rule_not_canonical, rule_outside_namespace,
  rule_without_id, scope_range, setup_invalid, thresholds_invalid, trust_expiry_invalid,
  valid_policy_scope, within,
}
use m_waf.PolicyConfig.Rules.{atoi, contains_any, safe_custom_rules}

-- 7*24*time.Hour in nanoseconds
abbrev week : ℕ
week = 604800000000000

abbrev is_zero : ℤ → Bool
is_zero z = int_eq z (pos 0)

abbrev pub outside : ℤ → ℕ → ℕ → Bool
outside z lo hi = not (within lo z hi)

-- an engine bypass that is not a legacy one: a reason, and an expiry in [now, now + 7 days]
bypass_unlimited : String → Option ℕ → ℕ → Bool
bypass_unlimited reason none now = true
bypass_unlimited reason (some expiry) now =
    reason == "" || ltb expiry now || ltb (now + week) expiry

-- the switch on the type
type_refused : PolicyExclusion → ℕ → Bool
unfolding bypass_unlimited
type_refused item now =
    if item.type_name == "RULE"
    then is_zero item.rule_id
    else if item.type_name == "TARGET"
    then is_zero item.rule_id
      || item.target == ""
      || contains_any (34 ∷ 39 ∷ 92 ∷ 59 ∷ 13 ∷ 10 ∷ 32 ∷ 9 ∷ []) item.target
    else if item.type_name == "TAG"
    then item.rule_tag == "" || contains_any (34 ∷ 39 ∷ 92 ∷ 13 ∷ 10 ∷ 32 ∷ 9 ∷ []) item.rule_tag
    else if item.type_name == "ENGINE_BYPASS"
    then not (item.load_stage == "BEFORE_CRS")
      || is_zero item.generated_rule_id
      || not item.legacy && bypass_unlimited item.reason item.expires_at now
    else true

valid_condition_field : String → Bool
valid_condition_field value =
    value == "REQUEST_URI"
    || value == "REQUEST_METHOD"
    || value == "REQUEST_HEADERS:Host"
    || value == "REMOTE_ADDR"

valid_condition_operator : String → Bool
valid_condition_operator value = value == "@beginsWith" || value == "@streq" || value == "@ipMatch"

abbrev no_items {ℓ} : {A : Type ℓ} → List A → Bool
no_items [] = true
no_items (_ ∷ _) = false

-- strings.FieldsFunc on commas, blanks and tabs
ip_fields : String → List String
ip_fields value =
    keep (λ s. not (s == "")) (split 44 (replace_char 9 "," (replace_char 32 "," value)))

-- the first two checks of an exclusion, and the two on its stage and conditions
stage_refused : PolicyExclusion → Bool
stage_refused item =
    not (valid_policy_scope item.source_scope)
    || not (item.load_stage == "BEFORE_CRS") && not (item.load_stage == "AFTER_CRS")
    || item.load_stage == "BEFORE_CRS" && no_items item.conditions
    || item.load_stage == "AFTER_CRS" && not (no_items item.conditions)
    || item.load_stage == "AFTER_CRS" && not (is_zero item.generated_rule_id)

-- an id that may be taken: it is in the generated namespace and not used yet
unfoldable pub reserve_generated : ConfigError → ℤ → List ℤ → Checking (List ℤ)
reserve_generated e id used = refuse (outside id 5000 9999 || has_id used id) e (ok (id ∷ used))

trust_unlimited : Option ℕ → ℕ → Bool
trust_unlimited none now = true
trust_unlimited (some expiry) now = leb expiry now || ltb (now + week) expiry

expired : Option ℕ → ℕ → Bool
expired none now = false
expired (some expiry) now = leb expiry now

same_text : Option String → String → Bool
same_text none s = false
same_text (some t) s = t == s

has_key : List String → String → Bool
has_key [] k = false
has_key (j ∷ js) k = j == k || has_key js k

module _ (lib : Matchers) (now : ℕ) where
  condition_refused : ExclusionCondition → Bool
  unfolding ip_fields valid_condition_field valid_condition_operator
  condition_refused c =
      not (valid_condition_field c.field)
      || not (valid_condition_operator c.operator)
      || c.value == ""
      || ltb 1024 (length (bytes c.value))
      || contains_any (34 ∷ 92 ∷ 13 ∷ 10 ∷ []) c.value
      || c.operator == "@ipMatch"
        && (not (c.field == "REMOTE_ADDR")
            || no_items (ip_fields c.value)
            || not (all (λ s. lib.is_ip s || lib.is_cidr s) (ip_fields c.value)))

  -- the loop over the conditions
  conditions_refused : List ExclusionCondition → Bool
  unfolding condition_refused
  conditions_refused [] = false
  conditions_refused (c ∷ rest) = condition_refused c || conditions_refused rest

  unfoldable pub validate_policy_exclusion : PolicyExclusion → Checking (Unit {0})
  unfolding stage_refused type_refused conditions_refused
  validate_policy_exclusion item = refuse (stage_refused item) (exclusion_invalid "stage") (
      refuse (type_refused item now) (exclusion_invalid item.type_name) (
        refuse (conditions_refused item.conditions) (exclusion_invalid "condition") (
          refuse (item.load_stage == "BEFORE_CRS" && is_zero item.generated_rule_id)
            (exclusion_invalid "generated id") (ok tt))))

  unfoldable pub check_setup : SetupValue → List String → Checking (List String)
  unfolding has_key
  check_setup item keys =
      refuse
        (item.key == ""
          || item.value == ""
          || not (valid_policy_scope item.source_scope)
          || has_key keys item.key)
        setup_invalid (ok (item.key ∷ keys))

  -- the body of the loop over the exclusions
  unfoldable pub check_exclusion : PolicyExclusion → List ℤ → Checking (List ℤ)
  unfolding reserve_generated
  check_exclusion item used = bind (validate_policy_exclusion item) λ _.
      if is_zero item.generated_rule_id
      then ok used
      else reserve_generated generated_id_invalid item.generated_rule_id used

  -- an IP rule but for its id
  unfoldable pub check_ip_fields : PolicyIpRule → List String → Checking (List String)
  unfolding same_text has_key trust_unlimited expired
  check_ip_fields item seen =
      refuse
        (not (valid_policy_scope item.source_scope)
          || not (item.action == "BLOCK") && not (item.action == "TRUST"))
        ip_rule_invalid
        (refuse (not (same_text (lib.canonical_network item.network) item.network))
          network_not_canonical
          (refuse (has_key seen (item.action ⧺ "\0" ⧺ item.network)) ip_rule_repeated (
            refuse (item.reason == "") ip_reason_required (
              refuse (item.action == "TRUST" && trust_unlimited item.expires_at now)
                trust_expiry_invalid
                (refuse (not (item.action == "TRUST") && expired item.expires_at now)
                  block_expiry_invalid (ok ((item.action ⧺ "\0" ⧺ item.network) ∷ seen)))))))

  -- the body of the loop over the IP rules
  unfoldable pub check_ip_rule :
      PolicyIpRule → List String × List ℤ → Checking (List String × List ℤ)
  unfolding reserve_generated
  check_ip_rule item s = bind (check_ip_fields item s.0) λ seen.
      bind (reserve_generated ip_id_invalid item.generated_rule_id s.1) λ used. ok (seen, used)

  -- a custom rule against its own text
  unfoldable pub check_rule_text : PolicyCustomRule → Checking (Unit {0})
  check_rule_text item =
      refuse
        (not (valid_policy_scope item.source_scope)
          || is_zero item.rule_id
          || item.canonical_sec_rule == "")
        custom_rule_incomplete
        (bind (safe_custom_rules lib item.canonical_sec_rule) λ r.
          refuse (not (nat_eq r.1 1) || not (trim_space r.0 == trim_space item.canonical_sec_rule))
            rule_not_canonical
            (bind (or_err (lib.custom_rule_id item.canonical_sec_rule) rule_without_id) λ digits.
              refuse (not (int_eq (pos (atoi digits)) item.rule_id)) rule_id_differs (ok tt)))

  -- the body of the loop over the custom rules
  unfoldable pub check_custom_rule : PolicyCustomRule → List ℤ → Checking (List ℤ)
  check_custom_rule item used = bind (check_rule_text item) λ _.
      refuse (not item.legacy_id_range && not (scope_range item.source_scope item.rule_id))
        rule_outside_namespace
        (refuse (item.legacy_id_range && not (is_legacy_policy_rule_id item.rule_id))
          legacy_rule_outside
          (refuse (has_id used item.rule_id) rule_id_repeated (ok (item.rule_id ∷ used))))

  -- the checks before the loops
  unfoldable pub check_scalars : PolicyConfiguration → Checking (Unit {0})
  check_scalars c =
      refuse
        (if c.system_policy_version_id == ""
          then c.policy_revision_id == ""
          else not (c.policy_revision_id == ""))
        owner_invalid
        (refuse (not (c.engine_mode == "DetectionOnly") && not (c.engine_mode == "On"))
          engine_mode_invalid
          (refuse
            (outside c.blocking_paranoia_level 1 4
              || outside c.executing_paranoia_level (pos_part c.blocking_paranoia_level) 4)
            levels_invalid
            (refuse
              (outside c.inbound_anomaly_threshold 1 100
                || outside c.outbound_anomaly_threshold 1 100)
              thresholds_invalid
              (refuse (outside c.sampling_percentage 1 100) percentage_invalid (
                refuse (not (int_eq c.rule_id_namespace_version (pos 1))) namespace_unsupported
                  (ok tt))))))

  -- ValidateAt; what it returns when there is no error are the ids it has seen, the last first
  unfoldable pub validate_at : PolicyConfiguration → Checking (List ℤ)
  validate_at c = bind (check_scalars c) λ _. bind (for_each check_setup c.setup []) λ _.
      bind (for_each check_exclusion c.exclusions []) λ used.
        bind (for_each check_ip_rule c.ip_rules ([], used))
          λ s. for_each check_custom_rule c.custom_rules s.1

-- ===== src/Bundle/Render.antt =====
-- The configuration text of a bundle: the render functions of internal/policybundle/bundle.go.
-- A strings.Builder is the text written so far; each loop returns what it appends.
use m_waf.Common.{
  Option, none, some, Bool, Dict, List, String, [], equal_fold, false, if◌then◌else◌, itoa, lookup,
  map, nat_eq, none, not, replace_char, some, sort, trim_space, true, ℕ, ◌&&◌, ◌+◌, ◌==◌, ◌||◌, ◌∷◌,
  ◌⧺◌,
}
use m_waf.Bundle.Types.{
  Condition, CustomRule, Exclusion, Input, IpRule, RuleExclusion, TargetExclusion,
}

abbrev on_off : Bool → String
on_off b = if b then "On" else "Off"

unfoldable pub render_engine : String → Bool → Bool → String
render_engine mode request_body response_body =
    "# Engine settings generated by M-WAF.\nSecRuleEngine "
    ⧺ mode
    ⧺ "\nSecRequestBodyAccess "
    ⧺ on_off request_body
    ⧺ "\nSecResponseBodyAccess "
    ⧺ on_off response_body
    ⧺ "\n"

abbrev or_empty : Option String → String
or_empty none = ""
or_empty (some value) = value

-- one SecAction; `values[key]` is "" for an absent key
setup_action : Dict String → ℕ → String → String
setup_action values id key =
    let value = or_empty (lookup key values) in
    if equal_fold (trim_space value) "unlimited"
    then ""
    else "SecAction \"id:"
      ⧺ itoa id
      ⧺ ",phase:1,pass,nolog,t:none,setvar:'tx."
      ⧺ key
      ⧺ "="
      ⧺ replace_char 39 "" value
      ⧺ "'\"\n"

-- the loop of `renderSetupValues`; the id grows with the index, also past a key that is left out
setup_actions : Dict String → ℕ → List String → String
setup_actions values id [] = ""
setup_actions values id (key ∷ keys) =
    setup_action values id key ⧺ setup_actions values (id + 1) keys

abbrev keys_of : {V : Type 0} → Dict V → List String
keys_of m = map (λ e. e.0) m

unfoldable pub render_setup_values : Dict String → ℕ → String
unfolding setup_action setup_actions
render_setup_values values first_rule_id =
    setup_actions values first_rule_id (sort (keys_of values))

abbrev setup_header : String
setup_header = "# Upstream CRS setup followed by reviewed M-WAF overrides.\nInclude "

unfoldable pub render_setup : Dict String → String
unfolding render_setup_values
render_setup values =
    setup_header ⧺ "/usr/share/mwaf/crs/crs-setup.conf" ⧺ "\n" ⧺ render_setup_values values 1000

-- `strings.Replace(renderSetup(values), old, new, 1)`: the first occurrence is in the header
unfoldable pub render_setup_v3 : Dict String → String
unfolding render_setup_values
render_setup_v3 values =
    setup_header ⧺ "/etc/mwaf/active/crs/crs-setup.conf" ⧺ "\n" ⧺ render_setup_values values 1000

-- One condition of a chain; `head` is what stands in its action list before `action`.
chain_line : Condition → String → String → String
chain_line condition head action =
    "SecRule " ⧺ condition.field ⧺ " \"" ⧺ condition.operator ⧺ " " ⧺ condition.value ⧺ "\" \""
    ⧺ head ⧺ action ⧺ "\"\n"

abbrev first_head : ℕ → String
first_head id = "id:" ⧺ itoa id ⧺ ",phase:1,pass,nolog,"

-- the loop over a rule's conditions: every one but the last has the action "chain"
chain_lines : String → String → List Condition → String
chain_lines head last [] = ""
chain_lines head last (condition ∷ []) = chain_line condition head last
chain_lines head last (condition ∷ next ∷ rest) =
    chain_line condition head "chain" ⧺ chain_lines "t:none," last (next ∷ rest)

-- the switch on the last condition; no case matches another type, so the action stays "chain"
exclusion_action : Exclusion → String
exclusion_action e =
    if e.type == "RULE"
    then "ctl:ruleRemoveById=" ⧺ itoa e.rule_id
    else if e.type == "TARGET"
    then "ctl:ruleRemoveTargetById=" ⧺ itoa e.rule_id ⧺ ";" ⧺ e.target
    else if e.type == "TAG"
    then "ctl:ruleRemoveByTag=" ⧺ e.rule_tag
    else if e.type == "ENGINE_BYPASS"
    then "ctl:ruleEngine=Off"
    else "chain"

unfoldable pub write_structured_conditional_rule : Exclusion → String
unfolding chain_line chain_lines exclusion_action
write_structured_conditional_rule e =
    chain_lines (first_head e.generated_rule_id) (exclusion_action e) e.conditions

unfoldable pub write_conditional_rule : ℕ → ℕ → String → List Condition → String
unfolding chain_line chain_lines
write_conditional_rule id rule_id target conditions =
    let ctl =
      if target == ""
      then "ctl:ruleRemoveById=" ⧺ itoa rule_id
      else "ctl:ruleRemoveTargetById=" ⧺ itoa rule_id ⧺ ";" ⧺ target in
    chain_lines (first_head id) ctl conditions

abbrev bypass_line : String → String → ℕ → String
bypass_line variable match id =
    "SecRule "
    ⧺ variable
    ⧺ " \""
    ⧺ match
    ⧺ "\" \"id:"
    ⧺ itoa id
    ⧺ ",phase:1,pass,nolog,ctl:ruleEngine=Off\"\n"

-- one round of the loop over `input.IPRules`
ip_rule_line : IpRule → String
ip_rule_line rule =
    if not rule.enabled
    then ""
    else if rule.action == "BLOCK"
    then "SecRule REMOTE_ADDR \"@ipMatch "
      ⧺ rule.network
      ⧺ "\" \"id:"
      ⧺ itoa rule.generated_rule_id
      ⧺ ",phase:1,deny,status:403,log,msg:'M-WAF IP block'\"\n"
    else if rule.action == "TRUST"
    then bypass_line "REMOTE_ADDR" ("@ipMatch " ⧺ rule.network) rule.generated_rule_id
    else ""

ip_rule_lines : List IpRule → String
unfolding ip_rule_line
ip_rule_lines [] = ""
ip_rule_lines (rule ∷ rules) = ip_rule_line rule ⧺ ip_rule_lines rules

abbrev pub has_conditions : List Condition → Bool
has_conditions [] = false
has_conditions (_ ∷ _) = true

-- one round of the loop over `input.Exclusions` before the CRS
before_exclusion : Exclusion → String
unfolding write_structured_conditional_rule
before_exclusion e =
    if not e.enabled || not (e.load_stage == "BEFORE_CRS") || not (has_conditions e.conditions)
    then ""
    else write_structured_conditional_rule e

before_exclusions : List Exclusion → String
unfolding before_exclusion
before_exclusions [] = ""
before_exclusions (e ∷ es) = before_exclusion e ⧺ before_exclusions es

-- The loops over the older lists share the counter `nextID`: each returns it with its text.
legacy_before : ℕ → List RuleExclusion → ℕ × String
unfolding write_conditional_rule
legacy_before next_id [] = (next_id, "")
legacy_before next_id (e ∷ es) =
    let (id, text) =
      legacy_before (if has_conditions e.conditions then next_id + 1 else next_id) es in
    (
      id,
      (if has_conditions e.conditions
            then write_conditional_rule next_id e.rule_id "" e.conditions
            else "")
          ⧺ text,
    )

legacy_target : ℕ → List TargetExclusion → ℕ × String
unfolding write_conditional_rule
legacy_target next_id [] = (next_id, "")
legacy_target next_id (e ∷ es) =
    let (id, text) =
      legacy_target (if has_conditions e.conditions then next_id + 1 else next_id) es in
    (
      id,
      (if has_conditions e.conditions
            then write_conditional_rule next_id e.rule_id e.target e.conditions
            else "")
          ⧺ text,
    )

legacy_bypasses : String → String → ℕ → List String → ℕ × String
legacy_bypasses variable operator next_id [] = (next_id, "")
legacy_bypasses variable operator next_id (value ∷ values) =
    let (id, text) = legacy_bypasses variable operator (next_id + 1) values in
    (id, bypass_line variable (operator ⧺ value) next_id ⧺ text)

legacy_rules : Input → String
unfolding legacy_before legacy_target legacy_bypasses
legacy_rules input =
    let (id1, rules) = legacy_before 5000 input.before in
    let (id2, targets) = legacy_target id1 input.target in
    let (id3, ips) = legacy_bypasses "REMOTE_ADDR" "@ipMatch " id2 input.excluded_ips in
    let (id4, paths) = legacy_bypasses "REQUEST_URI" "@beginsWith " id3 input.excluded_paths in
    rules ⧺ targets ⧺ ips ⧺ paths

-- `len(list) != 0` chooses between the two ways to fill a file
abbrev pub when_empty {ℓ} : {A : Type ℓ} → List A → String → String → String
when_empty [] empty filled = empty
when_empty (_ ∷ _) empty filled = filled

unfoldable pub render_before : Input → String
unfolding ip_rule_lines before_exclusions legacy_rules
render_before input =
    "# IP controls and conditional exclusions evaluated before CRS.\n"
    ⧺ ip_rule_lines input.ip_rules
    ⧺ when_empty input.exclusions (legacy_rules input) (before_exclusions input.exclusions)

-- strings.TrimPrefix(target, "!")
trim_bang : String → String
trim_bang String.[] = ""
trim_bang (String.◌∷◌ c s) = if nat_eq (Prim.Native.Char.code c) b'!' then s else String.◌∷◌ c s

after_exclusion : Exclusion → String
unfolding trim_bang
after_exclusion e =
    if not e.enabled || not (e.load_stage == "AFTER_CRS") || has_conditions e.conditions
    then ""
    else if e.type == "RULE"
    then "SecRuleRemoveById " ⧺ itoa e.rule_id ⧺ "\n"
    else if e.type == "TARGET"
    then "SecRuleUpdateTargetById " ⧺ itoa e.rule_id ⧺ " !" ⧺ trim_bang e.target ⧺ "\n"
    else if e.type == "TAG"
    then "SecRuleRemoveByTag " ⧺ e.rule_tag ⧺ "\n"
    else ""

after_exclusions : List Exclusion → String
unfolding after_exclusion
after_exclusions [] = ""
after_exclusions (e ∷ es) = after_exclusion e ⧺ after_exclusions es

legacy_after : List RuleExclusion → String
legacy_after [] = ""
legacy_after (e ∷ es) =
    (if has_conditions e.conditions then "" else "SecRuleRemoveById " ⧺ itoa e.rule_id ⧺ "\n")
    ⧺ legacy_after es

legacy_after_targets : List TargetExclusion → String
unfolding trim_bang
legacy_after_targets [] = ""
legacy_after_targets (e ∷ es) =
    (if has_conditions e.conditions
      then ""
      else "SecRuleUpdateTargetById " ⧺ itoa e.rule_id ⧺ " !" ⧺ trim_bang e.target ⧺ "\n")
    ⧺ legacy_after_targets es

unfoldable pub render_after : Input → String
unfolding after_exclusions legacy_after legacy_after_targets
render_after input =
    "# Static exclusions evaluated after CRS is loaded.\n"
    ⧺ when_empty input.exclusions (legacy_after input.after ⧺ legacy_after_targets input.target)
        (after_exclusions input.exclusions)

custom_rule_line : CustomRule → String
custom_rule_line rule =
    if rule.enabled && not (trim_space rule.canonical == "")
    then trim_space rule.canonical ⧺ "\n"
    else ""

custom_rule_lines : List CustomRule → String
unfolding custom_rule_line
custom_rule_lines [] = ""
custom_rule_lines (rule ∷ rules) = custom_rule_line rule ⧺ custom_rule_lines rules

abbrev rules_line : String → String
rules_line rules = let value = trim_space rules in if value == "" then "" else value ⧺ "\n"

unfoldable pub render_service_rules : Input → String
unfolding custom_rule_lines
render_service_rules input =
    "# M-WAF service and enterprise rules.\n"
    ⧺ when_empty input.custom_rules
        (rules_line input.system_rules ⧺ rules_line input.enterprise_rules)
        (custom_rule_lines input.custom_rules)

-- ===== src/PolicyConfig/Rules.antt =====
-- safeCustomRules of internal/manager/policy_config.go and what it calls.
use Prim.Native.Char.{code}
use Prim.Native.Nat.{min}
use mathlib.Core.List.{reverse}
use Prim.Native.String.{[], ◌∷◌}
use m_waf.Common.{
  Bool, List, String, [], bind, bytes, contains, false, if◌then◌else◌, length, ltb, nat_eq, not, ok,
  or_err, pos, refuse, split, starts_with, trim_space, true, ℕ, ℤ, ◌&&◌, ◌*◌, ◌+◌, ◌-◌, ◌==◌, ◌||◌,
  ◌∷◌,
}
use m_waf.PolicyConfig.Types.{
  Checking, Matchers, actions_invalid, forbidden_content, has_id, id_not_unique, id_required,
  is_legacy_policy_rule_id, not_one_directive, quotes_invalid, rules_too_long, within,
}

-- strings.ReplaceAll(text, "\r\n", "\n")
unix_lines : String → String
unix_lines [] = ""
unix_lines (c ∷ s) =
    let rest = unix_lines s in if nat_eq (code c) 13 && starts_with s "\n" then rest else c ∷ rest

-- strings.ContainsAny
unfoldable pub contains_any : List ℕ → String → Bool
contains_any chars [] = false
contains_any chars (c ∷ s) = any_eq chars (code c) || contains_any chars s
  where
    any_eq : List ℕ → ℕ → Bool
    any_eq [] n = false
    any_eq (m ∷ ms) n = nat_eq m n || any_eq ms n

-- the loop of `validSecRuleQuotes`
quotes_from : String → Bool → ℕ → Bool
quotes_from [] escaped quotes = not escaped && nat_eq quotes 4
quotes_from (c ∷ s) true quotes = quotes_from s false quotes
quotes_from (c ∷ s) false quotes =
    quotes_from s (nat_eq (code c) 92) (if nat_eq (code c) 34 then quotes + 1 else quotes)

unfoldable pub valid_sec_rule_quotes : String → Bool
unfolding quotes_from
valid_sec_rule_quotes line = quotes_from line false 0

-- what stands between the last two quotes, "" if there are not two
last_quoted : List String → String
last_quoted (_ ∷ actions ∷ _ ∷ _) = trim_space actions
last_quoted _ = ""

unfoldable pub sec_rule_actions : String → String
unfolding last_quoted
sec_rule_actions line = last_quoted (reverse (split 34 line))

-- strconv.Atoi of decimal digits whose error is dropped: it stops at the largest int
digits_from : ℕ → String → ℕ
digits_from n [] = n
digits_from n (c ∷ s) = digits_from (n * 10 + (code c - 48)) s

unfoldable pub atoi : String → ℕ
unfolding digits_from
atoi s = min (digits_from 0 s) 9223372036854775807

abbrev skipped_line : String → Bool
skipped_line line = line == "" || starts_with line "#"

module _ (lib : Matchers) where
  -- the checks of one line before its id
  unfoldable pub check_syntax : ℕ → String → Checking (Unit {0})
  check_syntax number line =
      refuse (not (starts_with line "SecRule ") || ends_in_backslash (split 92 line))
        (not_one_directive number)
        (refuse (lib.forbidden_rule_token line || contains (lib.to_lower line) "@inspectfile")
          (forbidden_content number)
          (refuse (not (valid_sec_rule_quotes line)) (quotes_invalid number) (
            refuse
              (sec_rule_actions line == ""
                || not (contains (lib.to_lower (sec_rule_actions line)) "phase:")
                || lib.forbidden_rule_action (sec_rule_actions line))
              (actions_invalid number) (ok tt))))
    where
      -- strings.HasSuffix(line, "\\"): behind the last backslash nothing follows
      ends_in_backslash : List String → Bool
      ends_in_backslash [] = false
      ends_in_backslash (x ∷ []) = false
      ends_in_backslash (x ∷ y ∷ []) = y == ""
      ends_in_backslash (x ∷ y ∷ z ∷ rest) = ends_in_backslash (y ∷ z ∷ rest)

  -- the id of one line, added to those seen
  unfoldable pub check_line : ℕ → String → List ℤ → Checking (List ℤ)
  check_line number line seen = bind (check_syntax number line) λ _.
      bind (or_err (lib.custom_rule_id line) (id_required number)) λ digits.
        let id = pos (atoi digits) in
        refuse
          (not (within 10000 id 39999)
              && not (within 40000 id 89999)
              && not (is_legacy_policy_rule_id id)
            || has_id seen id)
          (id_not_unique number) (ok (id ∷ seen))

  -- the loop over the lines, whose numbers start at 1; it returns the ids, the last first
  unfoldable pub check_lines : ℕ → List String → List ℤ → Checking (List ℤ)
  check_lines number [] seen = ok seen
  check_lines number (raw ∷ rest) seen =
      let line = trim_space raw in
      elim (skipped_line line) [
        | true ↦ check_lines (number + 1) rest seen
        | false ↦ bind (check_line number line seen) (check_lines (number + 1) rest)
      ]

  -- the text and the number of rules
  unfoldable pub safe_custom_rules : String → Checking (String × ℕ)
  unfolding unix_lines
  safe_custom_rules text =
      let trimmed = trim_space (unix_lines text) in
      refuse (ltb 32768 (length (bytes trimmed))) rules_too_long (
        if trimmed == ""
        then ok ("", 0)
        else bind (check_lines 1 (split 10 trimmed) []) λ ids. ok (trimmed, length ids))

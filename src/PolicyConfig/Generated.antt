-- ===== src/PolicyConfig/Generated.antt =====
-- nextGeneratedPolicyRuleID of internal/manager/policy_mutation.go.
use m_waf.Common.{
  Bool-cases, List, Option, arith, err, false, if◌then◌else◌, inl, inr, map, none, ok, or_err, pos,
  some, suc, true, zero, ℕ, ℤ, ◌++◌, ◌+◌, ◌<◌, ◌≡◌, ◌≤◌,
}
use m_waf.PolicyConfig.Types.{
  Checking, PolicyConfiguration, PolicyExclusion, PolicyIpRule, has_id, namespace_exhausted,
}

abbrev pub exclusion_ids : List PolicyExclusion → List ℤ
exclusion_ids items = map (λ item. item.generated_rule_id) items

abbrev pub ip_rule_ids : List PolicyIpRule → List ℤ
ip_rule_ids items = map (λ item. item.generated_rule_id) items

-- the loop from `id` over the next `left` ids
unfoldable pub first_free : ℕ → ℕ → List ℤ → Option ℕ
first_free zero id used = none
first_free (suc left) id used =
    let later = first_free left (id + 1) used in if has_id used (pos id) then later else some id

-- the ids 5000 to 9999; `used[0]` is false there, but 0 is not among them
unfoldable pub next_generated_policy_rule_id : PolicyConfiguration → Checking ℕ
next_generated_policy_rule_id c =
    or_err (first_free 5000 5000 (exclusion_ids c.exclusions ++ ip_rule_ids c.ip_rules))
      namespace_exhausted

-- what a search from `id` has found
abbrev pub IsFirstFree : ℕ → ℕ → List ℤ → Option ℕ → Type 0
IsFirstFree left id used none = (n : ℕ) → id ≤ n → n < id + left → has_id used (pos n) ≡ true
IsFirstFree left id used (some m) =
    (id ≤ m)
    × (m < id + left)
    × (has_id used (pos m) ≡ false)
    × ((n : ℕ) → id ≤ n → n < m → has_id used (pos n) ≡ true)

first_free-IsFirstFree :
    (left id : ℕ) (used : List ℤ) → IsFirstFree left id used (first_free left id used)
unfolding first_free
first_free-IsFirstFree zero id used = λ n h k. absurd (omega arith)
first_free-IsFirstFree (suc left) id used = elim (Bool-cases (has_id used (pos id))) [
  | inl taken ↦
      rw taken
        (later (first_free left (id + 1) used) taken (first_free-IsFirstFree left (id + 1) used))
  | inr new ↦ rw new (omega arith, omega arith, new, λ n h k. absurd (omega arith))
]
  where
    below :
        has_id used (pos id) ≡ true
        → (n : ℕ) → id ≤ n
        → (id + 1 ≤ n → has_id used (pos n) ≡ true)
        → has_id used (pos n) ≡ true
    below taken n h k = ground (arith, Prim.Native.Nat.compare id n)

    later :
        (o : Option ℕ)
        → has_id used (pos id) ≡ true
        → IsFirstFree left (id + 1) used o
        → IsFirstFree (suc left) id used o
    later none taken h = λ n k l. below taken n k (λ j. h n j (omega arith))
    later (some m) taken h =
        (omega (arith, h.0), omega (arith, h.1), h.2, λ n k l. below taken n k (λ j. h.3 n j l))

-- What the caller is told: the smallest id of the namespace that no exclusion and no IP rule has, or
-- that each of its ids is taken.
abbrev pub IsNext : PolicyConfiguration → Checking ℕ → Type 0
IsNext c (ok m) =
    IsFirstFree 5000 5000 (exclusion_ids c.exclusions ++ ip_rule_ids c.ip_rules) (some m)
IsNext c (err e) = IsFirstFree 5000 5000 (exclusion_ids c.exclusions ++ ip_rule_ids c.ip_rules) none

-- For every configuration, the next generated rule id lies in 5000..9999, is used by no exclusion and
-- no IP rule of it, and is the smallest such id; an error is returned only when all the ids
-- 5000..9999 are used.
pub next_generated_policy_rule_id-IsNext :
    (c : PolicyConfiguration) → IsNext c (next_generated_policy_rule_id c)
unfolding next_generated_policy_rule_id
next_generated_policy_rule_id-IsNext c =
    of_search (first_free 5000 5000 (exclusion_ids c.exclusions ++ ip_rule_ids c.ip_rules))
      (first_free-IsFirstFree 5000 5000 (exclusion_ids c.exclusions ++ ip_rule_ids c.ip_rules))
  where
    of_search :
        (o : Option ℕ)
        → IsFirstFree 5000 5000 (exclusion_ids c.exclusions ++ ip_rule_ids c.ip_rules) o
        → IsNext c (or_err o namespace_exhausted)
    of_search none h = h
    of_search (some m) h = h

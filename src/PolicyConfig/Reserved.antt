-- ===== src/PolicyConfig/Reserved.antt =====
-- The rule ids of a validated configuration (internal/manager/policy_configuration.go).
use m_waf.Common.{
  Bool-cases, List, String, [], ap, bind-eq-ok, false, if◌then◌else◌, inl, inr, int_eq, not, ok,
  ok_inj, or-false-right, pos, refl, refuse-eq-ok, sym, ℕ, ℤ, ◌&&◌, ◌++◌, ◌||◌, ◌∙◌, ◌∷◌, ◌≡◌,
}
use m_waf.PolicyConfig.Types.{
  Checking, ConfigError, Matchers, PolicyConfiguration, PolicyCustomRule, PolicyExclusion,
  PolicyIpRule, for_each, generated_id_invalid, has_id, ip_id_invalid, is_legacy_policy_rule_id,
  legacy_rule_outside, rule_id_repeated, rule_outside_namespace, scope_range,
}
use m_waf.PolicyConfig.Validate.{
  check_custom_rule, check_exclusion, check_ip_fields, check_ip_rule, check_rule_text,
  check_scalars, check_setup, outside, reserve_generated, validate_at, validate_policy_exclusion,
}

-- the ids that one item takes
abbrev pub id_of_exclusion : PolicyExclusion → List ℤ
id_of_exclusion item =
    if int_eq item.generated_rule_id (pos 0) then [] else item.generated_rule_id ∷ []

abbrev pub id_of_ip_rule : PolicyIpRule → List ℤ
id_of_ip_rule item = item.generated_rule_id ∷ []

abbrev pub id_of_custom_rule : PolicyCustomRule → List ℤ
id_of_custom_rule item = item.rule_id ∷ []

abbrev pub concat_map {ℓ κ} : {A : Type ℓ} {B : Type κ} → (A → List B) → List A → List B
concat_map f [] = []
concat_map f (x ∷ xs) = f x ++ concat_map f xs

-- The rules that will stand in the bundle, in the order of the checks.
abbrev pub rule_ids : PolicyConfiguration → List ℤ
rule_ids c =
    concat_map id_of_exclusion c.exclusions
    ++ (concat_map id_of_ip_rule c.ip_rules ++ concat_map id_of_custom_rule c.custom_rules)

-- No id is among those in use, nor among those before it.
abbrev pub AllNew : List ℤ → List ℤ → Type 0
AllNew used [] = Unit
AllNew used (z ∷ zs) = (has_id used z ≡ false) × AllNew (z ∷ used) zs

abbrev pub after : List ℤ → List ℤ → List ℤ
after used [] = used
after used (z ∷ zs) = after (z ∷ used) zs

AllNew-append :
    (used xs ys : List ℤ) → AllNew used xs → AllNew (after used xs) ys → AllNew used (xs ++ ys)
AllNew-append used [] ys h k = k
AllNew-append used (x ∷ xs) ys (new, h) k = (new, AllNew-append (x ∷ used) xs ys h k)

after-append : (used xs ys : List ℤ) → after used (xs ++ ys) ≡ after (after used xs) ys
after-append used [] ys = refl
after-append used (x ∷ xs) ys = after-append (x ∷ used) xs ys

-- A loop whose body takes the ids of its item and no others.
module _ {A S : Type 0} (check : A → S → Checking S) (view : S → List ℤ) (ids : A → List ℤ) where
  abbrev Takes : List ℤ → S → S → Type 0
  Takes zs s s' = AllNew (view s) zs × (view s' ≡ after (view s) zs)

  for_each-Takes :
      ((x : A) (s s' : S) → check x s ≡ ok s' → Takes (ids x) s s')
      → (xs : List A) (s s' : S) → for_each check xs s ≡ ok s'
      → Takes (concat_map ids xs) s s'
  for_each-Takes step [] s s' h = (tt, rw (ok_inj h))
  for_each-Takes step (x ∷ xs) s s' h =
      let (s1, e, h1) = bind-eq-ok (check x s) (for_each check xs) h in
      joined s1 (step x s s1 e) (for_each-Takes step xs s1 s' h1)
    where
      joined :
          (s1 : S)
          → Takes (ids x) s s1
          → Takes (concat_map ids xs) s1 s'
          → Takes (ids x ++ concat_map ids xs) s s'
      joined s1 (new, e) (new', e') = (
        AllNew-append (view s) (ids x) (concat_map ids xs) new (rw (sym e) new'),
        rw (after-append (view s) (ids x) (concat_map ids xs)) (rw (sym e) e'),
      )

taken_generated :
    (e : ConfigError) (z : ℤ) (used used' : List ℤ)
    → reserve_generated e z used ≡ ok used'
    → AllNew used (z ∷ []) × (used' ≡ z ∷ used)
unfolding reserve_generated
taken_generated e z used used' h =
    let (new, h1) = refuse-eq-ok (outside z 5000 9999 || has_id used z) e _ h in
    ((or-false-right (outside z 5000 9999) (has_id used z) new, tt), sym (ok_inj h1))

module _ (lib : Matchers) (now : ℕ) where
  exclusion_step :
      (x : PolicyExclusion) (s s' : List ℤ)
      → check_exclusion lib now x s ≡ ok s'
      → AllNew s (id_of_exclusion x) × (s' ≡ after s (id_of_exclusion x))
  unfolding check_exclusion
  exclusion_step x s s' h =
      let (u, e, h1) = bind-eq-ok (validate_policy_exclusion lib now x) _ h in
      elim (Bool-cases (int_eq x.generated_rule_id (pos 0))) [
        | inl zero_id ↦ rw zero_id (tt, sym (ok_inj (rw zero_id at h1)))
        | inr some_id ↦
            rw some_id
              (taken_generated generated_id_invalid x.generated_rule_id s s' (rw some_id at h1))
      ]

  ip_rule_step :
      (x : PolicyIpRule) (s s' : List String × List ℤ)
      → check_ip_rule lib now x s ≡ ok s'
      → AllNew s.1 (id_of_ip_rule x) × (s'.1 ≡ after s.1 (id_of_ip_rule x))
  unfolding check_ip_rule
  ip_rule_step x s s' h =
      let (seen, e, h1) = bind-eq-ok (check_ip_fields lib now x s.0) _ h in
      let (used, e1, h2) =
        bind-eq-ok (reserve_generated ip_id_invalid x.generated_rule_id s.1) _ h1 in
      let (new, e2) = taken_generated ip_id_invalid x.generated_rule_id s.1 used e1 in
      (new, sym (ap (λ r. r.1) (ok_inj h2)) ∙ e2)

  custom_rule_step :
      (x : PolicyCustomRule) (s s' : List ℤ)
      → check_custom_rule lib now x s ≡ ok s'
      → AllNew s (id_of_custom_rule x) × (s' ≡ after s (id_of_custom_rule x))
  unfolding check_custom_rule
  custom_rule_step x s s' h =
      let (u, e, h1) = bind-eq-ok (check_rule_text lib now x) _ h in
      let (_, h2) =
        refuse-eq-ok (not x.legacy_id_range && not (scope_range x.source_scope x.rule_id))
          rule_outside_namespace _ h1 in
      let (_, h3) =
        refuse-eq-ok (x.legacy_id_range && not (is_legacy_policy_rule_id x.rule_id))
          legacy_rule_outside _ h2 in
      let (new, h4) = refuse-eq-ok (has_id s x.rule_id) rule_id_repeated _ h3 in
      ((new, tt), sym (ok_inj h4))

  -- In a configuration that ValidateAt accepts no two rules share an id: the ids generated for
  -- exclusions (but 0, which stands for none), those of the IP rules and those of the custom rules are
  -- all different, across the three kinds, and are exactly the ids that the checks have recorded.
  pub validate_at-AllNew :
      (c : PolicyConfiguration) (used : List ℤ)
      → validate_at lib now c ≡ ok used
      → AllNew [] (rule_ids c) × (used ≡ after [] (rule_ids c))
  unfolding validate_at
  validate_at-AllNew c used h =
      let (_, _, h1) = bind-eq-ok (check_scalars lib now c) _ h in
      let (_, _, h2) = bind-eq-ok (for_each (check_setup lib now) c.setup []) _ h1 in
      let (used1, e1, h3) = bind-eq-ok (for_each (check_exclusion lib now) c.exclusions []) _ h2 in
      let (s, e2, h4) = bind-eq-ok (for_each (check_ip_rule lib now) c.ip_rules ([], used1)) _ h3 in
      joined used1 s
        (for_each-Takes (check_exclusion lib now) (λ s. s) id_of_exclusion exclusion_step
          c.exclusions [] used1 e1)
        (for_each-Takes (check_ip_rule lib now) (λ s. s.1) id_of_ip_rule ip_rule_step c.ip_rules
          ([], used1) s e2)
        (for_each-Takes (check_custom_rule lib now) (λ s. s) id_of_custom_rule custom_rule_step
          c.custom_rules s.1 used h4)
    where
      xs : List ℤ
      xs = concat_map id_of_exclusion c.exclusions

      ys : List ℤ
      ys = concat_map id_of_ip_rule c.ip_rules

      zs : List ℤ
      zs = concat_map id_of_custom_rule c.custom_rules

      joined :
          (used1 : List ℤ) (s : List String × List ℤ)
          → AllNew [] xs × (used1 ≡ after [] xs)
          → AllNew used1 ys × (s.1 ≡ after used1 ys)
          → AllNew s.1 zs × (used ≡ after s.1 zs)
          → AllNew [] (xs ++ (ys ++ zs)) × (used ≡ after [] (xs ++ (ys ++ zs)))
      joined used1 s (n1, e1) (n2, e2) (n3, e3) = (
        AllNew-append [] xs (ys ++ zs) n1
            (rw (sym e1) (AllNew-append used1 ys zs n2 (rw (sym e2) n3))),
        e3
            ∙ ap (λ l. after l zs) (e2 ∙ ap (λ l. after l ys) e1)
            ∙ sym (after-append [] xs (ys ++ zs) ∙ after-append (after [] xs) ys zs),
      )

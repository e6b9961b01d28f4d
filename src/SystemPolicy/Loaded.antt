-- ===== src/SystemPolicy/Loaded.antt =====
-- What holds of a catalog that Load returns (internal/systempolicy/catalog.go).
use mathlib.Core.Path.{subst}
use m_waf.Common.{
  Bool, Bool-cases, Dict, List, Option, Result, String, [], ap, arith, bind-eq-ok, eq_iff, err,
  false, inl, inr, insert, is_some, length, lookup, lookup-insert, nat_eq, none, not, ok, ok_inj,
  or_err, refl, refuse-eq-ok, some, sym, true, ◌==◌, ◌||◌, ◌∙◌, ◌∷◌, ◌≡◌,
}
use m_waf.SystemPolicy.Template.{
  IsSound, Template, TemplateError, check_source, missing_fields, reference, rest, validate,
}
use m_waf.SystemPolicy.Sound.{validate-IsSound}
use m_waf.SystemPolicy.Catalog.{
  Catalog, LifecycleCatalog, TemplateFile, add_item, add_policies, add_templates, admit,
  check_default, default_key_required, default_not_detecting, duplicate, empty_catalog, is_json,
  latest, lifecycle_missing, load, of_validate, text_at, undecodable, versions_differ,
}

-- every current template is sound
abbrev pub AllSound : Dict Template → Type 0
AllSound m = (key : String) (t : Template) → lookup key m ≡ some t → IsSound t

insert-AllSound :
    (m : Dict Template) (key : String) (item : Template)
    → IsSound item
    → AllSound m
    → AllSound (insert key item m)
insert-AllSound m key item s h other t e = elim (Bool-cases (key == other)) [
  | inl same ↦ subst IsSound (some_inj (sym (lookup-insert key other item m ∙ rw same refl) ∙ e)) s
  | inr differ ↦ h other t (sym (lookup-insert key other item m ∙ rw differ refl) ∙ e)
]
  where
    some_inj : {a b : Template} → some a ≡ some b → a ≡ b
    some_inj k = cc

described-IsSound :
    (t : Template) (status digest : String)
    → validate t ≡ ok tt
    → IsSound (record t { status = status; digest = digest })
unfolding validate missing_fields check_source
described-IsSound t status digest k =
    validate-IsSound (record t { status = status; digest = digest }) tt k

admit-IsSound :
    (statuses : Dict String) (file : TemplateFile) (item : Template)
    → admit statuses file ≡ ok item
    → IsSound item
unfolding admit
admit-IsSound statuses file item h =
    let (t, e1, h1) = bind-eq-ok (or_err file.decoded undecodable) _ h in
    let (u, e2, h2) = bind-eq-ok (of_validate (validate t)) _ h1 in
    let (status, e3, h3) =
      bind-eq-ok (or_err (lookup (reference t) statuses) lifecycle_missing) _ h2 in
    subst IsSound (ok_inj h3) (described-IsSound t status file.sha256 (valid_of (validate t) u e2))
  where
    valid_of :
        (r : Result TemplateError (Unit {0})) (u : Unit {0}) → of_validate r ≡ ok u → r ≡ ok tt
    valid_of (ok u) v k = refl
    valid_of (err e) v k = cc

add_item-AllSound :
    (current : Dict String) (item : Template) (c : Catalog)
    → IsSound item
    → AllSound c.by_key
    → AllSound ((add_item current item c).by_key)
unfolding add_item
add_item-AllSound current item c s h =
    elim (Bool-cases (text_at item.key current == reference item)) [
      | inl is_current ↦ rw is_current (insert-AllSound c.by_key item.key item s h)
      | inr older ↦ rw older h
    ]

add_item-default_key :
    (current : Dict String) (item : Template) (c : Catalog)
    → (add_item current item c).default_key ≡ c.default_key
unfolding add_item
add_item-default_key current item c = refl

abbrev Kept : Catalog → Catalog → Type 0
Kept c c' = AllSound c'.by_key × (c'.default_key ≡ c.default_key)

add_templates-Kept :
    (statuses current : Dict String) (files : List TemplateFile) (c c' : Catalog)
    → AllSound c.by_key
    → add_templates statuses current files c ≡ ok c'
    → Kept c c'
unfolding add_templates
add_templates-Kept statuses current [] c c' s h = subst (Kept c) (ok_inj h) (s, refl)
add_templates-Kept statuses current (file ∷ rest) c c' s h =
    elim (Bool-cases (file.is_dir || not (is_json file.name))) [
      | inl skipped ↦ add_templates-Kept statuses current rest c c' s (rw skipped at h)
      | inr taken ↦
          let (item, e1, h1) = bind-eq-ok (admit statuses file) _ (rw taken at h) in
          let (new, h2) =
            refuse-eq-ok (is_some (lookup (reference item) c.by_refs)) (duplicate (reference item))
              _ h1 in
          let k =
            add_templates-Kept statuses current rest (add_item current item c) c'
              (add_item-AllSound current item c (admit-IsSound statuses file item e1) s) h2 in
          (k.0, k.1 ∙ add_item-default_key current item c)
    ]

-- A catalog that Load returns has a template for the default key of the lifecycle, which starts in
-- DetectionOnly, and the template that Latest returns for any key is sound in the sense of Validate.
pub load-AllSound :
    (lifecycle : LifecycleCatalog) (files : List TemplateFile) (c : Catalog)
    → load lifecycle files ≡ ok c
    → ((t : Template) × (latest c lifecycle.default_key ≡ some t)
        × (t.defaults.mode ≡ "DetectionOnly"))
      × ((key : String) (t : Template) → latest c key ≡ some t → IsSound t)
unfolding load latest check_default lookup
load-AllSound lifecycle files c h =
    let (_, h1) = refuse-eq-ok (lifecycle.default_key == "") default_key_required _ h in
    let (s, _, h2) = bind-eq-ok (add_policies lifecycle.policies [] []) _ h1 in
    let (d, e3, h3) =
      bind-eq-ok (add_templates s.0 s.1 files (empty_catalog lifecycle.default_key)) _ h2 in
    let (_, h4) = refuse-eq-ok (not (nat_eq (length d.items) (length s.0))) versions_differ _ h3 in
    let (u, e5, h5) = bind-eq-ok (check_default (lookup d.default_key d.by_key)) _ h4 in
    let k =
      add_templates-Kept s.0 s.1 files (empty_catalog lifecycle.default_key) d
        (λ key t e. absurd (none_some e)) e3 in
    subst (Found lifecycle.default_key) (ok_inj h5)
      (default_found (lookup d.default_key d.by_key) d u k.1 refl e5, k.0)
  where
    none_some : {t : Template} → none ≡ some t → ⊥
    none_some e = cc

    of_not : (b : Bool) → not b ≡ false → b ≡ true
    of_not b h = ground arith

    Found : String → Catalog → Type 0
    Found key c =
        ((t : Template) × (lookup key c.by_key ≡ some t) × (t.defaults.mode ≡ "DetectionOnly"))
        × ((key : String) (t : Template) → lookup key c.by_key ≡ some t → IsSound t)

    default_found :
        (o : Option Template) (d : Catalog) (u : Unit {0})
        → d.default_key ≡ lifecycle.default_key
        → lookup d.default_key d.by_key ≡ o
        → check_default o ≡ ok u
        → (t : Template) × (lookup lifecycle.default_key d.by_key ≡ some t)
          × (t.defaults.mode ≡ "DetectionOnly")
    default_found none d u e o k = cc
    default_found (some t) d u e o k =
        let (mode, _) =
          refuse-eq-ok (not (t.defaults.mode == "DetectionOnly")) default_not_detecting (ok tt) k in
        (
          t,
          ap (λ key. lookup key d.by_key) (sym e) ∙ o,
          (eq_iff t.defaults.mode "DetectionOnly").0
              (of_not (t.defaults.mode == "DetectionOnly") mode),
        )

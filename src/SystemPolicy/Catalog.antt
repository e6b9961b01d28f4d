-- ===== src/SystemPolicy/Catalog.antt =====
-- internal/systempolicy/catalog.go: Load and the lookups of a Catalog. The embedded files and their
-- JSON are given decoded; `none` is a file that does not decode.
use m_waf.Common.{
  Bool, Dict, List, Option, Result, String, [], bind, err, ext, false, if◌then◌else◌, insert,
  is_some, length, lookup, nat_eq, none, not, ok, or_err, refuse, some, true, ◌++◌, ◌==◌, ◌||◌, ◌∷◌,
  ◌⧺◌,
}
use m_waf.SystemPolicy.Template.{Template, TemplateError, reference, rest, validate}

pub record PolicyLifecycle : Type 0 where
  pub key : String
  pub current_version : String
  pub versions : Dict String

pub record LifecycleCatalog : Type 0 where
  pub default_key : String
  pub policies : List PolicyLifecycle

-- an entry of the directory `templates`, with the SHA-256 of its bytes in hexadecimal
pub record TemplateFile : Type 0 where
  pub name : String
  pub is_dir : Bool
  pub sha256 : String
  pub decoded : Option Template

pub record Catalog : Type 0 where
  pub items : List Template
  pub by_key : Dict Template
  pub by_refs : Dict Template
  pub default_key : String

pub data LoadError : Type 0 where
  default_key_required lifecycle_incomplete undecodable lifecycle_missing : LoadError
  versions_differ default_missing default_not_detecting : LoadError
  invalid_status duplicate not_published : String → LoadError
  invalid_template : TemplateError → LoadError

abbrev pub Loading : Type 0 → Type 0
Loading A = Result LoadError A

unfoldable pub valid_status : String → Bool
valid_status status = status == "PUBLISHED" || status == "DEPRECATED" || status == "WITHDRAWN"

-- the loop over the versions of one policy
unfoldable pub add_versions : String → Dict String → Dict String → Loading (Dict String)
add_versions key [] statuses = ok statuses
add_versions key ((version, status) ∷ rest) statuses =
    refuse (not (valid_status status)) (invalid_status (key ⧺ "@" ⧺ version))
      (add_versions key rest (insert (key ⧺ "@" ⧺ version) status statuses))

abbrev pub text_at : String → Dict String → String
text_at key m = elim (lookup key m) as (λ o. String) [ none ↦ "" | some v ↦ v ]

abbrev pub no_versions : Dict String → Bool
no_versions [] = true
no_versions (_ ∷ _) = false

-- the loop over the policies: the status of each reference, and the current reference of each key
unfoldable pub add_policies :
    List PolicyLifecycle → Dict String → Dict String → Loading (Dict String × Dict String)
add_policies [] statuses current = ok (statuses, current)
add_policies (policy ∷ rest) statuses current =
    refuse (policy.key == "" || policy.current_version == "" || no_versions policy.versions)
      lifecycle_incomplete
      (bind (add_versions policy.key policy.versions statuses) λ statuses'.
        let ref = policy.key ⧺ "@" ⧺ policy.current_version in
        refuse (not (text_at ref statuses' == "PUBLISHED")) (not_published ref)
          (add_policies rest statuses' (insert policy.key ref current)))

abbrev pub is_json : String → Bool
is_json name = ext name == ".json"

-- the error of Validate
abbrev pub of_validate : Result TemplateError (Unit {0}) → Loading (Unit {0})
of_validate (ok u) = ok u
of_validate (err e) = err (invalid_template e)

-- json.Unmarshal, Validate and the lifecycle metadata of one file
unfoldable pub admit : Dict String → TemplateFile → Loading Template
admit statuses file = bind (or_err file.decoded undecodable) λ item.
    bind (of_validate (validate item)) λ _.
      bind (or_err (lookup (reference item) statuses) lifecycle_missing)
        λ status. ok (record item { status = status; digest = file.sha256 })

-- the catalog with one more template
unfoldable pub add_item : Dict String → Template → Catalog → Catalog
add_item current item c = record c {
  items = c.items ++ item ∷ [];
  by_refs = insert (reference item) item c.by_refs;
  by_key =
      (if text_at item.key current == reference item
        then insert item.key item c.by_key
        else c.by_key);
}

-- the loop over the directory
unfoldable pub add_templates :
    Dict String → Dict String → List TemplateFile → Catalog → Loading Catalog
add_templates statuses current [] c = ok c
add_templates statuses current (file ∷ rest) c =
    let skipped = add_templates statuses current rest c in
    let added = bind (admit statuses file) λ item.
      refuse (is_some (lookup (reference item) c.by_refs)) (duplicate (reference item))
        (add_templates statuses current rest (add_item current item c)) in
    if file.is_dir || not (is_json file.name) then skipped else added

-- the last checks of `Load`, on the template of the default key
unfoldable pub check_default : Option Template → Loading (Unit {0})
check_default none = err default_missing
check_default (some item) =
    refuse (not (item.defaults.mode == "DetectionOnly")) default_not_detecting (ok tt)

abbrev pub empty_catalog : String → Catalog
empty_catalog key = record { items = []; by_key = []; by_refs = []; default_key = key }

-- `Load`, up to the order of `items`, by which no lookup goes
unfoldable pub load : LifecycleCatalog → List TemplateFile → Loading Catalog
load lifecycle files = refuse (lifecycle.default_key == "") default_key_required (
    bind (add_policies lifecycle.policies [] []) λ s.
      bind (add_templates s.0 s.1 files (empty_catalog lifecycle.default_key)) λ c.
        refuse (not (nat_eq (length c.items) (length s.0))) versions_differ
          (bind (check_default (lookup c.default_key c.by_key)) λ _. ok c))

-- Catalog.Latest, Catalog.Version
unfoldable pub latest : Catalog → String → Option Template
latest c key = lookup key c.by_key

unfoldable pub find_version : Catalog → String → String → Option Template
find_version c key version = lookup (key ⧺ "@" ⧺ version) c.by_refs

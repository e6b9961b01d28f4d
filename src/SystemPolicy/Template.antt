-- ===== src/SystemPolicy/Template.antt =====
-- internal/systempolicy/catalog.go: a template and Template.Validate. An expiry is a number of seconds.
use m_waf.Common.{
  Bool, Dict, List, Option, Result, String, arith, bind, eq_iff, err, false, if◌then◌else◌, int_eq,
  len, ltb, nat_eq, negsuc, none, not, ok, pos, pos_part, refl, refuse, refuse-eq-ok, some, true, ℕ,
  ℤ, ◌&&◌, ◌==◌, ◌||◌, ◌≡◌, ◌≢◌, ◌≤◌, ◌⊎◌, ◌⧺◌,
}
use m_waf.Bundle.Types.{Condition, PolicySourceRef, RuleExclusion, TargetExclusion}

pub record EngineBypass : Type 0 where
  pub reason : String
  pub expires_at : ℤ
  pub conditions : List Condition

pub record Defaults : Type 0 where
  pub mode : String
  pub paranoia_level : ℤ
  pub executing_paranoia_level : ℤ
  pub inbound_score : ℤ
  pub outbound_score : ℤ
  pub request_body : Bool
  pub response_body : Bool
  pub early_blocking : Bool
  pub sampling_percentage : ℤ
  pub excluded_paths : List String
  pub excluded_ips : List String
  pub custom_rules : String
  pub custom_rule_count : ℤ
  pub crs_source : Option PolicySourceRef
  pub crs_setup : Dict String
  pub before_exclusions : List RuleExclusion
  pub after_exclusions : List RuleExclusion
  pub tag_exclusions : List String
  pub target_exclusions : List TargetExclusion
  pub engine_bypasses : List EngineBypass
  pub artifact_format : String
  pub hot_rule_set_version : String
  pub hot_rule_set_sha256 : String

pub record Template : Type 0 where
  pub schema_version : ℤ
  pub key : String
  pub version : String
  pub name : String
  pub description : String
  pub crs_track : String
  pub crs_version : String
  pub defaults : Defaults
  pub migration_notes : List String
  pub status : String
  pub digest : String

-- Template.Reference
unfoldable pub reference : Template → String
reference t = t.key ⧺ "@" ⧺ t.version

pub data TemplateError : Type 0 where
  fields_required track_invalid default_mode_invalid paranoia_invalid inbound_invalid :
      TemplateError
  format_unsupported pinned_source_required channel_differs crs_version_differs : TemplateError
  executing_invalid outbound_invalid sampling_invalid : TemplateError

-- x < n and n < x for an integer and a bound
abbrev pub less : ℤ → ℕ → Bool
less (pos a) n = ltb a n
less (negsuc a) n = true

abbrev pub more : ℤ → ℕ → Bool
more (pos a) n = ltb n a
more (negsuc a) n = false

abbrev pub int_lt : ℤ → ℤ → Bool
int_lt (pos a) (pos b) = ltb a b
int_lt (pos a) (negsuc b) = false
int_lt (negsuc a) (pos b) = true
int_lt (negsuc a) (negsuc b) = ltb b a

abbrev pub bundle_format : String → Bool
bundle_format format = format == "policy-bundle-v2" || format == "policy-bundle-v3"

-- strings.TrimPrefix(s, "v")
unfoldable pub trim_v : String → String
trim_v String.[] = ""
trim_v (String.◌∷◌ c s) = if nat_eq (Prim.Native.Char.code c) b'v' then s else String.◌∷◌ c s

unpinned : PolicySourceRef → Bool
unpinned source =
    source.id == ""
    || source.commit == ""
    || not (nat_eq (len source.archive_sha256) 64)
    || not (nat_eq (len source.index_sha256) 64)

-- the checks of the source of a bundle format
unfoldable pub check_source : Template → Option PolicySourceRef → Result TemplateError (Unit {0})
unfolding unpinned
check_source t none = err pinned_source_required
check_source t (some source) = refuse (unpinned source) pinned_source_required (
    refuse (not (source.channel == "") && not (source.channel == t.crs_track)) channel_differs
      (refuse (not (trim_v t.crs_version == trim_v source.tag)) crs_version_differs (ok tt)))

unfoldable pub missing_fields : Template → Bool
missing_fields t =
    less t.schema_version 1 || t.key == "" || t.version == "" || t.name == "" || t.crs_version == ""

abbrev pub executing_refused : Defaults → Bool
executing_refused d =
    not (int_eq d.executing_paranoia_level (pos 0))
    && (int_lt d.executing_paranoia_level d.paranoia_level || more d.executing_paranoia_level 4)

-- 0 stands for an absent value
abbrev pub optional_refused : ℤ → Bool
optional_refused z = not (int_eq z (pos 0)) && (less z 1 || more z 100)

-- the checks behind that of the source
abbrev pub rest : Defaults → Result TemplateError (Unit {0})
rest d = refuse (executing_refused d) executing_invalid (
    refuse (optional_refused d.outbound_score) outbound_invalid
      (refuse (optional_refused d.sampling_percentage) sampling_invalid (ok tt)))

unfoldable pub validate : Template → Result TemplateError (Unit {0})
validate t =
    let d = t.defaults in
    refuse (missing_fields t) fields_required (
      refuse (not (t.crs_track == "stable") && not (t.crs_track == "lts")) track_invalid (
        refuse (not (d.mode == "DetectionOnly") && not (d.mode == "On")) default_mode_invalid (
          refuse (less d.paranoia_level 1 || more d.paranoia_level 4) paranoia_invalid (
            refuse (less d.inbound_score 1 || more d.inbound_score 100) inbound_invalid (
              refuse (not (d.artifact_format == "") && not (bundle_format d.artifact_format))
                format_unsupported
                (bind
                  (if bundle_format d.artifact_format then check_source t d.crs_source else ok tt)
                  λ _. rest d))))))

-- a value between two bounds
abbrev pub Between : ℕ → ℤ → ℕ → Type 0
Between lo (pos n) hi = (lo ≤ n) × (n ≤ hi)
Between lo (negsuc n) hi = ⊥

-- A source that is pinned for a template: it is named, its commit and both digests are given, its channel
-- is absent or the template's track, and its tag is the template's CRS version.
pub record IsPinned (t : Template) (source : PolicySourceRef) : Type 0 where
  pub named : source.id ≢ ""
  pub committed : source.commit ≢ ""
  pub archive : len source.archive_sha256 ≡ 64
  pub index : len source.index_sha256 ≡ 64
  pub channel : (source.channel ≡ "") ⊎ (source.channel ≡ t.crs_track)
  pub tag : trim_v t.crs_version ≡ trim_v source.tag

-- What a validated template satisfies.
pub record IsSound (t : Template) : Type 0 where
  pub versioned : (n : ℕ) × (t.schema_version ≡ pos n) × (1 ≤ n)
  pub texts : (t.key ≢ "") × (t.version ≢ "") × (t.name ≢ "") × (t.crs_version ≢ "")
  pub track : (t.crs_track ≡ "stable") ⊎ (t.crs_track ≡ "lts")
  pub mode : (t.defaults.mode ≡ "DetectionOnly") ⊎ (t.defaults.mode ≡ "On")
  pub paranoia : Between 1 t.defaults.paranoia_level 4
  pub inbound : Between 1 t.defaults.inbound_score 100
  pub format :
      (t.defaults.artifact_format ≡ "")
      ⊎ (t.defaults.artifact_format ≡ "policy-bundle-v2")
      ⊎ (t.defaults.artifact_format ≡ "policy-bundle-v3")
  pub pinned :
      t.defaults.artifact_format ≢ ""
      → (source : PolicySourceRef) × (t.defaults.crs_source ≡ some source) × IsPinned t source
  pub executing :
      (t.defaults.executing_paranoia_level ≡ pos 0)
      ⊎ Between (pos_part t.defaults.paranoia_level) t.defaults.executing_paranoia_level 4
  pub outbound : (t.defaults.outbound_score ≡ pos 0) ⊎ Between 1 t.defaults.outbound_score 100
  pub sampling :
      (t.defaults.sampling_percentage ≡ pos 0) ⊎ Between 1 t.defaults.sampling_percentage 100

pub not_eq : (s t : String) → (s == t) ≡ false → s ≢ t
not_eq s t h e = contra ((eq_iff s t).1 e)
  where
    contra : (s == t) ≡ true → ⊥
    contra k = cc

pub check_source-IsPinned :
    (t : Template) (o : Option PolicySourceRef) (u : Unit {0})
    → check_source t o ≡ ok u
    → (source : PolicySourceRef) × (o ≡ some source) × IsPinned t source
unfolding check_source
check_source-IsPinned t none u h = cc
check_source-IsPinned t (some source) u h =
    let (pinned, h1) = refuse-eq-ok (unpinned source) pinned_source_required _ h in
    let (same, h2) =
      refuse-eq-ok (not (source.channel == "") && not (source.channel == t.crs_track))
        channel_differs _ h1 in
    let (version, h3) =
      refuse-eq-ok (not (trim_v t.crs_version == trim_v source.tag)) crs_version_differs (ok tt)
        h2 in
    (
      source,
      refl,
      record {
        named = not_eq source.id "" (ground (arith, pinned));
        committed = not_eq source.commit "" (ground (arith, pinned));
        archive = ground (arith, pinned);
        index = ground (arith, pinned);
        channel = by_channel same;
        tag = (eq_iff _ _).0 (ground (arith, version));
      },
    )
  where
    by_channel :
        (not (source.channel == "") && not (source.channel == t.crs_track)) ≡ false
        → (source.channel ≡ "") ⊎ (source.channel ≡ t.crs_track)
    by_channel h = ground (arith, eq_iff source.channel "", eq_iff source.channel t.crs_track, h)

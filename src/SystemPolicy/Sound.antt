-- ===== src/SystemPolicy/Sound.antt =====
-- What internal/systempolicy/catalog.go has checked of a template that it accepts.
use m_waf.Common.{
  Bool, String, arith, bind-eq-ok, eq_iff, false, if◌then◌else◌, inl, inr, int_eq, negsuc, not, ok,
  pos, pos_part, refl, refuse-eq-ok, suc, true, zero, ℕ, ℤ, ◌&&◌, ◌==◌, ◌||◌, ◌≡◌, ◌≢◌, ◌≤◌, ◌⊎◌,
}
use m_waf.SystemPolicy.Template.{
  Between, Defaults, IsSound, Template, bundle_format, check_source, check_source-IsPinned,
  default_mode_invalid, executing_invalid, executing_refused, fields_required, format_unsupported,
  inbound_invalid, int_lt, less, missing_fields, more, not_eq, optional_refused, outbound_invalid,
  paranoia_invalid, rest, sampling_invalid, track_invalid, validate,
}

given_fields :
    (t : Template)
    → missing_fields t ≡ false
    → (less t.schema_version 1 ≡ false)
      × ((t.key ≢ "") × (t.version ≢ "") × (t.name ≢ "") × (t.crs_version ≢ ""))
unfolding missing_fields
given_fields t h =
    let (h1, crs) =
      none_true (less t.schema_version 1 || t.key == "" || t.version == "" || t.name == "")
        (t.crs_version == "") h in
    let (h2, name) =
      none_true (less t.schema_version 1 || t.key == "" || t.version == "") (t.name == "") h1 in
    let (h3, version) = none_true (less t.schema_version 1 || t.key == "") (t.version == "") h2 in
    let (versioned, key) = none_true (less t.schema_version 1) (t.key == "") h3 in
    (
      versioned,
      (
        not_eq t.key "" key,
        not_eq t.version "" version,
        not_eq t.name "" name,
        not_eq t.crs_version "" crs,
      ),
    )
  where
    none_true : (a b : Bool) → (a || b) ≡ false → (a ≡ false) × (b ≡ false)
    none_true true b h = cc
    none_true false b h = (refl, h)

-- A template that Validate accepts has a version and its texts, names a known track and a known mode,
-- its levels, scores and sampling lie in their ranges, where an optional one may be 0 and an executing
-- level is not below the blocking one, and its artifact format is absent or one of two bundle formats.
-- When its artifact format is not absent it has a source that is pinned: named, with its commit and two
-- digests of 64 characters, on the template's track or on none, and with the CRS version as its tag.
pub validate-IsSound : (t : Template) (u : Unit {0}) → validate t ≡ ok u → IsSound t
unfolding validate
validate-IsSound t u h0 =
    let d : Defaults = t.defaults in
    let (k1, h1) = refuse-eq-ok (missing_fields t) fields_required _ h0 in
    let (k2, h2) =
      refuse-eq-ok (not (t.crs_track == "stable") && not (t.crs_track == "lts")) track_invalid _
        h1 in
    let (k3, h3) =
      refuse-eq-ok (not (d.mode == "DetectionOnly") && not (d.mode == "On")) default_mode_invalid _
        h2 in
    let (k4, h4) =
      refuse-eq-ok (less d.paranoia_level 1 || more d.paranoia_level 4) paranoia_invalid _ h3 in
    let (k5, h5) =
      refuse-eq-ok (less d.inbound_score 1 || more d.inbound_score 100) inbound_invalid _ h4 in
    let (k6, h6) =
      refuse-eq-ok (not (d.artifact_format == "") && not (bundle_format d.artifact_format))
        format_unsupported _ h5 in
    let (v, k7, h7) =
      bind-eq-ok (if bundle_format d.artifact_format then check_source t d.crs_source else ok tt)
        (λ (x : Unit {0}). rest d) h6 in
    let (k8, h8) = refuse-eq-ok (executing_refused d) executing_invalid _ h7 in
    let (k9, h9) = refuse-eq-ok (optional_refused d.outbound_score) outbound_invalid _ h8 in
    let (k10, h10) =
      refuse-eq-ok (optional_refused d.sampling_percentage) sampling_invalid (ok tt) h9 in
    record {
      versioned = version_of t.schema_version (given_fields t k1).0;
      texts = (given_fields t k1).1;
      track = one_of t.crs_track "stable" "lts" k2;
      mode = one_of d.mode "DetectionOnly" "On" k3;
      paranoia = between d.paranoia_level 4 k4;
      inbound = between d.inbound_score 100 k5;
      format = format_of d.artifact_format k6;
      pinned = λ given.
          check_source-IsPinned t d.crs_source v (rw (is_bundle d.artifact_format given k6) at k7);
      executing = executing_of d.executing_paranoia_level d.paranoia_level k4 k8;
      outbound = optional_of d.outbound_score k9;
      sampling = optional_of d.sampling_percentage k10;
    }
  where
    one_of : (s a b : String) → (not (s == a) && not (s == b)) ≡ false → (s ≡ a) ⊎ (s ≡ b)
    one_of s a b h = ground (arith, eq_iff s a, eq_iff s b, h)

    version_of : (z : ℤ) → less z 1 ≡ false → (n : ℕ) × (z ≡ pos n) × (1 ≤ n)
    version_of (pos n) h = (n, refl, ground (arith, h))
    version_of (negsuc n) h = cc

    format_of :
        (s : String)
        → (not (s == "") && not (bundle_format s)) ≡ false
        → (s ≡ "") ⊎ (s ≡ "policy-bundle-v2") ⊎ (s ≡ "policy-bundle-v3")
    format_of s h =
        ground (arith, eq_iff s "", eq_iff s "policy-bundle-v2", eq_iff s "policy-bundle-v3", h)

    is_bundle :
        (s : String)
        → s ≢ ""
        → (not (s == "") && not (bundle_format s)) ≡ false
        → bundle_format s ≡ true
    is_bundle s given h = by_test (s == "") refl h
      where
        by_test :
            (b : Bool)
            → (s == "") ≡ b
            → (not b && not (bundle_format s)) ≡ false
            → bundle_format s ≡ true
        by_test true e k = absurd (given ((eq_iff s "").0 e))
        by_test false e k = ground (arith, k)

    between : (z : ℤ) (hi : ℕ) → (less z 1 || more z hi) ≡ false → Between 1 z hi
    between (pos n) hi h = (ground (arith, h), ground (arith, h))
    between (negsuc n) hi h = cc

    optional_of : (z : ℤ) → optional_refused z ≡ false → (z ≡ pos 0) ⊎ Between 1 z 100
    optional_of (pos zero) h = inl refl
    optional_of (pos (suc n)) h = inr (ground (arith, h), ground (arith, h))
    optional_of (negsuc n) h = cc

    executing_of :
        (z b : ℤ)
        → (less b 1 || more b 4) ≡ false
        → (not (int_eq z (pos 0)) && (int_lt z b || more z 4)) ≡ false
        → (z ≡ pos 0) ⊎ Between (pos_part b) z 4
    executing_of (pos zero) b k h = inl refl
    executing_of (pos (suc n)) (pos m) k h = inr (ground (arith, h), ground (arith, h))
    executing_of (pos (suc n)) (negsuc m) k h = cc
    executing_of (negsuc n) (pos m) k h = cc
    executing_of (negsuc n) (negsuc m) k h = cc

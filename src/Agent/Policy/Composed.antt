-- ===== src/Agent/Policy/Composed.antt =====
-- What holds of a split policy that was accepted, and what a refused one leaves
-- (internal/agent/policy.go).
use mathlib.Core.Path.{subst}
use m_waf.Common.{
  Bool-cases, Bytes, Dict, Option, Option-cases, Result, String, [], arith, bind-eq-ok, eq_iff, err,
  false, if◌then◌else◌, inl, inr, insert, is_some, lookup, lookup-insert, none, not, ok, ok_inj,
  refl, refuse-eq-ok, some, sym, ◌==◌, ◌∙◌, ◌∷◌, ◌≡◌, ◌⊎◌,
}
use m_waf.Agent.Host.{
  ApplyError, World, composition_failed, duplicate_file, override_differs, size_invalid,
  split_formats_differ, unsupported_mode,
}
use m_waf.Agent.Host.Exec.{Outcome, continue, lift, ◌>>=◌}
use m_waf.Agent.Verify.{IsAuthentic, verify_artifact, verify_artifact-IsAuthentic}
use m_waf.Agent.Policy.Server.{Applier, DesiredState, one_of_modes, revision_path}
use m_waf.Agent.Policy.Revision.{apply_bundle_files, of_parse, parsed}
use m_waf.Agent.Policy.Split.{
  Composed, Pair, apply_split, compose, composed, composition_refused, formats_differ,
  manifest_files, merge_files, override_refused, references, sizes_refused, split_revision,
  verify_both,
}
use m_waf.Bundle.Types.{Manifest}
use m_waf.Bundle.Parse.{parse}
use m_waf.Agent.Policy.Applied.{Settled, apply_bundle_files-Settled, staged_files}

abbrev pub first_of : Option Bytes → Option Bytes → Option Bytes
first_of (some a) b = some a
first_of none b = b

-- Both artifacts parsed, their manifests belong together, and no file stands in both.
pub record IsMerged (p : Applier) (r : Pair) (base_artifact override_artifact : Bytes)
    (c : Composed) : Type 0 where
  pub base_files : Dict Bytes
  pub override_files : Dict Bytes
  pub base_parsed : parse p.crypto.codec base_artifact ≡ ok (c.base_manifest, base_files)
  pub override_parsed :
      parse p.crypto.codec override_artifact ≡ ok (c.override_manifest, override_files)
  pub belonging : composition_refused r c.base_manifest c.override_manifest ≡ false
  pub disjoint :
      (name : String) (raw : Bytes)
      → lookup name override_files ≡ some raw
      → lookup name base_files ≡ none
  pub merged :
      (name : String)
      → lookup name c.files ≡ first_of (lookup name base_files) (lookup name override_files)

-- A split policy that may be put in force: beside that, both artifacts are signed by the installed
-- key, and the override is the one the desired state names.
pub record IsComposed (p : Applier) (state : DesiredState) (base_artifact override_artifact : Bytes)
    (c : Composed) : Type 0 where
  pub pair : Pair
  pub referenced : references state ≡ ok pair
  pub base_authentic : IsAuthentic p.crypto base_artifact pair.base.sha256 pair.base.signature
  pub override_authentic :
      IsAuthentic p.crypto override_artifact pair.override.sha256 pair.override.signature
  pub as_desired : override_refused state pair ≡ false
  pub contents : IsMerged p pair base_artifact override_artifact c

parsed-eq-ok :
    (p : Applier) (artifact : Bytes) (r : Manifest × Dict Bytes)
    → parsed p artifact ≡ ok r
    → parse p.crypto.codec artifact ≡ ok r
unfolding parsed
parsed-eq-ok p artifact r h = of_parse-eq-ok (parse p.crypto.codec artifact) h
  where
    of_parse-eq-ok : {E A : Type 0} {q : A} (o : Result E A) → of_parse o ≡ ok q → o ≡ ok q
    of_parse-eq-ok (ok a) k = ground (arith, k)
    of_parse-eq-ok (err e) k = cc

merge_files-lookup :
    (files more merged : Dict Bytes)
    → merge_files files more ≡ ok merged
    → (name : String) → lookup name merged ≡ first_of (lookup name files) (lookup name more)
unfolding merge_files lookup
merge_files-lookup files [] merged h name =
    rw (sym (ok_inj h)) (ground (arith, Option-cases (lookup name files)))
merge_files-lookup files ((key, content) ∷ rest) merged h name =
    let (new, h1) = refuse-eq-ok (is_some (lookup key files)) (duplicate_file key) _ h in
    joined new (merge_files-lookup (insert key content files) rest merged h1 name)
  where
    joined :
        is_some (lookup key files) ≡ false
        → lookup name merged ≡ first_of (lookup name (insert key content files)) (lookup name rest)
        → lookup name merged
          ≡ first_of (lookup name files) (if key == name then some content else lookup name rest)
    joined new ih = ground (
      arith,
      ih,
      new,
      eq_iff key name,
      lookup-insert key name content files,
      Option-cases (lookup name files),
    )

merge_files-disjoint :
    (files more merged : Dict Bytes)
    → merge_files files more ≡ ok merged
    → (name : String) (raw : Bytes) → lookup name more ≡ some raw
    → lookup name files ≡ none
unfolding merge_files lookup
merge_files-disjoint files [] merged h name raw e = cc
merge_files-disjoint files ((key, content) ∷ rest) merged h name raw e =
    let (new, h1) = refuse-eq-ok (is_some (lookup key files)) (duplicate_file key) _ h in
    elim (Bool-cases (key == name)) [
      | inl same ↦ rw (sym ((eq_iff key name).0 same)) (none_of (lookup key files) new)
      | inr other ↦
          sym (lookup-insert key name content files ∙ rw other refl)
          ∙ merge_files-disjoint (insert key content files) rest merged h1 name raw (rw other at e)
    ]
  where
    none_of : (o : Option Bytes) → is_some o ≡ false → o ≡ none
    none_of o k = ground (arith, Option-cases o)

module _ (p : Applier) (state : DesiredState) (base_artifact override_artifact : Bytes) where
  compose-IsMerged :
      (r : Pair) (c : Composed)
      → compose p r base_artifact override_artifact ≡ ok c
      → IsMerged p r base_artifact override_artifact c
  unfolding compose
  compose-IsMerged r c h =
      let (b, e1, h1) = bind-eq-ok (parsed p base_artifact) _ h in
      let (o, e2, h2) = bind-eq-ok (parsed p override_artifact) _ h1 in
      let (good, h3) = refuse-eq-ok (composition_refused r b.0 o.0) composition_failed _ h2 in
      let (files, e3, h4) = bind-eq-ok (merge_files b.1 o.1) _ h3 in
      of_parts r c b o files (parsed-eq-ok p base_artifact b e1)
        (parsed-eq-ok p override_artifact o e2) good e3 (ok_inj h4)
    where
      of_parts :
          (r : Pair) (c : Composed) (b o : Manifest × Dict Bytes) (files : Dict Bytes)
          → parse p.crypto.codec base_artifact ≡ ok b
          → parse p.crypto.codec override_artifact ≡ ok o
          → composition_refused r b.0 o.0 ≡ false
          → merge_files b.1 o.1 ≡ ok files
          → composed b.0 o.0 files ≡ c
          → IsMerged p r base_artifact override_artifact c
      of_parts r c b o files e1 e2 good e3 h =
          subst (λ d. IsMerged p r base_artifact override_artifact d) h
            (record {
              base_files = b.1;
              override_files = o.1;
              base_parsed = e1;
              override_parsed = e2;
              belonging = good;
              disjoint = merge_files-disjoint b.1 o.1 files e3;
              merged = merge_files-lookup b.1 o.1 files e3;
            })

  verified-both :
      (r : Pair) (u : Unit {0})
      → verify_both p state r base_artifact override_artifact ≡ ok u
      → IsAuthentic p.crypto base_artifact r.base.sha256 r.base.signature
        × IsAuthentic p.crypto override_artifact r.override.sha256 r.override.signature
        × (override_refused state r ≡ false)
  unfolding verify_both
  verified-both r u h =
      let (u1, e1, h1) =
        bind-eq-ok (verify_artifact p.crypto base_artifact r.base.sha256 r.base.signature) _ h in
      let (u2, e2, h2) =
        bind-eq-ok
          (verify_artifact p.crypto override_artifact r.override.sha256 r.override.signature) _
          h1 in
      (
        verify_artifact-IsAuthentic p.crypto base_artifact r.base.sha256 r.base.signature u1 e1,
        verify_artifact-IsAuthentic p.crypto override_artifact r.override.sha256
            r.override.signature u2 e2,
        (refuse-eq-ok (override_refused state r) override_differs (ok tt) h2).0,
      )

  pub split_revision-IsComposed :
      (c : Composed)
      → split_revision p state base_artifact override_artifact ≡ ok c
      → IsComposed p state base_artifact override_artifact c
  unfolding split_revision
  split_revision-IsComposed c h =
      let (_, h1) = refuse-eq-ok (not (one_of_modes state.mode)) unsupported_mode _ h in
      let (r, e1, h2) = bind-eq-ok (references state) _ h1 in
      let (_, h3) = refuse-eq-ok (formats_differ state r) split_formats_differ _ h2 in
      let (_, h4) =
        refuse-eq-ok (sizes_refused base_artifact override_artifact) size_invalid _ h3 in
      let (u, e2, h5) =
        bind-eq-ok (verify_both p state r base_artifact override_artifact)
          (λ _. compose p r base_artifact override_artifact) h4 in
      let (a, b, same) = verified-both r u e2 in
      record {
        pair = r;
        referenced = e1;
        base_authentic = a;
        override_authentic = b;
        as_desired = same;
        contents = compose-IsMerged r c h5;
      }

-- What a call of ApplySplit comes to: it is refused and the host is as it was, or the pair is
-- composed and the call does with its files what applyBundleFiles does.
abbrev pub IsApplied :
    Applier → String → DesiredState → Bytes → Bytes → World → Outcome (Unit {0}) → Type 0
IsApplied p web_server state base_artifact override_artifact w o =
    ((e : ApplyError) × (o ≡ (err e, w)))
    ⊎ ((c : Composed) × (metadata : Dict Bytes) × IsComposed p state base_artifact override_artifact
          c
        × (manifest_files p c ≡ ok metadata)
        × Settled p (revision_path p state) (staged_files c.files metadata) w o)

-- For every desired state, pair of artifacts and host, ApplySplit either returns an error and leaves
-- the host exactly as it was, or both artifacts are signed by the installed key, the override is the
-- one the desired state names, both parse, the manifests belong together, no file stands in both (each
-- name has the base's content, else the override's), and the host ends as applyBundleFiles leaves it
-- (`Settled`): on success the new revision is active, was not there before and holds these files and the
-- two manifests, and after an error the previous link is active unless putting it back has failed too.
pub apply_split-IsApplied :
    (p : Applier) (web_server : String) (state : DesiredState)
    (base_artifact override_artifact : Bytes) (w : World)
    → IsApplied p web_server state base_artifact override_artifact w
        (apply_split p web_server state base_artifact override_artifact w)
unfolding apply_split
apply_split-IsApplied p web_server state base_artifact override_artifact w =
    of_revision (split_revision p state base_artifact override_artifact) refl
  where
    Post : Outcome (Unit {0}) → Type 0
    Post = IsApplied p web_server state base_artifact override_artifact w

    of_metadata :
        (c : Composed) (m : Result ApplyError (Dict Bytes))
        → IsComposed p state base_artifact override_artifact c
        → manifest_files p c ≡ m
        → Post
            (continue (m, w) (λ metadata. apply_bundle_files p web_server state c.files metadata))
    of_metadata c (ok metadata) k h =
        inr (c, metadata, k, h, apply_bundle_files-Settled p web_server state c.files metadata w)
    of_metadata c (err e) k h = inl (e, refl)

    of_revision :
        (r : Result ApplyError Composed)
        → split_revision p state base_artifact override_artifact ≡ r
        → Post (
            continue
              (r, w)
              (λ c. lift (manifest_files p c) >>= λ metadata.
                apply_bundle_files p web_server state c.files metadata))
    of_revision (ok c) h =
        of_metadata c (manifest_files p c)
          (split_revision-IsComposed p state base_artifact override_artifact c h) refl
    of_revision (err e) h = inl (e, refl)

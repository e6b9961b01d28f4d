-- ===== src/Agent/Policy/Split.antt =====
-- internal/agent/policy.go: ApplySplit, which puts a base policy and its enterprise override in force
-- as one revision.
use m_waf.Common.{
  Bool, Bytes, Dict, Result, String, [], bind, equal_fold, err, if◌then◌else◌, insert, is_some,
  length, lookup, ltb, nat_eq, not, ok, or_err, refuse, ◌==◌, ◌||◌, ◌∷◌,
}
use m_waf.Agent.Host.{
  ApplyError, composition_failed, duplicate_file, override_differs, size_invalid,
  split_formats_differ, split_references_invalid, unsupported_mode,
}
use m_waf.Agent.Host.Exec.{Exec, lift, ◌>>=◌}
use m_waf.Agent.Verify.{verify_artifact}
use m_waf.Agent.Policy.Server.{
  Applier, DesiredState, PolicyArtifactReference, PolicyOverrideReference, one_of_modes,
}
use m_waf.Agent.Policy.Revision.{apply_bundle_files, manifest_file, parsed}
use m_waf.Bundle.Types.{Manifest, format_base, format_override}

-- the base and the override of one desired state
pub record Pair : Type 0 where
  pub base : PolicyArtifactReference
  pub override : PolicyOverrideReference

-- the references are there, and the format is the override's
unfoldable pub references : DesiredState → Result ApplyError Pair
references state =
    if not (state.artifact_format == format_override)
    then err split_references_invalid
    else bind (or_err state.base_policy split_references_invalid) λ b.
      bind (or_err state.override_policy split_references_invalid)
        λ o. ok (record { base = b; override = o })

unfoldable pub formats_differ : DesiredState → Pair → Bool
formats_differ state r =
    not (r.base.format == format_base)
    || not (r.override.format == format_override)
    || not (r.override.revision_id == state.revision_id)

unfoldable pub sizes_refused : Bytes → Bytes → Bool
sizes_refused base_artifact override_artifact =
    nat_eq (length base_artifact) 0
    || ltb 67108864 (length base_artifact)
    || nat_eq (length override_artifact) 0
    || ltb 4194304 (length override_artifact)

unfoldable pub override_refused : DesiredState → Pair → Bool
override_refused state r =
    not (equal_fold r.override.sha256 state.sha256) || not (r.override.signature == state.signature)

-- the manifests do not belong together, or are not the ones the references name
unfoldable pub composition_refused : Pair → Manifest → Manifest → Bool
composition_refused r b o =
    not (b.artifact_format == format_base)
    || not (o.artifact_format == format_override)
    || not (b.base_policy_id == r.base.id)
    || not (o.base_policy_id == r.base.id)
    || not (equal_fold o.base_artifact_sha256 r.base.sha256)
    || not (equal_fold o.override_config_sha256 r.override.override_config_sha256)
    || not (equal_fold o.effective_config_sha256 r.override.effective_config_sha256)
    || not (equal_fold o.validation_digest r.override.validation_digest)
    || not (b.policy_source.id == o.policy_source.id)
    || not (equal_fold b.policy_source.index_sha256 o.policy_source.index_sha256)

-- the loop that adds the override's files to the base's
unfoldable pub merge_files : Dict Bytes → Dict Bytes → Result ApplyError (Dict Bytes)
merge_files files [] = ok files
merge_files files ((name, content) ∷ rest) =
    let more = merge_files (insert name content files) rest in
    refuse (is_some (lookup name files)) (duplicate_file name) more

-- What both artifacts gave.
pub record Composed : Type 0 where
  pub base_manifest : Manifest
  pub override_manifest : Manifest
  pub files : Dict Bytes

abbrev pub composed : Manifest → Manifest → Dict Bytes → Composed
composed b o files = record { base_manifest = b; override_manifest = o; files = files }

module _ (p : Applier) where
  -- both artifacts are verified, against their own references and the desired state's
  unfoldable pub verify_both : DesiredState → Pair → Bytes → Bytes → Result ApplyError (Unit {0})
  verify_both state r base_artifact override_artifact =
      bind (verify_artifact p.crypto base_artifact r.base.sha256 r.base.signature) λ _.
        bind (verify_artifact p.crypto override_artifact r.override.sha256 r.override.signature)
          λ _. refuse (override_refused state r) override_differs (ok tt)

  -- both are parsed, checked against one another, and merged
  unfoldable pub compose : Pair → Bytes → Bytes → Result ApplyError Composed
  compose r base_artifact override_artifact = bind (parsed p base_artifact) λ b.
      bind (parsed p override_artifact) λ o.
        refuse (composition_refused r b.0 o.0) composition_failed
          (bind (merge_files b.1 o.1) λ files. ok (composed b.0 o.0 files))

  -- ApplySplit up to the call that changes the host
  unfoldable pub split_revision : DesiredState → Bytes → Bytes → Result ApplyError Composed
  split_revision state base_artifact override_artifact =
      refuse (not (one_of_modes state.mode)) unsupported_mode (
        bind (references state) λ r. refuse (formats_differ state r) split_formats_differ (
          refuse (sizes_refused base_artifact override_artifact) size_invalid (
            bind (verify_both state r base_artifact override_artifact)
              λ _. compose r base_artifact override_artifact)))

  -- the two manifests beside the files
  unfoldable pub manifest_files : Composed → Result ApplyError (Dict Bytes)
  manifest_files c = bind (manifest_file p c.base_manifest) λ b.
      bind (manifest_file p c.override_manifest)
        λ o. ok (("manifest.json", b) ∷ ("override-manifest.json", o) ∷ [])

  unfoldable pub apply_split : String → DesiredState → Bytes → Bytes → Exec (Unit {0})
  apply_split web_server state base_artifact override_artifact = do
    c ← lift (split_revision state base_artifact override_artifact)
    metadata ← lift (manifest_files c)
    apply_bundle_files p web_server state c.files metadata

-- ===== src/Agent/Policy/Authentic.antt =====
-- Nothing is changed for an artifact that does not verify, and a published revision is not
-- published again (internal/agent/policy.go).
use m_waf.Common.{
  Bool-cases, Bytes, Dict, Result, String, arith, err, inl, inr, length, lookup, ltb, nat_eq, ok,
  refl, some, ◌||◌, ◌≡◌,
}
use m_waf.Agent.Host.{ApplyError, World, unsupported_mode}
use m_waf.Agent.Host.Exec.{Outcome, continue}
use m_waf.Agent.Verify.{IsAuthentic, verify_artifact, verify_artifact-IsAuthentic}
use m_waf.Agent.Policy.Server.{Applier, DesiredState, one_of_modes, revision_path}
use m_waf.Agent.Policy.Revision.{apply_bundle_files}
use m_waf.Agent.Policy.Applied.{Settled, apply_bundle_files-Settled, staged_files}
use m_waf.Agent.Policy.{apply, dispatch_format, size_limit}

-- Whatever format is asked for, when the artifact is not signed by the installed key or its digest
-- is not the expected one, Apply returns an error and leaves the host exactly as it was: no file is
-- written, no link is switched and no command is run.
pub apply-unauthentic :
    (p : Applier) (web_server : String) (state : DesiredState) (artifact : Bytes) (w : World)
    → ¬ (IsAuthentic p.crypto artifact state.sha256 state.signature)
    → (e : ApplyError) × (apply p web_server state artifact w ≡ (err e, w))
unfolding apply
apply-unauthentic p web_server state artifact w bad = elim (Bool-cases (one_of_modes state.mode)) [
  | inr unknown ↦ (unsupported_mode, rw unknown)
  | inl known ↦
      elim (Bool-cases
        (nat_eq (length artifact) 0 || ltb (size_limit state.artifact_format) (length artifact))) [
          | inl wrong ↦ (ApplyError.size_invalid, rw (known, wrong))
          | inr fits ↦
              rw (known, fits)
                (refused (verify_artifact p.crypto artifact state.sha256 state.signature) refl)
        ]
]
  where
    refused :
        (r : Result ApplyError (Unit {0}))
        → verify_artifact p.crypto artifact state.sha256 state.signature ≡ r
        → (e : ApplyError) × (continue (r, w) (λ u. dispatch_format p web_server state artifact)
            ≡ (err e, w))
    refused (ok u) h =
        absurd
          (bad (verify_artifact-IsAuthentic p.crypto artifact state.sha256 state.signature u h))
    refused (err e) h = (e, refl)

-- When applyBundleFiles has returned no error, a second call for the same revision, on the host that
-- the first has left behind, returns an error.
pub apply_bundle_files_twice :
    (p : Applier) (web_server : String) (state : DesiredState) (files metadata : Dict Bytes)
    (w : World)
    → (apply_bundle_files p web_server state files metadata w).0 ≡ ok tt
    → (e : ApplyError) × ((apply_bundle_files p web_server state files metadata
          (apply_bundle_files p web_server state files metadata w).1).0
        ≡ err e)
apply_bundle_files_twice p web_server state files metadata w h =
    again (apply_bundle_files p web_server state files metadata w) h
      (apply_bundle_files-Settled p web_server state files metadata w)
  where
    second :
        (o : Outcome (Unit {0})) (w1 : World)
        → lookup (revision_path p state) w1.dirs ≡ some (staged_files files metadata)
        → Settled p (revision_path p state) (staged_files files metadata) w1 o
        → (e : ApplyError) × (o.0 ≡ err e)
    second (ok u, w2) w1 there s = absurd (ground (arith, there, s.2))
    second (err e, w2) w1 there s = (e, refl)

    again :
        (o : Outcome (Unit {0}))
        → o.0 ≡ ok tt
        → Settled p (revision_path p state) (staged_files files metadata) w o
        → (e : ApplyError) × ((apply_bundle_files p web_server state files metadata o.1).0 ≡ err e)
    again (ok u, w1) k s =
        second (apply_bundle_files p web_server state files metadata w1) w1 s.1
          (apply_bundle_files-Settled p web_server state files metadata w1)
    again (err e, w1) k s = cc

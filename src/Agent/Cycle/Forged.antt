-- ===== src/Agent/Cycle/Forged.antt =====
-- What a control cycle leaves when it applies a policy that is not authentic (internal/agent/agent.go).
use m_waf.Common.{
  Bool, Bytes, Option, String, ap, err, false, if◌then◌else◌, inl, inr, is_some, none, not, ok,
  refl, some, starts_with, sym, true, ◌==◌, ◌||◌, ◌∙◌, ◌≡◌, ◌⊎◌,
}
use m_waf.Agent.Action.{
  Post, Triple, Triple-bind, Triple-bind_value, Triple-weaken, pure, raise, ◌>>=◌,
}
use m_waf.Agent.Host.{ApplyError, World}
use m_waf.Agent.Host.Exec.{Exec}
use m_waf.Agent.Verify.{Crypto, IsAuthentic}
use m_waf.Agent.Policy.{apply}
use m_waf.Agent.Policy.Server.{Applier, DesiredState}
use m_waf.Agent.Policy.Split.{Pair, apply_split, references}
use m_waf.Agent.Policy.Composed.{IsApplied, apply_split-IsApplied}
use m_waf.Agent.Policy.Authentic.{apply-unauthentic}
use m_waf.Bundle.Types.{format_override}
use m_waf.Agent.Cycle.{
  Control, CycleError, Desired, Server, apply_desired, apply_pair, apply_single,
  artifact_path_invalid, attempt_step, base_path_invalid, current_desired_state, download,
  download_failed, ensure_policy_public_key, fetch_key, key_failed, of_host, on_host,
  references_missing, with_key,
}
use m_waf.Agent.Cycle.Backed.{attempt_step-Keeps}
use mathlib.Core.Path.{subst}

-- the key that verifies a policy in a cycle: the one of the key file, else the one of the Manager
abbrev pub key_in_force : Server → Option Bytes → Bytes
key_in_force server none = server.policy_key
key_in_force server (some raw) = raw

abbrev pub crypto_in_force : Server → Option Bytes → Crypto
crypto_in_force server key = record server.applier.crypto {
  key_file = some (key_in_force server key);
}

-- What the Manager serves for a desired policy is signed and has its digest: both artifacts of an override,
-- the one artifact of another format.
abbrev pub IsVouched : Bool → Crypto → Server → Desired → Type 0
IsVouched true crypto server d =
    (r : Pair) × (references d.policy ≡ ok r)
    × IsAuthentic crypto (server.served d.base_url) r.base.sha256 r.base.signature
    × IsAuthentic crypto (server.served d.override_url) r.override.sha256 r.override.signature
IsVouched false crypto server d =
    IsAuthentic crypto (server.served d.artifact_url) d.policy.sha256 d.policy.signature

-- the policy of a desired state, with the addresses of its artifacts
abbrev pub policy_of : Option Desired → DesiredState × String × String × String
policy_of saved =
    let d = current_desired_state saved in (d.policy, d.artifact_url, d.base_url, d.override_url)

-- The host and the saved policy are as they were. So is the key file, unless there was none and the
-- Manager's key was written.
abbrev pub IsUntouched : Server → Control → Control → Type 0
IsUntouched server c0 c =
    (c.host ≡ c0.host)
    × (policy_of c.saved ≡ policy_of c0.saved)
    × ((c.key_file ≡ c0.key_file) ⊎ (c.key_file ≡ some (key_in_force server c0.key_file)))

apply_split-unauthentic :
    (p : Applier) (web_server : String) (state : DesiredState) (base_raw override_raw : Bytes)
    (w : World)
    → ¬ (
        (r : Pair) × (references state ≡ ok r)
        × IsAuthentic p.crypto base_raw r.base.sha256 r.base.signature
        × IsAuthentic p.crypto override_raw r.override.sha256 r.override.signature)
    → (e : ApplyError) × (apply_split p web_server state base_raw override_raw w ≡ (err e, w))
apply_split-unauthentic p web_server state base_raw override_raw w forged =
    of_applied (apply_split-IsApplied p web_server state base_raw override_raw w)
  where
    of_applied :
        IsApplied p web_server state base_raw override_raw w
          (apply_split p web_server state base_raw override_raw w)
        → (e : ApplyError) × (apply_split p web_server state base_raw override_raw w ≡ (err e, w))
    of_applied (inl refused) = refused
    of_applied (inr (c, metadata, k, made, rest)) =
        absurd (forged (k.pair, k.referenced, k.base_authentic, k.override_authentic))

module _ (server : Server) (d : Desired) (c0 : Control) where
  abbrev pub Same : Control → Type 0
  Same = IsUntouched server c0

  -- the key in force is in the key file
  abbrev Keyed : Control → Type 0
  Keyed c = Same c × (c.key_file ≡ some (key_in_force server c0.key_file))

  pub attempt_step-Same : (e : CycleError) → Triple Same (attempt_step e) (λ a. Same) (λ e. Same)
  attempt_step-Same e = attempt_step-Keeps Same (λ c fs k. k) e

  attempt_step-Keyed : (e : CycleError) → Triple Keyed (attempt_step e) (λ a. Keyed) (λ e. Same)
  attempt_step-Keyed e =
      Triple-weaken (attempt_step-Keeps Keyed (λ c fs k. k) e) (λ c k. k) (λ a c k. k)
        (λ e c k. k.0)

  fetch_new-Keyed :
      c0.key_file ≡ none → Triple Same (fetch_key server none) (λ u. Keyed) (λ e. Same)
  unfolding fetch_key
  fetch_new-Keyed missing = Triple-bind (attempt_step-Same key_failed) λ u.
      Triple-bind (attempt_step-Same key_failed)
        λ u. record { at = λ c k. ((k.0, k.1, inr written), written) }
    where
      written :
          ◌≡◌ {A = Option Bytes} (some server.policy_key) (some (key_in_force server c0.key_file))
      written = ap (λ o. some (key_in_force server o)) (sym missing)

  ensure-Keyed : Triple Same (ensure_policy_public_key server) (λ u. Keyed) (λ e. Same)
  unfolding ensure_policy_public_key fetch_key
  ensure-Keyed =
      Triple-bind (attempt_step-Same key_failed)
        (λ u. record { at = λ c k. by_key c.key_file c k k.2 refl })
    where
      by_key :
          (key : Option Bytes) (c : Control)
          → Same c
          → (c.key_file ≡ c0.key_file) ⊎ (c.key_file ≡ some (key_in_force server c0.key_file))
          → c.key_file ≡ key
          → Post (λ u. Keyed) (λ e. Same) (fetch_key server key c)
      by_key (some raw) c k (inl h) e =
          (k, e ∙ ap some (sym (ap (key_in_force server) (sym h ∙ e))))
      by_key (some raw) c k (inr h) e = (k, h)
      by_key none c k (inl h) e = (fetch_new-Keyed (sym h ∙ e)).at c k
      by_key none c k (inr h) e = cc

  download-Keyed :
      (prefix : String) (e : CycleError) (path : String)
      → Triple Keyed
          (download server prefix e path)
          (λ a c. (a ≡ server.served path) × Keyed c)
          (λ e. Same)
  unfolding download
  download-Keyed prefix e path = by_prefix (not (starts_with path prefix))
    where
      by_prefix :
          (b : Bool)
          → Triple Keyed
              (if b
                then raise e
                else (attempt_step download_failed >>= λ u. pure (server.served path)))
              (λ a c. (a ≡ server.served path) × Keyed c)
              (λ e. Same)
      by_prefix true = record { at = λ c k. k.0 }
      by_prefix false =
          Triple-bind (attempt_step-Keyed download_failed) (λ u. record { at = λ c k. (refl, k) })

  -- a call of the applier, with the key in force, that refuses
  refused-Same :
      (m : Option Bytes → Exec (Unit {0}))
      → ((w : World)
          → (e : ApplyError) × (m (some (key_in_force server c0.key_file)) w ≡ (err e, w)))
      → Triple Keyed (λ c. on_host (m c.key_file) c) (λ a c. ⊥) (λ e. Same)
  refused-Same m refuses = record {
    at = λ c k.
        subst (λ o. Post (λ a c. ⊥) (λ e. Same) (of_host c (m o c.host))) (sym k.1)
          (refused c k.0 (refuses c.host));
  }
    where
      refused :
          (c : Control)
          → Same c
          → (e : ApplyError) × (m (some (key_in_force server c0.key_file)) c.host ≡ (err e, c.host))
          → Post
              (λ a c. ⊥)
              (λ e. Same)
              (of_host c (m (some (key_in_force server c0.key_file)) c.host))
      refused c k (e, h) = subst (λ o. Post (λ a c. ⊥) (λ e. Same) (of_host c o)) (sym h) k

  apply_single-Same :
      ¬ IsVouched false (crypto_in_force server c0.key_file) server d
      → Triple Keyed (apply_single server d) (λ a c. ⊥) (λ e. Same)
  unfolding apply_single
  apply_single-Same forged =
      Triple-bind_value
        (λ artifact c.
          on_host (apply (with_key server.applier c.key_file) server.web_server d.policy artifact)
            c)
        (server.served d.artifact_url) (download-Keyed _ artifact_path_invalid d.artifact_url)
        (refused-Same
          (λ key.
            apply (with_key server.applier key) server.web_server d.policy
              (server.served d.artifact_url))
          (λ w.
            apply-unauthentic (with_key server.applier (some (key_in_force server c0.key_file)))
              server.web_server d.policy (server.served d.artifact_url) w forged))

  apply_pair-Same :
      ¬ IsVouched true (crypto_in_force server c0.key_file) server d
      → Triple Keyed (apply_pair server d) (λ a c. ⊥) (λ e. Same)
  unfolding apply_pair
  apply_pair-Same forged =
      Triple-bind_value
        (λ base_raw.
          download server "/agent/v1/artifacts/" artifact_path_invalid d.override_url
          >>= λ override_raw c.
              on_host
                (apply_split (with_key server.applier c.key_file) server.web_server d.policy
                  base_raw override_raw)
                c)
        (server.served d.base_url) (download-Keyed _ base_path_invalid d.base_url)
        (Triple-bind_value
          (λ override_raw c.
            on_host
              (apply_split (with_key server.applier c.key_file) server.web_server d.policy
                (server.served d.base_url) override_raw)
              c)
          (server.served d.override_url) (download-Keyed _ artifact_path_invalid d.override_url)
          (refused-Same
            (λ key.
              apply_split (with_key server.applier key) server.web_server d.policy
                (server.served d.base_url) (server.served d.override_url))
            (λ w.
              apply_split-unauthentic
                (with_key server.applier (some (key_in_force server c0.key_file))) server.web_server
                d.policy (server.served d.base_url) (server.served d.override_url) w forged)))

  pub apply_desired-Same :
      ¬ IsVouched
        (d.policy.artifact_format == format_override)
        (crypto_in_force server c0.key_file)
        server
        d
      → Triple Same (apply_desired server d) (λ a c. ⊥) (λ e. Same)
  unfolding apply_desired
  apply_desired-Same forged = Triple-bind ensure-Keyed (λ u.
      by_format (d.policy.artifact_format == format_override)
        (not (is_some d.policy.base_policy) || not (is_some d.policy.override_policy)) forged)
    where
      by_format :
          (b missing : Bool)
          → ¬ IsVouched b (crypto_in_force server c0.key_file) server d
          → Triple Keyed
              (if b
                then (if missing then raise references_missing else apply_pair server d)
                else apply_single server d)
              (λ a c. ⊥)
              (λ e. Same)
      by_format true true h = record { at = λ c k. k.0 }
      by_format true false h = apply_pair-Same h
      by_format false missing h = apply_single-Same h

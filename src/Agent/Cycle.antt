-- ===== src/Agent/Cycle.antt =====
-- The policy part of runControlCycle of internal/agent/agent.go: the desired state of the Manager is
-- compared with the saved one, applied, reported and saved. What the Manager serves is a parameter.
pub mod Backed
pub mod Forged
pub mod Refused
use m_waf.Common.{
  Bool, Bytes, List, Option, String, [], base, err, if◌then◌else◌, is_some, none, not, ok, some,
  starts_with, ◌&&◌, ◌++◌, ◌==◌, ◌||◌, ◌∷◌,
}
use m_waf.Agent.Action.{Action, Outcome, catch, modify, pure, raise, ◌>>=◌, ◌>>◌}
use m_waf.Agent.Host.{ApplyError, World}
use m_waf.Agent.Host.Exec.{Exec}
use m_waf.Agent.Spool.{Fault, fails, first_fault, is_working, other_faults, unanswered, works}
use m_waf.Agent.Deployment.Types.{PackageDeployment, Report}
use m_waf.Agent.Policy.Server.{Applier, DesiredState}
use m_waf.Agent.Policy.{apply}
use m_waf.Agent.Policy.Split.{apply_split}
use m_waf.Bundle.Types.{format_override}

-- model.DesiredState: `policy` and the addresses of its artifacts are the policy, the others the packages
pub record Desired : Type 0 where
  pub policy : DesiredState
  pub artifact_url : String
  pub base_url : String
  pub override_url : String
  pub agent_package_id : String
  pub module_package_id : String
  pub package_deployment : Option PackageDeployment

pub data CycleError : Type 0 where
  key_failed references_missing artifact_path_invalid base_path_invalid : CycleError
  download_failed result_unsent state_unsaved : CycleError
  apply_failed : ApplyError → CycleError

-- The server and the Manager's side of its policy results. The saved state is `none` when its file
-- cannot be read, the key file is `none` when it does not exist.
pub record Control : Type 0 where
  pub host : World
  pub key_file : Option Bytes
  pub saved : Option Desired
  pub results : List Report
  pub faults : List Fault

abbrev pub Controlling : Type 0 → Type 0
Controlling A = Action Control CycleError A

-- The inventory, the applier, and what the Manager answers to downloads. The key file that the applier
-- reads is the one of the state.
pub record Server : Type 0 where
  pub applier : Applier
  pub policy_key : Bytes
  pub web_server : String
  pub integration_ready : Bool
  pub config_test_ok : Bool
  pub served : String → Bytes
  -- err.Error()
  pub text_of : CycleError → String

-- a call that fails with `e` or does nothing that is modelled
unfoldable pub attempt_step : CycleError → Controlling (Unit {0})
attempt_step e c =
    let c' = record c { faults = other_faults c.faults } in
    if is_working (first_fault c.faults) then (ok tt, c') else (err e, c')

-- what the applier has done, on this server
abbrev pub of_host :
    {A : Type 0} → Control → Outcome World ApplyError A → Outcome Control CycleError A
of_host c (ok a, w) = (ok a, record c { host = w })
of_host c (err e, w) = (err (apply_failed e), record c { host = w })

abbrev pub on_host : {A : Type 0} → Exec A → Controlling A
on_host m c = of_host c (m c.host)

abbrev pub answer_result : Fault → Report → Control → Outcome Control CycleError (Unit {0})
answer_result works r c = (ok tt, record c { results = c.results ++ r ∷ [] })
answer_result fails r c = (err result_unsent, c)
answer_result unanswered r c = (err result_unsent, record c { results = c.results ++ r ∷ [] })

-- Client.SendPolicyResult; a result whose answer is lost has been received
unfoldable pub send_policy_result : String → String → String → Controlling (Unit {0})
send_policy_result revision status detail c =
    answer_result (first_fault c.faults)
      (record { id = revision; status = status; detail = detail })
      (record c { faults = other_faults c.faults })

abbrev no_policy : Desired
no_policy = record {
  policy = record {
    revision_id = "";
    artifact_format = "";
    sha256 = "";
    signature = "";
    mode = "DetectionOnly";
    base_policy = none;
    override_policy = none;
  };
  artifact_url = "";
  base_url = "";
  override_url = "";
  agent_package_id = "";
  module_package_id = "";
  package_deployment = none;
}

abbrev pub current_desired_state : Option Desired → Desired
current_desired_state none = no_policy
current_desired_state (some d) = d

unfoldable pub save_desired_state : Desired → Controlling (Unit {0})
unfolding attempt_step
save_desired_state d = do attempt_step state_unsaved; modify (λ c. record c { saved = some d })

-- `desired.RevisionID != "" && (desired.RevisionID != state.RevisionID || desired.SHA256 != state.SHA256)`
unfoldable pub is_new : Desired → Desired → Bool
is_new d state =
    not (d.policy.revision_id == "")
    && (not (d.policy.revision_id == state.policy.revision_id)
        || not (d.policy.sha256 == state.policy.sha256))

-- `persistedDesired` when the inventory is not ready: the packages are the new ones, the policy stays
abbrev pub keep_policy : Desired → Desired → Desired
keep_policy d state = record d {
  policy = state.policy;
  artifact_url = state.artifact_url;
  base_url = state.base_url;
  override_url = state.override_url;
}

-- an applier that finds this key file
abbrev pub with_key : Applier → Option Bytes → Applier
with_key p key = record p { crypto = record p.crypto { key_file = key } }

module _ (server : Server) where
  -- a key file that exists is left alone, else the Manager's key is downloaded and written
  unfoldable pub fetch_key : Option Bytes → Controlling (Unit {0})
  fetch_key (some raw) = pure tt
  fetch_key none = do
    attempt_step key_failed
    attempt_step key_failed
    modify (λ c. record c { key_file = some server.policy_key })

  -- Client.EnsurePolicyPublicKey
  unfoldable pub ensure_policy_public_key : Controlling (Unit {0})
  unfolding fetch_key
  ensure_policy_public_key = do attempt_step key_failed; λ c. fetch_key c.key_file c

  -- Client.DownloadPolicy and Client.DownloadBasePolicy
  unfoldable pub download : String → CycleError → String → Controlling Bytes
  download prefix e path =
      if not (starts_with path prefix)
      then raise e
      else (do attempt_step download_failed; pure (server.served path))

  unfoldable pub apply_pair : Desired → Controlling (Unit {0})
  apply_pair d = do
    base ← download "/agent/v1/base-artifacts/" base_path_invalid d.base_url
    override ← download "/agent/v1/artifacts/" artifact_path_invalid d.override_url
    λ c.
        on_host
          (apply_split (with_key server.applier c.key_file) server.web_server d.policy base
            override)
          c

  unfoldable pub apply_single : Desired → Controlling (Unit {0})
  apply_single d = do
    artifact ← download "/agent/v1/artifacts/" artifact_path_invalid d.artifact_url
    λ c. on_host (apply (with_key server.applier c.key_file) server.web_server d.policy artifact) c

  -- the closure behind `applyErr`
  unfoldable pub apply_desired : Desired → Controlling (Unit {0})
  apply_desired d = do
    ensure_policy_public_key
    if d.policy.artifact_format == format_override
        then (if not (is_some d.policy.base_policy) || not (is_some d.policy.override_policy)
            then raise references_missing
            else apply_pair d)
        else apply_single d

  -- a policy that was applied is reported, then saved
  unfoldable pub apply_and_report : Desired → Controlling (Unit {0})
  apply_and_report d =
      catch (apply_desired d)
        (λ e.
          catch (send_policy_result d.policy.revision_id "FAILED" (server.text_of e)) (λ _. raise e)
            (λ _. raise e))
        (λ u. send_policy_result d.policy.revision_id "APPLIED" "")

  unfoldable pub handle_policy : Desired → Controlling (Unit {0})
  handle_policy d c =
      let state = current_desired_state c.saved in
      (if not (is_new d state)
          then save_desired_state d
          else if not server.integration_ready || not server.config_test_ok
          then save_desired_state (keep_policy d state)
          else (do apply_and_report d; save_desired_state d))
        c

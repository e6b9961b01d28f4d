-- ===== src/Agent/Deployment/Types.antt =====
-- The data of package deployments: PackageDeployment and PackageDownload of internal/model/model.go,
-- and what internal/agent keeps of them on the server.
use m_waf.Common.{
  List, Option, String, [], err, if◌then◌else◌, none, ok, some, trim_space, ◌++◌, ◌==◌, ◌∷◌,
}
use m_waf.Agent.Action.{Action, Outcome, ◌>>◌}
use m_waf.Agent.Spool.{Fault, fails, first_fault, is_working, other_faults, unanswered, works}

pub record PackageDownload : Type 0 where
  pub id : String
  pub version : String
  pub format : String
  pub install_root : String
  pub web_server : String
  pub web_server_build : String
  pub integration_mode : String
  pub runtime_abi : String

pub record PackageDeployment : Type 0 where
  pub id : String
  pub scope : String
  pub web_server_control : String
  pub agent : PackageDownload
  pub module_package : PackageDownload
  pub rollback_agent : PackageDownload

abbrev pub scope_agent : String
scope_agent = "agent"

abbrev pub scope_agent_module : String
scope_agent_module = "agent_module"

abbrev pub format_deb : String
format_deb = "deb"

abbrev pub format_zip : String
format_zip = "zip"

unfoldable pub normalize_package_scope : String → String
normalize_package_scope scope = if scope == "" then scope_agent_module else scope

unfoldable pub normalize_web_server_control : String → String
normalize_web_server_control mode = if mode == "" then "standard" else mode

pub data StationError : Type 0 where
  state_unreadable state_unwritten report_failed restart_failed : StationError
  -- of applyPackageDeployment
  deployment_incomplete scope_invalid format_unsupported metadata_missing : StationError
  candidate_missing control_unsupported hooks_invalid workspace_failed : StationError
  agent_download_failed module_download_failed external_required module_zip_invalid : StationError
  placeholder_failed apt_failed integration_unprepared : StationError
  -- of applyAgentPackageDeployment
  agent_unversioned id_unsafe cache_failed rollback_format_invalid : StationError
  rollback_download_failed : StationError
  -- of executeNextCommand
  selection_missing command_hooks_invalid command_unsupported execution_failed : StationError

-- model.DeploymentResult, with the deployment that it is sent for
pub record Report : Type 0 where
  pub id : String
  pub status : String
  pub detail : String

pub record InstallationSelection : Type 0 where
  pub web_server : String
  pub web_server_binary : String
  pub web_server_control : String
  pub integration_mode : String
  pub installation_mode : String

pub record PendingUpdate : Type 0 where
  pub deployment_id : String
  pub target_version : String

-- the server, with the Manager's side of its reports
pub record Station : Type 0 where
  -- last-package-deployment, failed-package-deployment, its detail, reported-package-deployment
  pub last : Option String
  pub failed : Option String
  pub failed_detail : Option String
  pub reported : Option String
  pub custom_module_version : Option String
  pub pending_update : Option PendingUpdate
  pub selection : Option InstallationSelection
  -- the packages that were installed, the last one last
  pub packages : List String
  pub restart_requested : String
  pub reports : List Report
  -- last-command-id, the results of commands, and the commands that were run, by their ids
  pub last_command : Option String
  pub command_results : List Report
  pub executed : List String
  pub faults : List Fault

abbrev pub Duty : Type 0 → Type 0
Duty A = Action Station StationError A

-- a call that fails with `e` or does nothing that is modelled
unfoldable pub attempt_call : StationError → Duty (Unit {0})
attempt_call e s =
    let s' = record s { faults = other_faults s.faults } in
    if is_working (first_fault s.faults) then (ok tt, s') else (err e, s')

-- what a state file says
unfoldable pub value_of : Option String → String
value_of none = ""
value_of (some text) = trim_space text

-- readStateValue
unfoldable pub read_value : (Station → Option String) → Duty String
unfolding value_of
read_value file = do attempt_call state_unreadable; λ s. (ok (value_of (file s)), s)

abbrev pub answer_report : Fault → Report → Station → Outcome Station StationError (Unit {0})
answer_report works r s = (ok tt, record s { reports = s.reports ++ r ∷ [] })
answer_report fails r s = (err report_failed, s)
answer_report unanswered r s = (err report_failed, record s { reports = s.reports ++ r ∷ [] })

-- Client.SendPackageResult; a report whose answer is lost has been received
unfoldable pub send_package_result : String → String → String → Duty (Unit {0})
send_package_result id status detail s =
    answer_report (first_fault s.faults) (record { id = id; status = status; detail = detail })
      (record s { faults = other_faults s.faults })

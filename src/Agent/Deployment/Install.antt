-- ===== src/Agent/Deployment/Install.antt =====
-- applyPackageDeployment and applyAgentPackageDeployment of internal/agent/operations.go. Discovery of
-- web servers and the check of hooks are a parameter; a download, an unpacking or an installation is a
-- call that may fail.
use Prim.Native.String.{[], ◌∷◌}
use Prim.Native.Char.{code}
use m_waf.Common.{
  Bool, List, Result, String, [], equal_fold, err, false, if◌then◌else◌, leb, len, ltb, nat_eq, not,
  ok, refuse, some, true, ℕ, ◌&&◌, ◌++◌, ◌==◌, ◌||◌, ◌∷◌, ◌⧺◌,
}
use m_waf.Agent.Action.{lift, modify, pure, raise, ◌>>=◌, ◌>>◌}
use m_waf.Agent.Deployment.Types.{
  Duty, InstallationSelection, PackageDeployment, PackageDownload, StationError,
  agent_download_failed, agent_unversioned, apt_failed, attempt_call, cache_failed,
  candidate_missing, control_unsupported, deployment_incomplete, external_required, format_deb,
  format_unsupported, format_zip, hooks_invalid, id_unsafe, integration_unprepared,
  metadata_missing, module_download_failed, module_zip_invalid, normalize_package_scope,
  normalize_web_server_control, placeholder_failed, rollback_download_failed,
  rollback_format_invalid, scope_agent, scope_agent_module, scope_invalid, state_unwritten,
  workspace_failed,
}

pub record Candidate : Type 0 where
  pub kind : String
  pub build_hash : String
  pub binary : String
  pub package_managed : Bool

pub record Tools : Type 0 where
  -- version.Version
  pub version : String
  -- discoverWebServers
  pub discovered : List Candidate
  -- validateControlHooks
  pub hooks_valid : String → Bool

unfoldable pub candidate_skipped : PackageDownload → Candidate → Bool
candidate_skipped item c =
    not (c.kind == item.web_server)
    || (not (item.web_server_build == "") && not (equal_fold c.build_hash item.web_server_build)
        || item.format == format_deb
          && (item.integration_mode == "distro" && not c.package_managed))

unfoldable pub select_candidate : PackageDownload → List Candidate → Result StationError Candidate
select_candidate item [] = err candidate_missing
select_candidate item (c ∷ cs) = if candidate_skipped item c then select_candidate item cs else ok c

unfoldable pub module_format : PackageDeployment → String
module_format d = if d.module_package.format == "" then format_deb else d.module_package.format

-- the checks that come before a file is touched
unfoldable pub check_deployment : PackageDeployment → Result StationError (Unit {0})
check_deployment d =
    refuse
      (not (normalize_package_scope d.scope == scope_agent_module) || d.module_package.id == "")
      scope_invalid
      (refuse (not (module_format d == format_deb) && not (module_format d == format_zip))
        format_unsupported
        (refuse
          (module_format d == format_zip
            && (d.module_package.web_server_build == "" || d.module_package.runtime_abi == ""))
          metadata_missing (ok tt)))

unfoldable pub check_control :
    Tools → PackageDeployment → Candidate → Result StationError (Unit {0})
check_control t d c =
    let mode = normalize_web_server_control d.web_server_control in
    refuse (not (mode == "standard") && not (mode == "hooks")) control_unsupported
      (refuse (mode == "hooks" && not (t.hooks_valid c.kind)) hooks_invalid (ok tt))

-- one package is unpacked or handed to apt
unfoldable pub install_packages : StationError → List String → Duty (Unit {0})
install_packages e ids = do attempt_call e; modify (λ s. record s { packages = s.packages ++ ids })

unfoldable pub when_updated : Bool → Duty (Unit {0}) → Duty (Unit {0})
when_updated true m = m
when_updated false m = pure tt

-- os.MkdirTemp and the downloads
unfoldable pub download_packages : Bool → Duty (Unit {0})
unfolding when_updated
download_packages updated = do
  attempt_call workspace_failed
  when_updated updated (attempt_call agent_download_failed)
  attempt_call module_download_failed

unfoldable pub install_zip : PackageDeployment → Bool → Duty (Unit {0})
unfolding install_packages when_updated
install_zip d updated =
    if not (d.module_package.install_root == "/opt/m-waf")
      || not (d.module_package.integration_mode == "external")
    then raise external_required
    else (do
      install_packages module_zip_invalid (d.module_package.id ∷ [])
      attempt_call placeholder_failed
      attempt_call state_unwritten
      modify (λ s. record s { custom_module_version = some (d.module_package.version ⧺ "\n") })
      when_updated updated (install_packages apt_failed (d.agent.id ∷ [])))

unfoldable pub install_debs : PackageDeployment → Bool → Duty (Unit {0})
unfolding install_packages
install_debs d updated = do
  install_packages apt_failed (d.module_package.id ∷ (if updated then d.agent.id ∷ [] else []))
  attempt_call integration_unprepared

unfoldable pub install_module : PackageDeployment → Bool → Duty (Unit {0})
install_module d updated =
    if module_format d == format_zip then install_zip d updated else install_debs d updated

abbrev pub selection_of : PackageDeployment → Candidate → InstallationSelection
selection_of d c = record {
  web_server = d.module_package.web_server;
  web_server_binary = c.binary;
  web_server_control = normalize_web_server_control d.web_server_control;
  integration_mode = d.module_package.integration_mode;
  installation_mode = if module_format d == format_zip then "custom_zip" else "package";
}

unfoldable pub save_selection : InstallationSelection → Duty (Unit {0})
save_selection selection = do
  attempt_call state_unwritten
  modify (λ s. record s { selection = some selection })

-- `deployment.Agent.Version != "" && deployment.Agent.Version != version.Version`
abbrev pub is_updated : Tools → PackageDeployment → Bool
is_updated t d = not (d.agent.version == "") && not (d.agent.version == t.version)

abbrev in_range : ℕ → ℕ → ℕ → Bool
in_range low high c = leb low c && leb c high

unfoldable pub safe_characters : String → Bool
safe_characters [] = true
safe_characters (c ∷ s) =
    (nat_eq (code c) 45
      || nat_eq (code c) 95
      || in_range 48 57 (code c)
      || in_range 65 90 (code c)
      || in_range 97 122 (code c))
    && safe_characters s

unfoldable pub safe_state_id : String → Bool
safe_state_id value = not (value == "" || ltb 128 (len value)) && safe_characters value

-- the package to go back to
unfoldable pub download_rollback : PackageDeployment → Duty (Unit {0})
download_rollback d =
    if d.rollback_agent.id == ""
    then pure tt
    else if not (d.rollback_agent.format == "") && not (d.rollback_agent.format == format_deb)
    then raise rollback_format_invalid
    else attempt_call rollback_download_failed

unfoldable pub save_pending : PackageDeployment → Duty (Unit {0})
save_pending d = do
  attempt_call state_unwritten
  modify (λ s. record s {
    pending_update = some (record { deployment_id = d.id; target_version = d.agent.version });
  })

-- the steps on files: the cache directory is emptied and made, the packages are fetched
unfoldable pub update_agent : PackageDeployment → Duty Bool
unfolding download_rollback save_pending install_packages
update_agent d = do
  attempt_call cache_failed
  attempt_call cache_failed
  attempt_call agent_download_failed
  download_rollback d
  save_pending d
  install_packages apt_failed (d.agent.id ∷ [])
  pure true

unfoldable pub apply_agent_package_deployment : Tools → PackageDeployment → Duty Bool
unfolding update_agent
apply_agent_package_deployment t d =
    if d.agent.version == "" || not (d.agent.format == "") && not (d.agent.format == format_deb)
    then raise agent_unversioned
    else if d.agent.version == t.version
    then pure false
    else if not (safe_state_id d.id)
    then raise id_unsafe
    else update_agent d

-- the Agent and a module
unfoldable pub apply_module : Tools → PackageDeployment → Duty Bool
unfolding download_packages install_module save_selection
apply_module t d = do
  lift (check_deployment d)
  c ← lift (select_candidate d.module_package t.discovered)
  lift (check_control t d c)
  download_packages (is_updated t d)
  install_module d (is_updated t d)
  save_selection (selection_of d c)
  pure (is_updated t d)

unfoldable pub apply_package_deployment : Tools → PackageDeployment → Duty Bool
unfolding apply_agent_package_deployment apply_module
apply_package_deployment t d =
    if d.id == "" || d.agent.id == ""
    then raise deployment_incomplete
    else if normalize_package_scope d.scope == scope_agent
    then apply_agent_package_deployment t d
    else apply_module t d

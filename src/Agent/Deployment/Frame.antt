-- ===== src/Agent/Deployment/Frame.antt =====
-- applyPackageDeployment of internal/agent/operations.go leaves the books on deployments alone.
use m_waf.Common.{
  Bool, List, Option, Result, String, [], err, false, if◌then◌else◌, not, ok, true, ◌&&◌, ◌==◌,
  ◌||◌, ◌∷◌,
}
use m_waf.Agent.Action.{Post, Triple, Triple-bind, lift, modify, pure, raise, ◌>>◌}
use m_waf.Agent.Spool.{Fault, first_fault, is_working, other_faults}
use m_waf.Agent.Deployment.Types.{
  Duty, PackageDeployment, Report, Station, StationError, agent_download_failed, agent_unversioned,
  apt_failed, attempt_call, cache_failed, deployment_incomplete, external_required, format_deb,
  format_zip, id_unsafe, integration_unprepared, module_download_failed, module_zip_invalid,
  normalize_package_scope, placeholder_failed, rollback_download_failed, rollback_format_invalid,
  scope_agent, state_unwritten, workspace_failed,
}
use m_waf.Agent.Deployment.Install.{
  Tools, apply_agent_package_deployment, apply_module, apply_package_deployment, check_control,
  check_deployment, download_packages, download_rollback, install_debs, install_module,
  install_packages, install_zip, is_updated, module_format, safe_state_id, save_pending,
  save_selection, select_candidate, update_agent, when_updated,
}

-- what the control cycle knows of deployments and has told the Manager
pub record Books : Type 0 where
  pub last : Option String
  pub failed : Option String
  pub reported : Option String
  pub restart_requested : String
  pub reports : List Report

abbrev pub books : Station → Books
books s = record {
  last = s.last;
  failed = s.failed;
  reported = s.reported;
  restart_requested = s.restart_requested;
  reports = s.reports;
}

-- what holds of the faults to come still holds when one has come
abbrev pub IsClosed : (List Fault → Type 0) → Type 0
IsClosed F = (fs : List Fault) → F fs → F (other_faults fs)

abbrev pub Kept : (Books → Type 0) → (List Fault → Type 0) → Station → Type 0
Kept Q F s = Q (books s) × F s.faults

-- an action that keeps what is said of the books
abbrev pub Keeps : (Books → Type 0) → (List Fault → Type 0) → {A : Type 0} → Duty A → Type 0
Keeps Q F m = Triple (Kept Q F) m (λ a. Kept Q F) (λ e. Kept Q F)

module _ (Q : Books → Type 0) (F : List Fault → Type 0) (closed : IsClosed F) where
  by_fault-Kept :
      (b : Bool) (e : StationError) (s : Station)
      → Kept Q F s
      → Post (λ a. Kept Q F) (λ e. Kept Q F) (if b then (ok tt, s) else (err e, s))
  by_fault-Kept true e s k = k
  by_fault-Kept false e s k = k

  pub attempt_call-Keeps : (e : StationError) → Keeps Q F (attempt_call e)
  unfolding attempt_call
  attempt_call-Keeps e = record {
    at = λ s k.
        by_fault-Kept (is_working (first_fault s.faults)) e
          (record s { faults = other_faults s.faults }) (k.0, closed s.faults k.1);
  }

  pure-Keeps : {A : Type 0} (a : A) → Keeps Q F (pure a)
  pure-Keeps a = record { at = λ s k. k }

  raise-Keeps : {A : Type 0} (e : StationError) → Keeps Q F (raise {A = A} e)
  raise-Keeps e = record { at = λ s k. k }

  lift-Keeps : {A : Type 0} (r : Result StationError A) → Keeps Q F (lift r)
  lift-Keeps (ok a) = record { at = λ s k. k }
  lift-Keeps (err e) = record { at = λ s k. k }

  -- a change beside the books
  modify-Keeps :
      (f : Station → Station) → ((s : Station) → Kept Q F s → Kept Q F (f s)) → Keeps Q F (modify f)
  modify-Keeps f beside = record { at = beside }

  if-Keeps :
      {A : Type 0} (b : Bool) {m k : Duty A}
      → Keeps Q F m
      → Keeps Q F k
      → Keeps Q F (if b then m else k)
  if-Keeps true tm tk = tm
  if-Keeps false tm tk = tk

  then-Keeps :
      {A B : Type 0} {m : Duty A} {k : Duty B} → Keeps Q F m → Keeps Q F k → Keeps Q F (m >> k)
  then-Keeps tm tk = Triple-bind tm (λ a. tk)

  install_packages-Keeps :
      (e : StationError) (ids : List String) → Keeps Q F (install_packages e ids)
  unfolding install_packages
  install_packages-Keeps e ids = then-Keeps (attempt_call-Keeps e) (modify-Keeps _ (λ s k. k))

  when_updated-Keeps : (b : Bool) {m : Duty (Unit {0})} → Keeps Q F m → Keeps Q F (when_updated b m)
  unfolding when_updated
  when_updated-Keeps true t = t
  when_updated-Keeps false t = pure-Keeps tt

  download_packages-Keeps : (b : Bool) → Keeps Q F (download_packages b)
  unfolding download_packages
  download_packages-Keeps b = then-Keeps (attempt_call-Keeps workspace_failed) (
      then-Keeps (when_updated-Keeps b (attempt_call-Keeps agent_download_failed))
        (attempt_call-Keeps module_download_failed))

  install_zip-Keeps : (d : PackageDeployment) (b : Bool) → Keeps Q F (install_zip d b)
  unfolding install_zip
  install_zip-Keeps d b =
      if-Keeps
        (not (d.module_package.install_root == "/opt/m-waf")
          || not (d.module_package.integration_mode == "external"))
        (raise-Keeps external_required)
        (then-Keeps (install_packages-Keeps module_zip_invalid (d.module_package.id ∷ [])) (
          then-Keeps (attempt_call-Keeps placeholder_failed) (
            then-Keeps (attempt_call-Keeps state_unwritten) (
              then-Keeps (modify-Keeps _ (λ s k. k))
                (when_updated-Keeps b (install_packages-Keeps apt_failed (d.agent.id ∷ [])))))))

  install_debs-Keeps : (d : PackageDeployment) (b : Bool) → Keeps Q F (install_debs d b)
  unfolding install_debs
  install_debs-Keeps d b =
      then-Keeps (install_packages-Keeps apt_failed _) (attempt_call-Keeps integration_unprepared)

  apply_module-Keeps : (t : Tools) (d : PackageDeployment) → Keeps Q F (apply_module t d)
  unfolding apply_module install_module save_selection
  apply_module-Keeps t d = then-Keeps (lift-Keeps (check_deployment d)) (
      Triple-bind (lift-Keeps (select_candidate d.module_package t.discovered)) λ c.
        then-Keeps (lift-Keeps (check_control t d c)) (
          then-Keeps (download_packages-Keeps (is_updated t d)) (
            then-Keeps
              (if-Keeps (module_format d == format_zip) (install_zip-Keeps d (is_updated t d))
                (install_debs-Keeps d (is_updated t d)))
              (then-Keeps
                (then-Keeps (attempt_call-Keeps state_unwritten) (modify-Keeps _ (λ s k. k)))
                (pure-Keeps (is_updated t d))))))

  download_rollback-Keeps : (d : PackageDeployment) → Keeps Q F (download_rollback d)
  unfolding download_rollback
  download_rollback-Keeps d = if-Keeps (d.rollback_agent.id == "") (pure-Keeps tt) (
      if-Keeps (not (d.rollback_agent.format == "") && not (d.rollback_agent.format == format_deb))
        (raise-Keeps rollback_format_invalid) (attempt_call-Keeps rollback_download_failed))

  update_agent-Keeps : (d : PackageDeployment) → Keeps Q F (update_agent d)
  unfolding update_agent save_pending
  update_agent-Keeps d = then-Keeps (attempt_call-Keeps cache_failed) (
      then-Keeps (attempt_call-Keeps cache_failed) (
        then-Keeps (attempt_call-Keeps agent_download_failed) (
          then-Keeps (download_rollback-Keeps d) (
            then-Keeps (then-Keeps (attempt_call-Keeps state_unwritten) (modify-Keeps _ (λ s k. k)))
              (then-Keeps (install_packages-Keeps apt_failed (d.agent.id ∷ []))
                (pure-Keeps true))))))

  pub apply_package_deployment-Keeps :
      (t : Tools) (d : PackageDeployment) → Keeps Q F (apply_package_deployment t d)
  unfolding apply_package_deployment apply_agent_package_deployment
  apply_package_deployment-Keeps t d =
      if-Keeps (d.id == "" || d.agent.id == "") (raise-Keeps deployment_incomplete) (
        if-Keeps (normalize_package_scope d.scope == scope_agent)
          (if-Keeps
            (d.agent.version == ""
              || not (d.agent.format == "") && not (d.agent.format == format_deb))
            (raise-Keeps agent_unversioned)
            (if-Keeps (d.agent.version == t.version) (pure-Keeps false)
              (if-Keeps (not (safe_state_id d.id)) (raise-Keeps id_unsafe) (update_agent-Keeps d))))
          (apply_module-Keeps t d))

-- ===== src/Agent/Deployment.antt =====
-- The package deployment of a control cycle: the part of runControlCycle of internal/agent/agent.go
-- behind the saving of the desired state, up to the command. The files of the state directory are
-- fields, `none` for one that does not exist.
pub mod Types
pub mod Install
pub mod Frame
pub mod Working
pub mod Started
pub mod Settled
pub mod Truthful
pub mod Reported
pub mod Done
pub mod Booked
pub mod Once
use m_waf.Common.{Bool, String, false, if◌then◌else◌, not, some, true, ◌&&◌, ◌==◌, ◌||◌, ◌⧺◌}
use m_waf.Agent.Action.{catch, modify, pure, raise, ◌>>=◌, ◌>>◌}
use m_waf.Agent.Deployment.Types.{
  Duty, PackageDeployment, Station, StationError, attempt_call, normalize_package_scope, read_value,
  restart_failed, scope_agent, send_package_result, state_unwritten,
}
use m_waf.Agent.Deployment.Install.{Tools, apply_package_deployment}

-- what the cycle knows of its server, and the code that it calls elsewhere
pub record Site : Type 0 where
  pub tools : Tools
  -- the versions of the inventory
  pub agent_version : String
  pub module_version : String
  -- err.Error()
  pub text_of : StationError → String
  -- fmt.Sprintf of the versions that differ
  pub mismatch_detail : PackageDeployment → String

unfoldable pub matches_inventory : Site → PackageDeployment → Bool
matches_inventory site d =
    site.agent_version == d.agent.version
    && (normalize_package_scope d.scope == scope_agent
        || site.module_version == d.module_package.version)

abbrev pub applied_detail : PackageDeployment → String
applied_detail d =
    if normalize_package_scope d.scope == scope_agent
    then "Agent가 재시작 후 새 버전으로 mTLS 연결을 확인했습니다. 웹서버 모듈과 정책은 변경하지 않았습니다."
    else "모듈 설치 후 Agent가 설치 버전을 확인했습니다. 웹서버 연동은 별도 안내에 따라 활성화해야 합니다."

abbrev pub kept_detail : String → String
kept_detail detail = if detail == "" then "이전 패키지 적용 실패 상태를 유지합니다." else detail

-- atomicWrite of a value and a newline
abbrev pub line_of : String → String
line_of value = value ⧺ "\n"

unfoldable pub save_reported : String → Duty (Unit {0})
save_reported id = do
  attempt_call state_unwritten
  modify (λ s. record s { reported = some (line_of id) })

unfoldable pub save_failed : String → Duty (Unit {0})
save_failed id = do
  attempt_call state_unwritten
  modify (λ s. record s { failed = some (line_of id) })

unfoldable pub save_failed_detail : String → Duty (Unit {0})
save_failed_detail detail = do
  attempt_call state_unwritten
  modify (λ s. record s { failed_detail = some (line_of detail) })

unfoldable pub save_last : String → Duty (Unit {0})
save_last id = do attempt_call state_unwritten; modify (λ s. record s { last = some (line_of id) })

-- the deployment failed before
unfoldable pub repeat_failure : PackageDeployment → String → Duty (Unit {0})
repeat_failure d reported = if reported == d.id then pure tt else (do
  detail ← read_value (λ s. s.failed_detail)
  send_package_result d.id "FAILED" (kept_detail detail)
  save_reported d.id)

-- a failure is sent, then the three files are written
unfoldable pub record_failure : PackageDeployment → String → Duty (Unit {0})
unfolding save_failed save_failed_detail save_reported
record_failure d detail = do
  send_package_result d.id "FAILED" detail
  save_failed d.id
  save_failed_detail detail
  save_reported d.id

module _ (site : Site) where
  -- the packages are installed, the outcome is not reported
  unfoldable pub confirm : PackageDeployment → String → String → Duty (Unit {0})
  confirm d reported requested =
      if not (reported == d.id) && (not (requested == d.id) && matches_inventory site d)
      then (do send_package_result d.id "APPLIED" (applied_detail d); save_reported d.id)
      else if not (reported == d.id) && requested == ""
      then record_failure d (site.mismatch_detail d)
      else pure tt

  -- `a.packageRestartRequested` is set, then the supervisor or the service restarts the Agent
  unfoldable pub restart_updated : PackageDeployment → Duty (Unit {0})
  restart_updated d = do
    modify (λ s. record s { restart_requested = d.id })
    catch (attempt_call restart_failed)
        (λ e.
          catch (send_package_result d.id "FAILED" (site.text_of e)) (λ _. raise e) (λ _. raise e))
        pure

  unfoldable pub finish_install : PackageDeployment → Bool → Duty (Unit {0})
  unfolding save_last restart_updated
  finish_install d updated = do save_last d.id; if updated then restart_updated d else pure tt

  unfoldable pub install_new : PackageDeployment → Duty (Unit {0})
  install_new d =
      catch (apply_package_deployment site.tools d)
        (λ e. record_failure d (site.text_of e) >>= λ _. raise e) (finish_install d)

  -- the branches by what the files hold, `true` where the cycle goes on to the command
  unfoldable pub by_values : PackageDeployment → String → String → String → Duty Bool
  by_values d last failed reported =
      if failed == d.id
      then (repeat_failure d reported >>= λ _. pure false)
      else if last == d.id
      then (λ s. (confirm d reported s.restart_requested >>= λ _. pure true) s)
      else (install_new d >>= λ _. pure false)

  unfoldable pub handle_package : PackageDeployment → Duty Bool
  handle_package d = do
    last ← read_value (λ s. s.last)
    failed ← read_value (λ s. s.failed)
    reported ← read_value (λ s. s.reported)
    by_values d last failed reported

-- The process starts again: what it held in memory is gone.
unfoldable pub restarted : Station → Station
restarted s = record s { restart_requested = "" }

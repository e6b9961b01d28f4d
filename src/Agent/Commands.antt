-- ===== src/Agent/Commands.antt =====
-- executeNextCommand of internal/agent/operations.go and what it calls: a command of the Manager is run,
-- or changes how the web server is controlled. A station is that of package deployments.
pub mod Announced
pub mod Recorded
use m_waf.Common.{
  Bool, List, Option, String, [], err, if◌then◌else◌, none, not, ok, some, ◌&&◌, ◌++◌, ◌==◌, ◌∷◌,
  ◌⧺◌,
}
use m_waf.Agent.Action.{Outcome, catch, modify, pure, raise, ◌>>=◌, ◌>>◌}
use m_waf.Agent.Spool.{Fault, fails, first_fault, is_working, other_faults, unanswered, works}
use m_waf.Agent.Deployment.Types.{
  Duty, InstallationSelection, Report, Station, StationError, attempt_call, command_hooks_invalid,
  command_unsupported, execution_failed, read_value, report_failed, selection_missing,
  state_unwritten,
}

-- model.AgentCommand
pub record AgentCommand : Type 0 where
  pub id : String
  pub command : String

-- the checks of files and processes of the host
pub record Machine : Type 0 where
  pub service_installed : Bool
  pub systemd_running : Bool
  pub hooks_valid : String → Bool
  -- err.Error()
  pub text_of : StationError → String

unfoldable pub agent_service_command : Machine → String → Option (List String)
agent_service_command m action =
    if m.service_installed then some ("/usr/sbin/mwaf-agent-service" ∷ action ∷ []) else none

unfoldable pub fixed_command : Machine → String → Option (List String)
unfolding agent_service_command
fixed_command m command =
    if command == "agent_restart"
    then agent_service_command m "restart"
    else if command == "agent_stop"
    then agent_service_command m "stop"
    else if command == "server_restart" && m.systemd_running
    then some ("systemctl" ∷ "--no-block" ∷ "reboot" ∷ [])
    else if command == "server_stop" && m.systemd_running
    then some ("systemctl" ∷ "--no-block" ∷ "poweroff" ∷ [])
    else none

-- the control mode and the label of a command, `none` for another command
unfoldable pub control_of : String → Option (String × String)
control_of command =
    if command == "web_control_standard"
    then some ("standard", "자동 설정 검사·재적용 방식을 사용합니다.")
    else if command == "web_control_hooks"
    then some ("hooks", "검증된 사용자 지정 실행 파일을 사용합니다.")
    else none

abbrev pub answer_command : Fault → Report → Station → Outcome Station StationError (Unit {0})
answer_command works r s = (ok tt, record s { command_results = s.command_results ++ r ∷ [] })
answer_command fails r s = (err report_failed, s)
answer_command unanswered r s =
    (err report_failed, record s { command_results = s.command_results ++ r ∷ [] })

-- Client.SendCommandResult; a result whose answer is lost has been received
unfoldable pub send_command_result : String → String → String → Duty (Unit {0})
send_command_result id status detail s =
    answer_command (first_fault s.faults) (record { id = id; status = status; detail = detail })
      (record s { faults = other_faults s.faults })

-- the selection is changed and written
unfoldable pub change_control : Machine → String → Option InstallationSelection → Duty (Unit {0})
change_control m mode none = raise selection_missing
change_control m mode (some selection) =
    if mode == "hooks" && not (m.hooks_valid selection.web_server)
    then raise command_hooks_invalid
    else (do
      attempt_call state_unwritten
      modify (λ s. record s { selection = some (record selection { web_server_control = mode }) }))

unfoldable pub save_command : String → Duty (Unit {0})
save_command id = do
  attempt_call state_unwritten
  modify (λ s. record s { last_command = some (id ⧺ "\n") })

-- a failure is sent, and its own failure ignored
unfoldable pub refuse_command : AgentCommand → String → StationError → Duty (Unit {0})
refuse_command c detail e =
    catch (send_command_result c.id "FAILED" detail) (λ _. raise e) (λ _. raise e)

module _ (m : Machine) where
  unfoldable pub apply_control : AgentCommand → String × String → Duty (Unit {0})
  unfolding save_command
  apply_control c (mode, label) =
      catch (λ s. change_control m mode s.selection s) (λ e. refuse_command c (m.text_of e) e)
        (λ u. do send_command_result c.id "ACCEPTED" label; save_command c.id)

  -- exec.CommandContext(…).CombinedOutput(): a command that fails may have had its effect
  unfoldable pub execute : AgentCommand → Duty (Unit {0})
  execute c s =
      let s' = record s { faults = other_faults s.faults; executed = s.executed ++ c.id ∷ [] } in
      if is_working (first_fault s.faults) then (ok tt, s') else (err execution_failed, s')

  unfoldable pub run_fixed : AgentCommand → Option (List String) → Duty (Unit {0})
  unfolding execute save_command refuse_command
  run_fixed c none = refuse_command c "지원하지 않는 고정 명령입니다." command_unsupported
  run_fixed c (some arguments) = do
    send_command_result c.id "ACCEPTED" "Agent가 고정 명령을 접수했습니다."
    catch (execute c) (λ e. refuse_command c (m.text_of e) e) pure
    save_command c.id

  unfoldable pub by_kind : AgentCommand → Option (String × String) → Duty (Unit {0})
  by_kind c none = run_fixed c (fixed_command m c.command)
  by_kind c (some control) = apply_control c control

  -- behind Client.NextCommand
  unfoldable pub execute_next_command : AgentCommand → Duty (Unit {0})
  execute_next_command c = if c.id == "" then pure tt else (do
    last ← read_value (λ s. s.last_command)
    if last == c.id
        then send_command_result c.id "ACCEPTED" "명령이 이미 Agent에 접수되었습니다."
        else by_kind c (control_of c.command))

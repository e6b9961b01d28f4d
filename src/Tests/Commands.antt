-- ===== src/Tests/Commands.antt =====
-- Commands of the Manager on a concrete server, for internal/agent/operations.go.
use m_waf.Common.{List, [], none, refl, some, trim_space, true, ◌∷◌, ◌≡◌}
use m_waf.Agent.Spool.{unanswered, works}
use m_waf.Agent.Deployment.Types.{
  InstallationSelection, Station, attempt_call, read_value, value_of,
}
use m_waf.Agent.Commands.{
  AgentCommand, Machine, apply_control, by_kind, change_control, control_of, execute_next_command,
  fixed_command, run_fixed, send_command_result,
}
use m_waf.Agent.Commands.Announced.{IsAnnounced, execute_all, execute_all-IsAnnounced}
use m_waf.Agent.Commands.Recorded.{IsUnrun, execute_next_command-IsUnrun}

abbrev machine : Machine
machine = record {
  service_installed = true;
  systemd_running = true;
  hooks_valid = λ kind. true;
  text_of = λ e. "error";
}

abbrev selection : InstallationSelection
selection = record {
  web_server = "nginx";
  web_server_binary = "/usr/sbin/nginx";
  web_server_control = "standard";
  integration_mode = "distro";
  installation_mode = "package";
}

-- The second answer is lost, so the second command is not run.
abbrev station : Station
station = record {
  last = none;
  failed = none;
  failed_detail = none;
  reported = none;
  custom_module_version = none;
  pending_update = none;
  selection = some selection;
  packages = [];
  restart_requested = "";
  reports = [];
  last_command = none;
  command_results = [];
  executed = [];
  faults = works ∷ works ∷ works ∷ works ∷ works ∷ unanswered ∷ [];
}

abbrev commands : List (Machine × AgentCommand)
commands =
    (machine, record { id = "c1"; command = "agent_restart" })
    ∷ (machine, record { id = "c2"; command = "server_restart" })
    ∷ (machine, record { id = "c3"; command = "web_control_hooks" })
    ∷ []

executed_first : (execute_all commands station).executed ≡ "c1" ∷ []
unfolding execute_all execute_next_command read_value attempt_call by_kind control_of run_fixed
    fixed_command send_command_result trim_space apply_control change_control
executed_first = refl

execute_all-IsAnnounced_example : IsAnnounced (execute_all commands station)
execute_all-IsAnnounced_example = execute_all-IsAnnounced commands station tt

-- the same server when the first command was recorded
abbrev recorded_station : Station
recorded_station = record station { last_command = some "c1\n"; faults = works ∷ unanswered ∷ [] }

execute_next_command-IsUnrun_example :
    IsUnrun recorded_station
      (execute_next_command machine
        (record { id = "c1"; command = "agent_restart" })
        recorded_station).1
unfolding value_of trim_space
execute_next_command-IsUnrun_example =
    execute_next_command-IsUnrun machine (record { id = "c1"; command = "agent_restart" })
      recorded_station refl

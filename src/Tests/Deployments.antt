-- ===== src/Tests/Deployments.antt =====
-- Deployments of packages on a concrete server, for internal/agent/agent.go.
use m_waf.Common.{List, String, [], equal_fold, false, none, refl, some, trim_space, true, ◌∷◌, ◌≡◌}
use m_waf.Agent.Deployment.Types.{
  PackageDeployment, PackageDownload, Station, attempt_call, normalize_package_scope,
  normalize_web_server_control, read_value, send_package_result, value_of,
}
use m_waf.Agent.Deployment.Install.{
  apply_package_deployment, candidate_skipped, check_control, check_deployment, install_debs,
  module_format, select_candidate,
}
use m_waf.Agent.Deployment.Frame.{books}
use m_waf.Agent.Deployment.Settled.{IsConcluded, handle_package-IsConcluded}
use m_waf.Agent.Deployment.Reported.{Occurrence, cycle, happen, happen_all, restart}
use m_waf.Agent.Deployment.{
  Site, by_values, confirm, finish_install, handle_package, install_new, matches_inventory,
  restarted, save_reported,
}
use m_waf.Agent.Deployment.Truthful.{IsStateId}
use m_waf.Agent.Deployment.Once.{at_rest, happen_all-IsOnce}
use m_waf.Agent.Deployment.Booked.{IsBooked}
use m_waf.SystemPolicy.Template.{not_eq}

abbrev download : String → String → PackageDownload
download id version = record {
  id = id;
  version = version;
  format = "deb";
  install_root = "";
  web_server = "nginx";
  web_server_build = "B1";
  integration_mode = "distro";
  runtime_abi = "";
}

abbrev deployment : PackageDeployment
deployment = record {
  id = "d1";
  scope = "";
  web_server_control = "";
  agent = download "a2" "2.0";
  module_package = download "m3" "3.0";
  rollback_agent = download "" "";
}

abbrev site_of : String → String → Site
site_of agent_version module_version = record {
  tools = record {
    version = agent_version;
    discovered =
        record {
          kind = "apache";
          build_hash = "B0";
          binary = "/usr/sbin/apache2";
          package_managed = true;
        }
        ∷ record {
          kind = "nginx";
          build_hash = "b1";
          binary = "/usr/sbin/nginx";
          package_managed = true;
        }
        ∷ [];
    hooks_valid = λ kind. false;
  };
  agent_version = agent_version;
  module_version = module_version;
  text_of = λ e. "error";
  mismatch_detail = λ d. "mismatch";
}

station : Station
station = record {
  last = none;
  failed = some "d0\n";
  failed_detail = none;
  reported = some "d0\n";
  custom_module_version = none;
  pending_update = none;
  selection = none;
  packages = [];
  restart_requested = "";
  reports = record { id = "d0"; status = "FAILED"; detail = "error" } ∷ [];
  last_command = none;
  command_results = [];
  executed = [];
  faults = [];
}

d1-IsStateId : IsStateId "d1"
unfolding value_of trim_space
d1-IsStateId = refl

handle_package-IsConcluded_example : IsConcluded deployment (books station) (
    books
      (handle_package
        (site_of "2.0" "3.0")
        deployment
        (restarted (handle_package (site_of "1.0" "2.0") deployment station).1)).1)
unfolding station value_of trim_space
handle_package-IsConcluded_example =
    handle_package-IsConcluded (site_of "1.0" "2.0") (site_of "2.0" "3.0") deployment station
      d1-IsStateId refl refl refl refl

-- the packages of the first cycle, and the report of the second one
installed : (handle_package (site_of "1.0" "2.0") deployment station).1.packages ≡ "m3" ∷ "a2" ∷ []
unfolding station handle_package read_value attempt_call by_values trim_space install_new
    apply_package_deployment normalize_package_scope check_deployment module_format select_candidate
    candidate_skipped equal_fold check_control normalize_web_server_control install_debs
    finish_install
installed = refl

-- a cycle that installs, a restart, and a cycle whose report is lost
abbrev history : List Occurrence
history =
    cycle (site_of "1.0" "2.0") deployment ∷ restart ∷ cycle (site_of "2.0" "3.0") deployment ∷ []

-- the deployment is reported when it was installed and the process has started again
reported_after : value_of (happen_all history station).reported ≡ "d1"
unfolding station happen_all happen restarted handle_package read_value attempt_call by_values
    trim_space install_new apply_package_deployment normalize_package_scope check_deployment
    module_format select_candidate candidate_skipped equal_fold check_control
    normalize_web_server_control install_debs finish_install confirm matches_inventory
    send_package_result save_reported
reported_after = refl

not_yet : IsBooked "d1" (books station)
unfolding station trim_space value_of
not_yet h = elim (not_eq "d0" "d1" refl h) [ ]

happen_all-IsOnce_example :
    at_rest (happen_all history (happen_all history station)) ≡ at_rest (happen_all history station)
unfolding trim_space
happen_all-IsOnce_example =
    happen_all-IsOnce "d1" history history station (d1-IsStateId, (tt, (d1-IsStateId, tt)))
      (refl, (tt, (refl, tt))) (refl, (tt, (refl, tt))) not_yet reported_after

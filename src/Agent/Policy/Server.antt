-- ===== src/Agent/Policy/Server.antt =====
-- internal/agent/policy.go and internal/model: the applier, the names of its directories, and the
-- commands that test and reload the web server.
use m_waf.Common.{
  Bool, List, Option, String, [], clean, dir, false, if◌then◌else◌, join_path, leb, nat_eq, none,
  not, some, suc, true, zero, ℕ, ◌&&◌, ◌++◌, ◌==◌, ◌||◌, ◌∷◌, ◌⧺◌,
}
use m_waf.Agent.Host.{command_failed, hooks_invalid, unsupported_web_server}
use m_waf.Agent.Host.Exec.{Exec, modify, pure, raise, syscall, ◌>>◌}
use m_waf.Agent.Verify.{Crypto}

-- internal/model: what the Manager asks for
pub record PolicyArtifactReference : Type 0 where
  pub id : String
  pub format : String
  pub sha256 : String
  pub signature : String

pub record PolicyOverrideReference : Type 0 where
  pub revision_id : String
  pub format : String
  pub sha256 : String
  pub signature : String
  pub override_config_sha256 : String
  pub effective_config_sha256 : String
  pub validation_digest : String

pub record DesiredState : Type 0 where
  pub revision_id : String
  pub artifact_format : String
  pub sha256 : String
  pub signature : String
  pub mode : String
  pub base_policy : Option PolicyArtifactReference
  pub override_policy : Option PolicyOverrideReference

-- The applier's configuration, and what it asks its host that no call changes.
pub record Applier : Type 0 where
  pub policy_path : String
  pub web_server_binary : String
  pub web_server_control : String
  pub crypto : Crypto
  pub now : ℕ
  -- exec.LookPath("apachectl") finds it
  pub has_apachectl : Bool

abbrev pub one_of_modes : String → Bool
one_of_modes mode = mode == "DetectionOnly" || mode == "On"

abbrev pub active_path : Applier → String
active_path p = clean (dir p.policy_path)

abbrev pub revisions_path : Applier → String
revisions_path p = join_path (dir (active_path p)) "revisions"

abbrev pub revision_path : Applier → DesiredState → String
revision_path p state = join_path (revisions_path p) state.revision_id

-- the regular expression ^[a-zA-Z0-9][a-zA-Z0-9._-]{0,127}$
alphanumeric : ℕ → Bool
alphanumeric c = leb 97 c && leb c 122 || leb 65 c && leb c 90 || leb 48 c && leb c 57

name_tail : ℕ → String → Bool
unfolding alphanumeric
name_tail room String.[] = true
name_tail zero (String.◌∷◌ c s) = false
name_tail (suc room) (String.◌∷◌ c s) =
    let n = Prim.Native.Char.code c in
    (alphanumeric n || nat_eq n b'.' || nat_eq n b'_' || nat_eq n b'-') && name_tail room s

unfoldable pub valid_revision_name : String → Bool
unfolding alphanumeric name_tail
valid_revision_name String.[] = false
valid_revision_name (String.◌∷◌ c s) = alphanumeric (Prim.Native.Char.code c) && name_tail 127 s

-- model.NormalizeWebServerControl
unfoldable pub normalize_control : String → String
normalize_control mode = if mode == "" then "standard" else mode

-- exec.CommandContext: the command is run, and may fail
unfoldable pub run : List String → Exec (Unit {0})
unfolding syscall
run argv = do
  modify (λ w. record w { commands = w.commands ++ record { argv = argv; active = w.active } ∷ [] })
  syscall (command_failed argv)

unfoldable pub run_all : List (List String) → Exec (Unit {0})
unfolding run
run_all [] = pure tt
run_all (argv ∷ rest) = do run argv; run_all rest

-- validateControlHooks: the test of the web server, then the checks of the hook files
unfoldable pub validate_control_hooks : String → Exec (Unit {0})
unfolding syscall
validate_control_hooks web_server =
    if not (web_server == "apache") && not (web_server == "nginx")
    then raise hooks_invalid
    else syscall hooks_invalid

abbrev pub hook_path : String → String → String
hook_path web_server action = "/opt/m-waf/hooks/" ⧺ web_server ⧺ "/" ⧺ action

abbrev pub hook_commands : String → List (List String)
hook_commands web_server =
    (hook_path web_server "configtest" ∷ []) ∷ (hook_path web_server "reload" ∷ []) ∷ []

unfoldable pub server_commands : Applier → String → Option (List (List String))
server_commands p web_server =
    let apache =
      if p.web_server_binary == ""
      then (if p.has_apachectl then "apachectl" else "httpd")
      else p.web_server_binary in
    let nginx = if p.web_server_binary == "" then "nginx" else p.web_server_binary in
    if web_server == "apache"
    then some ((apache ∷ "-t" ∷ []) ∷ (apache ∷ "-k" ∷ "graceful" ∷ []) ∷ [])
    else if web_server == "nginx"
    then some ((nginx ∷ "-t" ∷ []) ∷ (nginx ∷ "-s" ∷ "reload" ∷ []) ∷ [])
    else none

unfoldable pub run_server : Option (List (List String)) → Exec (Unit {0})
unfolding run_all
run_server none = raise unsupported_web_server
run_server (some commands) = run_all commands

unfoldable pub test_and_reload : Applier → String → Exec (Unit {0})
unfolding validate_control_hooks run_all run_server server_commands normalize_control
test_and_reload p web_server =
    if normalize_control p.web_server_control == "hooks"
    then (do validate_control_hooks web_server; run_all (hook_commands web_server))
    else run_server (server_commands p web_server)

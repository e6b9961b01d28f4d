-- ===== src/Agent/Policy.antt =====
-- internal/agent/policy.go: how the Agent puts a signed policy in force, and takes it back when the
-- web server refuses it.
pub mod Server
pub mod Links
pub mod Revision
pub mod Conf
pub mod Steps
pub mod Undoing
pub mod Applied
pub mod Authentic
pub mod Split
pub mod Composed
use m_waf.Common.{Bytes, String, if◌then◌else◌, length, ltb, nat_eq, not, ℕ, ◌&&◌, ◌*◌, ◌==◌, ◌||◌}
use m_waf.Agent.Host.{size_invalid, unsupported_format, unsupported_mode}
use m_waf.Agent.Host.Exec.{Exec, lift, raise, ◌>>=◌, ◌>>◌}
use m_waf.Agent.Verify.{verify_artifact}
use m_waf.Agent.Policy.Server.{Applier, DesiredState, one_of_modes}
use m_waf.Agent.Policy.Revision.{apply_bundle}
use m_waf.Agent.Policy.Conf.{apply_conf}
use m_waf.Bundle.Types.{format_v2, format_v3}

abbrev mib : ℕ → ℕ
mib n = n * 1048576

abbrev pub size_limit : String → ℕ
size_limit format =
    if format == format_v2 then mib 4 else if format == format_v3 then mib 64 else mib 1

unfoldable pub dispatch_format : Applier → String → DesiredState → Bytes → Exec (Unit {0})
dispatch_format p web_server state artifact =
    if state.artifact_format == format_v2 || state.artifact_format == format_v3
    then apply_bundle p web_server state artifact
    else if not (state.artifact_format == "") && not (state.artifact_format == "conf-v1")
    then raise unsupported_format
    else apply_conf p web_server artifact

unfoldable pub apply : Applier → String → DesiredState → Bytes → Exec (Unit {0})
apply p web_server state artifact =
    if not (one_of_modes state.mode)
    then raise unsupported_mode
    else if nat_eq (length artifact) 0 || ltb (size_limit state.artifact_format) (length artifact)
    then raise size_invalid
    else (do
      lift (verify_artifact p.crypto artifact state.sha256 state.signature)
      dispatch_format p web_server state artifact)

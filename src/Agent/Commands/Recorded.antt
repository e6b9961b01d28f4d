-- ===== src/Agent/Commands/Recorded.antt =====
-- A command that was recorded is not run again (internal/agent/operations.go).
use m_waf.Common.{Bool, String, ap, eq_iff, err, false, if◌then◌else◌, ok, refl, true, ◌==◌, ◌≡◌}
use m_waf.Agent.Action.{Outcome, Post, Triple, Triple-bind_value, pure, ◌>>=◌}
use m_waf.Agent.Spool.{Fault, fails, first_fault, is_working, other_faults, unanswered, works}
use m_waf.Agent.Deployment.Types.{
  Duty, Station, StationError, attempt_call, read_value, state_unreadable, value_of,
}
use m_waf.Agent.Commands.{
  AgentCommand, Machine, answer_command, by_kind, control_of, execute_next_command,
  send_command_result,
}

-- nothing was run, and the control of the web server and the recorded command are as they were
abbrev pub IsUnrun : Station → Station → Type 0
IsUnrun s t =
    (t.executed ≡ s.executed) × (t.selection ≡ s.selection) × (t.last_command ≡ s.last_command)

module _ (s : Station) where
  abbrev Unrun : Station → Type 0
  Unrun = IsUnrun s

  read_value-Unrun :
      Triple Unrun
        (read_value (λ t. t.last_command))
        (λ a t. (a ≡ value_of s.last_command) × Unrun t)
        (λ e. Unrun)
  unfolding read_value attempt_call
  read_value-Unrun = record {
    at = λ t k.
        by_fault (is_working (first_fault t.faults)) (record t { faults = other_faults t.faults })
          k;
  }
    where
      by_fault :
          (b : Bool) (t : Station)
          → Unrun t
          → Post
              (λ a t. (a ≡ value_of s.last_command) × Unrun t)
              (λ e. Unrun)
              (((λ t. if b then (ok tt, t) else (err state_unreadable, t)) >>= λ u t.
                  (ok (value_of t.last_command), t))
                t)
      by_fault true t k = (ap value_of k.2, k)
      by_fault false t k = k

  send_command_result-Unrun :
      (id status detail : String)
      → Triple Unrun (send_command_result id status detail) (λ a. Unrun) (λ e. Unrun)
  unfolding send_command_result
  send_command_result-Unrun id status detail = record {
    at = λ t k. answered (first_fault t.faults) (record t { faults = other_faults t.faults }) k;
  }
    where
      answered :
          (f : Fault) (t : Station)
          → Unrun t
          → Post
              (λ a. Unrun)
              (λ e. Unrun)
              (answer_command f (record { id = id; status = status; detail = detail }) t)
      answered works t k = k
      answered fails t k = k
      answered unanswered t k = k

  execute_next_command-Unrun :
      (m : Machine) (c : AgentCommand)
      → value_of s.last_command ≡ c.id
      → Triple Unrun (execute_next_command m c) (λ a. Unrun) (λ e. Unrun)
  unfolding execute_next_command
  execute_next_command-Unrun m c h = by_id (c.id == "")
    where
      again : String → Duty (Unit {0})
      again last =
          if last == c.id
          then send_command_result c.id "ACCEPTED" "명령이 이미 Agent에 접수되었습니다."
          else by_kind m c (control_of c.command)

      recorded : Triple Unrun (again (value_of s.last_command)) (λ a. Unrun) (λ e. Unrun)
      recorded =
          rw ((eq_iff (value_of s.last_command) c.id).1 h)
            (send_command_result-Unrun c.id "ACCEPTED" "명령이 이미 Agent에 접수되었습니다.")

      by_id :
          (b : Bool)
          → Triple Unrun
              (if b then pure tt else (read_value (λ t. t.last_command) >>= again))
              (λ a. Unrun)
              (λ e. Unrun)
      by_id true = record { at = λ t k. k }
      by_id false = Triple-bind_value again (value_of s.last_command) read_value-Unrun recorded

-- When the file of the last command holds the id of the command that the Manager sends, no command is
-- run and the control of the web server is not changed, whichever calls fail.
pub execute_next_command-IsUnrun :
    (m : Machine) (c : AgentCommand) (s : Station)
    → value_of s.last_command ≡ c.id
    → IsUnrun s (execute_next_command m c s).1
execute_next_command-IsUnrun m c s h =
    either (execute_next_command m c s)
      ((execute_next_command-Unrun s m c h).at s (refl, refl, refl))
  where
    either :
        (o : Outcome Station StationError (Unit {0}))
        → Post (λ a. IsUnrun s) (λ e. IsUnrun s) o
        → IsUnrun s o.1
    either (ok u, t) k = k
    either (err e, t) k = k

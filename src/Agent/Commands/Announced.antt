-- ===== src/Agent/Commands/Announced.antt =====
-- No command is run before the Manager knows of it (internal/agent/operations.go).
use m_waf.Common.{
  All, All-append, Bool, List, Option, String, [], err, false, if◌then◌else◌, none, not, ok, some,
  true, ◌&&◌, ◌++◌, ◌==◌, ◌∷◌, ◌≡◌,
}
use m_waf.Agent.Action.{Outcome, Post, Triple, Triple-bind, Triple-catch, modify, pure, raise}
use m_waf.Agent.Spool.{Fault, fails, first_fault, is_working, other_faults, unanswered, works}
use m_waf.Agent.Deployment.Types.{
  Duty, InstallationSelection, Report, Station, StationError, attempt_call, command_hooks_invalid,
  command_unsupported, execution_failed, read_value, selection_missing, state_unreadable,
  state_unwritten,
}
use m_waf.Agent.Reports.{told, told-earlier, told-last}
use m_waf.Agent.Commands.{
  AgentCommand, Machine, answer_command, apply_control, by_kind, change_control, control_of,
  execute, execute_next_command, fixed_command, refuse_command, run_fixed, save_command,
  send_command_result,
}

-- Of every command that was run the Manager has received that it is accepted.
abbrev pub IsAnnounced : Station → Type 0
IsAnnounced s = All (λ id. told id "ACCEPTED" s.command_results ≡ true) s.executed

-- and of this one as well
abbrev IsAccepted : String → Station → Type 0
IsAccepted id s = IsAnnounced s × (told id "ACCEPTED" s.command_results ≡ true)

abbrev IsSafe : {A : Type 0} → Duty A → Type 0
IsSafe m = Triple IsAnnounced m (λ a. IsAnnounced) (λ e. IsAnnounced)

All-told-earlier :
    (ids : List String) (rs : List Report) (r : Report)
    → All (λ id. told id "ACCEPTED" rs ≡ true) ids
    → All (λ id. told id "ACCEPTED" (rs ++ r ∷ []) ≡ true) ids
All-told-earlier [] rs r h = tt
All-told-earlier (id ∷ ids) rs r (h, hs) =
    (told-earlier id "ACCEPTED" rs r h, All-told-earlier ids rs r hs)

attempt_call-IsSafe : (e : StationError) → IsSafe (attempt_call e)
unfolding attempt_call
attempt_call-IsSafe e = record {
  at = λ s k.
      by_fault (is_working (first_fault s.faults)) (record s { faults = other_faults s.faults }) k;
}
  where
    by_fault :
        (b : Bool) (s : Station)
        → IsAnnounced s
        → Post (λ a. IsAnnounced) (λ e. IsAnnounced) (if b then (ok tt, s) else (err e, s))
    by_fault true s k = k
    by_fault false s k = k

pure-IsSafe : {A : Type 0} (a : A) → IsSafe (pure a)
pure-IsSafe a = record { at = λ s k. k }

raise-IsSafe : {A : Type 0} (e : StationError) → IsSafe (raise {A = A} e)
raise-IsSafe e = record { at = λ s k. k }

if-IsSafe :
    {A : Type 0} (b : Bool) {m k : Duty A} → IsSafe m → IsSafe k → IsSafe (if b then m else k)
if-IsSafe true tm tk = tm
if-IsSafe false tm tk = tk

modify-IsSafe :
    (f : Station → Station)
    → ((s : Station) → IsAnnounced s → IsAnnounced (f s))
    → IsSafe (modify f)
modify-IsSafe f change = record { at = change }

send_command_result-IsAccepted :
    (id detail : String)
    → Triple IsAnnounced
        (send_command_result id "ACCEPTED" detail)
        (λ a. IsAccepted id)
        (λ e. IsAnnounced)
unfolding send_command_result
send_command_result-IsAccepted id detail = record {
  at = λ s k. answered (first_fault s.faults) (record s { faults = other_faults s.faults }) k;
}
  where
    answered :
        (f : Fault) (s : Station)
        → IsAnnounced s
        → Post
            (λ a. IsAccepted id)
            (λ e. IsAnnounced)
            (answer_command f (record { id = id; status = "ACCEPTED"; detail = detail }) s)
    answered works s k = (
      All-told-earlier s.executed s.command_results _ k,
      told-last id "ACCEPTED" detail s.command_results,
    )
    answered fails s k = k
    answered unanswered s k = All-told-earlier s.executed s.command_results _ k

send_command_result-IsSafe :
    (id status detail : String) → IsSafe (send_command_result id status detail)
unfolding send_command_result
send_command_result-IsSafe id status detail = record {
  at = λ s k. answered (first_fault s.faults) (record s { faults = other_faults s.faults }) k;
}
  where
    answered :
        (f : Fault) (s : Station)
        → IsAnnounced s
        → Post
            (λ a. IsAnnounced)
            (λ e. IsAnnounced)
            (answer_command f (record { id = id; status = status; detail = detail }) s)
    answered works s k = All-told-earlier s.executed s.command_results _ k
    answered fails s k = k
    answered unanswered s k = All-told-earlier s.executed s.command_results _ k

save_command-IsSafe : (id : String) → IsSafe (save_command id)
unfolding save_command
save_command-IsSafe id =
    Triple-bind (attempt_call-IsSafe state_unwritten) (λ u. modify-IsSafe _ (λ s k. k))

refuse_command-IsSafe :
    (c : AgentCommand) (detail : String) (e : StationError) → IsSafe (refuse_command c detail e)
unfolding refuse_command
refuse_command-IsSafe c detail e =
    Triple-catch (send_command_result-IsSafe c.id "FAILED" detail) (λ x. raise-IsSafe e)
      (λ x. raise-IsSafe e)

change_control-IsSafe :
    (m : Machine) (mode : String) (o : Option InstallationSelection)
    → IsSafe (change_control m mode o)
unfolding change_control
change_control-IsSafe m mode none = raise-IsSafe selection_missing
change_control-IsSafe m mode (some selection) =
    if-IsSafe (mode == "hooks" && not (m.hooks_valid selection.web_server))
      (raise-IsSafe command_hooks_invalid)
      (Triple-bind (attempt_call-IsSafe state_unwritten) (λ u. modify-IsSafe _ (λ s k. k)))

module _ (m : Machine) (c : AgentCommand) where
  apply_control-IsSafe : (control : String × String) → IsSafe (apply_control m c control)
  unfolding apply_control
  apply_control-IsSafe (mode, label) =
      Triple-catch (record { at = λ s k. (change_control-IsSafe m mode s.selection).at s k })
        (λ e. refuse_command-IsSafe c (m.text_of e) e)
        (λ u.
          Triple-bind (send_command_result-IsSafe c.id "ACCEPTED" label)
            (λ u. save_command-IsSafe c.id))

  execute-IsSafe : Triple (IsAccepted c.id) (execute m c) (λ a. IsAnnounced) (λ e. IsAnnounced)
  unfolding execute
  execute-IsSafe = record {
    at = λ s k.
        by_fault (is_working (first_fault s.faults))
          (record s { faults = other_faults s.faults; executed = s.executed ++ c.id ∷ [] })
          (All-append (λ id. told id "ACCEPTED" s.command_results ≡ true) s.executed (c.id ∷ []) k.0
            (k.1, tt));
  }
    where
      by_fault :
          (b : Bool) (s : Station)
          → IsAnnounced s
          → Post
              (λ a. IsAnnounced)
              (λ e. IsAnnounced)
              (if b then (ok tt, s) else (err execution_failed, s))
      by_fault true s k = k
      by_fault false s k = k

  run_fixed-IsSafe : (arguments : Option (List String)) → IsSafe (run_fixed m c arguments)
  unfolding run_fixed
  run_fixed-IsSafe none = refuse_command-IsSafe c _ command_unsupported
  run_fixed-IsSafe (some arguments) = Triple-bind (send_command_result-IsAccepted c.id _) λ u.
      Triple-bind
        (Triple-catch execute-IsSafe (λ e. refuse_command-IsSafe c (m.text_of e) e) pure-IsSafe)
        λ u. save_command-IsSafe c.id

  by_kind-IsSafe : (control : Option (String × String)) → IsSafe (by_kind m c control)
  unfolding by_kind
  by_kind-IsSafe none = run_fixed-IsSafe (fixed_command m c.command)
  by_kind-IsSafe (some control) = apply_control-IsSafe control

  execute_next_command-IsSafe : IsSafe (execute_next_command m c)
  unfolding execute_next_command read_value
  execute_next_command-IsSafe = if-IsSafe (c.id == "") (pure-IsSafe tt) (
      Triple-bind {A = String}
        (Triple-bind {B = String} {S = λ a. IsAnnounced} (attempt_call-IsSafe state_unreadable)
          (λ u. record { at = λ s k. k }))
        λ last.
          if-IsSafe (last == c.id) (send_command_result-IsSafe c.id "ACCEPTED" _)
            (by_kind-IsSafe (control_of c.command)))

unfoldable pub execute_all : List (Machine × AgentCommand) → Station → Station
execute_all [] s = s
execute_all ((m, c) ∷ cs) s = execute_all cs (execute_next_command m c s).1

-- Whatever commands the Manager sends, and whichever calls fail or lose their answers: a command that
-- was run is one of which the Manager has received that it is accepted, if that was so at the start.
pub execute_all-IsAnnounced :
    (cs : List (Machine × AgentCommand)) (s : Station)
    → IsAnnounced s
    → IsAnnounced (execute_all cs s)
unfolding execute_all
execute_all-IsAnnounced [] s k = k
execute_all-IsAnnounced ((m, c) ∷ cs) s k =
    execute_all-IsAnnounced cs (execute_next_command m c s).1
      (either (execute_next_command m c s) ((execute_next_command-IsSafe m c).at s k))
  where
    either :
        (o : Outcome Station StationError (Unit {0}))
        → Post (λ a. IsAnnounced) (λ e. IsAnnounced) o
        → IsAnnounced o.1
    either (ok u, s) h = h
    either (err e, s) h = h

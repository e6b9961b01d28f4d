-- ===== src/Agent/Cycle/Refused.antt =====
-- A policy that is not authentic changes neither the host nor the saved policy (internal/agent/agent.go).
use m_waf.Common.{
  Bool, String, err, false, if◌then◌else◌, inl, not, ok, refl, true, ◌==◌, ◌||◌, ◌≡◌,
}
use m_waf.Agent.Action.{Outcome, Post, Triple, Triple-bind, Triple-catch, ◌>>=◌}
use m_waf.Agent.Spool.{Fault, fails, first_fault, other_faults, unanswered, works}
use m_waf.Bundle.Types.{format_override}
use m_waf.Agent.Cycle.{
  Control, Controlling, CycleError, Desired, Server, answer_result, apply_and_report, apply_desired,
  current_desired_state, handle_policy, is_new, keep_policy, save_desired_state, send_policy_result,
  state_unsaved,
}
use m_waf.Agent.Cycle.Forged.{
  IsUntouched, IsVouched, Same, apply_desired-Same, attempt_step-Same, crypto_in_force,
}

module _ (server : Server) (d : Desired) (c0 : Control) where
  send_policy_result-Same :
      (revision status detail : String)
      → Triple
          (Same server d c0)
          (send_policy_result revision status detail)
          (λ a. Same server d c0)
          (λ e. Same server d c0)
  unfolding send_policy_result
  send_policy_result-Same revision status detail = record {
    at = λ c k. answered (first_fault c.faults) (record c { faults = other_faults c.faults }) k;
  }
    where
      answered :
          (f : Fault) (c : Control)
          → Same server d c0 c
          → Post
              (λ a. Same server d c0)
              (λ e. Same server d c0)
              (answer_result f (record { id = revision; status = status; detail = detail }) c)
      answered works c k = k
      answered fails c k = k
      answered unanswered c k = k

  apply_and_report-Same :
      Triple (Same server d c0) (apply_desired server d) (λ a c. ⊥) (λ e. Same server d c0)
      → Triple (Same server d c0) (apply_and_report server d) (λ a c. ⊥) (λ e. Same server d c0)
  unfolding apply_and_report
  apply_and_report-Same t =
      Triple-catch t
        (λ e.
          Triple-catch (send_policy_result-Same d.policy.revision_id "FAILED" (server.text_of e))
            (λ x. record { at = λ c k. k }) (λ x. record { at = λ c k. k }))
        (λ u. record { at = λ c k. elim k [ ] })

  save_current-Same :
      Triple
        (Same server d c0)
        (save_desired_state (keep_policy d (current_desired_state c0.saved)))
        (λ a. Same server d c0)
        (λ e. Same server d c0)
  unfolding save_desired_state
  save_current-Same =
      Triple-bind (attempt_step-Same server d c0 state_unsaved)
        (λ u. record { at = λ c k. (k.0, refl, k.2) })

  by_readiness :
      (b : Bool)
      → Triple (Same server d c0) (apply_and_report server d) (λ a c. ⊥) (λ e. Same server d c0)
      → Triple
          (Same server d c0)
          (if b
            then save_desired_state (keep_policy d (current_desired_state c0.saved))
            else (apply_and_report server d >>= λ u. save_desired_state d))
          (λ a. Same server d c0)
          (λ e. Same server d c0)
  by_readiness true t = save_current-Same
  by_readiness false t = Triple-bind t (λ u. record { at = λ c k. elim k [ ] })

-- When the desired state has a new policy, and what the Manager serves for it does not verify with the key
-- in force (the one of the key file, else the Manager's), a control cycle leaves the host and the saved
-- policy as they were, whatever fails. Of an override not both artifacts verify, of another format the one
-- artifact does not. The key file stays as it was, or the Manager's key is written where there was none.
pub handle_policy-IsUntouched :
    (server : Server) (d : Desired) (c : Control)
    → ¬ IsVouched
        (d.policy.artifact_format == format_override)
        (crypto_in_force server c.key_file)
        server
        d
    → is_new d (current_desired_state c.saved) ≡ true
    → IsUntouched server c (handle_policy server d c).1
unfolding handle_policy
handle_policy-IsUntouched server d c forged new = rw new (
    either (by_ready (not server.integration_ready || not server.config_test_ok) c) (
      (by_readiness server d c (not server.integration_ready || not server.config_test_ok)
          (apply_and_report-Same server d c (apply_desired-Same server d c forged))).at
        c (refl, refl, inl refl)))
  where
    by_ready : Bool → Controlling (Unit {0})
    by_ready b =
        if b
        then save_desired_state (keep_policy d (current_desired_state c.saved))
        else (apply_and_report server d >>= λ u. save_desired_state d)

    either :
        (o : Outcome Control CycleError (Unit {0}))
        → Post (λ a. IsUntouched server c) (λ e. IsUntouched server c) o
        → IsUntouched server c o.1
    either (ok u, x) h = h
    either (err e, x) h = h

-- ===== src/Agent/Cycle/Backed.antt =====
-- The saved desired state is one that the Manager knows to be applied (internal/agent/agent.go).
use mathlib.Core.Path.{subst}
use m_waf.Common.{
  Bool, Bytes, List, Option, String, [], ap, eq_iff, err, false, if◌then◌else◌, inl, inr, is_some,
  none, not, ok, refl, some, starts_with, sym, true, ◌&&◌, ◌==◌, ◌||◌, ◌∙◌, ◌∷◌, ◌≡◌, ◌⊎◌,
}
use m_waf.Agent.Action.{
  Outcome, Post, Triple, Triple-bind, Triple-catch, Triple-weaken, catch, pure, raise, ◌>>=◌,
}
use m_waf.Agent.Host.{ApplyError, World}
use m_waf.Agent.Host.Exec.{Exec}
use m_waf.Agent.Spool.{Fault, fails, first_fault, is_working, other_faults, unanswered, works}
use m_waf.Agent.Reports.{IsKnown, IsKnown-later, told, told-last}
use m_waf.Agent.Policy.{apply}
use m_waf.Agent.Policy.Split.{apply_split}
use m_waf.Bundle.Types.{format_override}
use m_waf.Agent.Cycle.{
  Control, Controlling, CycleError, Desired, Server, answer_result, apply_and_report, apply_desired,
  apply_pair, apply_single, artifact_path_invalid, attempt_step, base_path_invalid,
  current_desired_state, download, download_failed, ensure_policy_public_key, fetch_key,
  handle_policy, is_new, keep_policy, key_failed, of_host, on_host, references_missing,
  save_desired_state, send_policy_result, state_unsaved, with_key,
}

abbrev revision_of : Control → String
revision_of c = (current_desired_state c.saved).policy.revision_id

-- There is no saved revision, or the Manager has received that it is applied.
abbrev pub IsBacked : Control → Type 0
IsBacked c = IsKnown (revision_of c) "APPLIED" c.results

abbrev IsSafe : {A : Type 0} → Controlling A → Type 0
IsSafe m = Triple IsBacked m (λ a. IsBacked) (λ e. IsBacked)

-- the Manager has also received that this revision is applied
abbrev Announced : String → Control → Type 0
Announced revision c = IsBacked c × (told revision "APPLIED" c.results ≡ true)

module _ (P : Control → Type 0)
    (kept : (c : Control) (fs : List Fault) → P c → P (record c { faults = fs })) where
  pub attempt_step-Keeps : (e : CycleError) → Triple P (attempt_step e) (λ a. P) (λ e. P)
  unfolding attempt_step
  attempt_step-Keeps e = record {
    at = λ c k.
        by_fault (is_working (first_fault c.faults)) (record c { faults = other_faults c.faults })
          (kept c (other_faults c.faults) k);
  }
    where
      by_fault :
          (b : Bool) (c : Control)
          → P c
          → Post (λ a. P) (λ e. P) (if b then (ok tt, c) else (err e, c))
      by_fault true c k = k
      by_fault false c k = k

pure-IsSafe : {A : Type 0} (a : A) → IsSafe (pure a)
pure-IsSafe a = record { at = λ c k. k }

raise-IsSafe : {A : Type 0} (e : CycleError) → IsSafe (raise {A = A} e)
raise-IsSafe e = record { at = λ c k. k }

if-IsSafe :
    {A : Type 0} (b : Bool) {m k : Controlling A}
    → IsSafe m
    → IsSafe k
    → IsSafe (if b then m else k)
if-IsSafe true tm tk = tm
if-IsSafe false tm tk = tk

attempt_step-IsSafe : (e : CycleError) → IsSafe (attempt_step e)
attempt_step-IsSafe e = attempt_step-Keeps IsBacked (λ c fs k. k) e

on_host-IsSafe : {A : Type 0} (m : Exec A) → IsSafe (on_host m)
on_host-IsSafe {A} m = record { at = λ c k. by_outcome (m c.host) c k }
  where
    by_outcome :
        (o : Outcome World ApplyError A) (c : Control)
        → IsBacked c
        → Post (λ a. IsBacked) (λ e. IsBacked) (of_host c o)
    by_outcome (ok a, w) c k = k
    by_outcome (err e, w) c k = k

send_policy_result-IsSafe :
    (revision status detail : String) → IsSafe (send_policy_result revision status detail)
unfolding send_policy_result
send_policy_result-IsSafe revision status detail = record {
  at = λ c k. answered (first_fault c.faults) (record c { faults = other_faults c.faults }) k;
}
  where
    answered :
        (f : Fault) (c : Control)
        → IsBacked c
        → Post
            (λ a. IsBacked)
            (λ e. IsBacked)
            (answer_result f (record { id = revision; status = status; detail = detail }) c)
    answered works c k = IsKnown-later _ _ c.results _ k
    answered fails c k = k
    answered unanswered c k = IsKnown-later _ _ c.results _ k

send_applied-Announced :
    (revision detail : String)
    → Triple IsBacked
        (send_policy_result revision "APPLIED" detail)
        (λ a. Announced revision)
        (λ e. IsBacked)
unfolding send_policy_result
send_applied-Announced revision detail = record {
  at = λ c k. answered (first_fault c.faults) (record c { faults = other_faults c.faults }) k;
}
  where
    answered :
        (f : Fault) (c : Control)
        → IsBacked c
        → Post
            (λ a. Announced revision)
            (λ e. IsBacked)
            (answer_result f (record { id = revision; status = "APPLIED"; detail = detail }) c)
    answered works c k =
        (IsKnown-later _ _ c.results _ k, told-last revision "APPLIED" detail c.results)
    answered fails c k = k
    answered unanswered c k = IsKnown-later _ _ c.results _ k

-- a state is saved whose revision is known
save_desired_state-IsSafe :
    (P : Control → Type 0) (d : Desired)
    → ((c : Control) (fs : List Fault) → P c → P (record c { faults = fs }))
    → ((c : Control) → P c → IsBacked c)
    → ((c : Control) → P c → IsKnown d.policy.revision_id "APPLIED" c.results)
    → Triple P (save_desired_state d) (λ a. IsBacked) (λ e. IsBacked)
unfolding save_desired_state
save_desired_state-IsSafe P d kept backed known =
    Triple-bind
      (Triple-weaken (attempt_step-Keeps P kept state_unsaved) (λ c k. k) (λ a c k. k)
        (λ e c k. backed c k))
      (λ u. record { at = λ c k. known c k })

not_new :
    (d state : Desired)
    → is_new d state ≡ false
    → (d.policy.revision_id ≡ "") ⊎ (d.policy.revision_id ≡ state.policy.revision_id)
unfolding is_new
not_new d state h =
    by_texts (d.policy.revision_id == "") (d.policy.revision_id == state.policy.revision_id)
      (d.policy.sha256 == state.policy.sha256) h ((eq_iff d.policy.revision_id "").0)
      ((eq_iff d.policy.revision_id state.policy.revision_id).0)
  where
    by_texts :
        (a b c : Bool) {P Q : Type 0}
        → (not a && (not b || not c)) ≡ false
        → (a ≡ true → P)
        → (b ≡ true → Q)
        → P ⊎ Q
    by_texts true b c h f g = inl (f refl)
    by_texts false true c h f g = inr (g refl)
    by_texts false false c h f g = cc

module _ (server : Server) (d : Desired) where
  download-IsSafe :
      (prefix : String) (e : CycleError) (path : String) → IsSafe (download server prefix e path)
  unfolding download
  download-IsSafe prefix e path =
      if-IsSafe (not (starts_with path prefix)) (raise-IsSafe e)
        (Triple-bind (attempt_step-IsSafe download_failed) (λ u. pure-IsSafe (server.served path)))

  fetch_key-IsSafe : (key : Option Bytes) → IsSafe (fetch_key server key)
  unfolding fetch_key
  fetch_key-IsSafe (some raw) = pure-IsSafe tt
  fetch_key-IsSafe none =
      Triple-bind (attempt_step-IsSafe key_failed)
        λ u. Triple-bind (attempt_step-IsSafe key_failed) (λ u. record { at = λ c k. k })

  ensure_policy_public_key-IsSafe : IsSafe (ensure_policy_public_key server)
  unfolding ensure_policy_public_key
  ensure_policy_public_key-IsSafe =
      Triple-bind (attempt_step-IsSafe key_failed)
        (λ u. record { at = λ c k. (fetch_key-IsSafe c.key_file).at c k })

  apply_desired-IsSafe : IsSafe (apply_desired server d)
  unfolding apply_desired apply_pair apply_single
  apply_desired-IsSafe = Triple-bind ensure_policy_public_key-IsSafe λ u.
      if-IsSafe (d.policy.artifact_format == format_override)
        (if-IsSafe (not (is_some d.policy.base_policy) || not (is_some d.policy.override_policy))
          (raise-IsSafe references_missing)
          (Triple-bind (download-IsSafe _ base_path_invalid d.base_url) λ base_raw.
            Triple-bind (download-IsSafe _ artifact_path_invalid d.override_url) λ override.
              record {
                at = λ c k.
                    (on_host-IsSafe (
                        apply_split (with_key server.applier c.key_file) server.web_server d.policy
                          base_raw override)).at
                      c k;
              }))
        (Triple-bind (download-IsSafe _ artifact_path_invalid d.artifact_url) λ artifact. record {
          at = λ c k.
              (on_host-IsSafe (
                  apply (with_key server.applier c.key_file) server.web_server d.policy
                    artifact)).at
                c k;
        })

  refused-IsSafe :
      (e : CycleError) {Q : Control → Type 0}
      → Triple IsBacked
          (catch
            (send_policy_result d.policy.revision_id "FAILED" (server.text_of e))
            (λ _. raise {A = Unit {0}} e)
            (λ _. raise e))
          (λ a. Q)
          (λ e. IsBacked)
  refused-IsSafe e =
      Triple-catch (send_policy_result-IsSafe d.policy.revision_id "FAILED" (server.text_of e))
        (λ x. record { at = λ c k. k }) (λ x. record { at = λ c k. k })

  apply_and_report-Announced :
      Triple IsBacked
        (apply_and_report server d)
        (λ a. Announced d.policy.revision_id)
        (λ e. IsBacked)
  unfolding apply_and_report
  apply_and_report-Announced =
      Triple-catch apply_desired-IsSafe (λ e. refused-IsSafe e)
        (λ u. send_applied-Announced d.policy.revision_id "")

  by_decision-IsSafe :
      (saved : Option Desired) (b r : Bool)
      → is_new d (current_desired_state saved) ≡ b
      → Triple
          (λ c. IsBacked c × (c.saved ≡ saved))
          (if not b
            then save_desired_state d
            else if r
            then save_desired_state (keep_policy d (current_desired_state saved))
            else (apply_and_report server d >>= λ u. save_desired_state d))
          (λ a. IsBacked)
          (λ e. IsBacked)
  by_decision-IsSafe saved false r h =
      save_desired_state-IsSafe (λ c. IsBacked c × (c.saved ≡ saved)) d (λ c fs k. k) (λ c k. k.0)
        λ c k. known c k.0 k.1 (not_new d (current_desired_state saved) h)
    where
      known :
          (c : Control)
          → IsBacked c
          → c.saved ≡ saved
          → (d.policy.revision_id ≡ "")
            ⊎ (d.policy.revision_id ≡ (current_desired_state saved).policy.revision_id)
          → IsKnown d.policy.revision_id "APPLIED" c.results
      known c k same (inl e) = inl e
      known c k same (inr e) =
          subst (λ v. IsKnown v "APPLIED" c.results)
            (ap (λ o. (current_desired_state o).policy.revision_id) same ∙ sym e) k
  by_decision-IsSafe saved true true h =
      save_desired_state-IsSafe (λ c. IsBacked c × (c.saved ≡ saved))
        (keep_policy d (current_desired_state saved)) (λ c fs k. k) (λ c k. k.0)
        λ c k.
          subst (λ o. IsKnown (current_desired_state o).policy.revision_id "APPLIED" c.results) k.1
            k.0
  by_decision-IsSafe saved true false h =
      Triple-bind (Triple-weaken apply_and_report-Announced (λ c k. k.0) (λ a c k. k) (λ e c k. k))
        λ u.
          save_desired_state-IsSafe (Announced d.policy.revision_id) d (λ c fs k. k) (λ c k. k.0)
            (λ c k. inr k.1)

  pub handle_policy-IsSafe : IsSafe (handle_policy server d)
  unfolding handle_policy
  handle_policy-IsSafe = record {
    at = λ c k.
        (by_decision-IsSafe c.saved (is_new d (current_desired_state c.saved))
            (not server.integration_ready || not server.config_test_ok) refl).at
          c (k, refl);
  }

-- the desired states of the Manager, one cycle for each
unfoldable pub run_policies : List (Server × Desired) → Control → Control
run_policies [] c = c
run_policies ((server, d) ∷ ds) c = run_policies ds (handle_policy server d c).1

-- Whatever the Manager desires in however many cycles, and whichever calls fail or lose their answers:
-- a revision in the saved desired state is one of which the Manager has received that it is applied, if
-- that was so at the start.
pub run_policies-IsBacked :
    (ds : List (Server × Desired)) (c : Control) → IsBacked c → IsBacked (run_policies ds c)
unfolding run_policies
run_policies-IsBacked [] c k = k
run_policies-IsBacked ((server, d) ∷ ds) c k =
    run_policies-IsBacked ds (handle_policy server d c).1
      (either (handle_policy server d c) ((handle_policy-IsSafe server d).at c k))
  where
    either :
        (o : Outcome Control CycleError (Unit {0}))
        → Post (λ a. IsBacked) (λ e. IsBacked) o
        → IsBacked o.1
    either (ok u, c) h = h
    either (err e, c) h = h

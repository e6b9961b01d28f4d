-- ===== src/Agent/Deployment/Reported.antt =====
-- What the state directory says of reported and failed deployments, the Manager has been told
-- (internal/agent/agent.go).
use m_waf.Common.{
  Bool, List, Option, String, [], false, if◌then◌else◌, not, some, true, ◌&&◌, ◌==◌, ◌∷◌,
}
use m_waf.Agent.Action.{Triple-bind, Triple-catch, Triple-weaken, modify, pure, raise, ◌>>=◌}
use m_waf.Agent.Deployment.Types.{
  Duty, PackageDeployment, Station, StationError, attempt_call, read_value, restart_failed,
  send_package_result, state_unreadable, state_unwritten,
}
use m_waf.Agent.Deployment.Frame.{apply_package_deployment-Keeps, attempt_call-Keeps, books}
use m_waf.Agent.Deployment.{
  Site, applied_detail, by_values, confirm, finish_install, handle_package, install_new,
  kept_detail, line_of, matches_inventory, record_failure, repeat_failure, restart_updated,
  restarted, save_last,
}
use m_waf.Agent.Deployment.Truthful.{
  IsStateId, IsTrue, IsTruthful, Whatever, closed, save_failed-IsTrue, save_failed_detail-IsTrue,
  save_reported_failure-IsTrue, save_reported_success-IsTrue, send_package_result-IsTrue,
}

-- an action of the handler, in a station that tells the truth
abbrev IsSafe : {A : Type 0} → Duty A → Type 0
IsSafe m = IsTrue IsTruthful m IsTruthful

after-IsSafe :
    {A B : Type 0} {m : Duty A} {f : A → Duty B}
    → IsSafe m
    → ((a : A) → IsSafe (f a))
    → IsSafe (m >>= f)
after-IsSafe tm tf = Triple-bind tm tf

pure-IsSafe : {A : Type 0} (a : A) → IsSafe (pure a)
pure-IsSafe a = record { at = λ s k. k }

raise-IsSafe : {A : Type 0} (e : StationError) → IsSafe (raise {A = A} e)
raise-IsSafe e = record { at = λ s k. k }

if-IsSafe :
    {A : Type 0} (b : Bool) {m k : Duty A} → IsSafe m → IsSafe k → IsSafe (if b then m else k)
if-IsSafe true tm tk = tm
if-IsSafe false tm tk = tk

attempt_call-IsSafe : (e : StationError) → IsSafe (attempt_call e)
attempt_call-IsSafe e = attempt_call-Keeps IsTruthful Whatever closed e

modify-IsSafe :
    (f : Station → Station)
    → ((s : Station) → IsTruthful (books s) → IsTruthful (books (f s)))
    → IsSafe (modify f)
modify-IsSafe f change = record { at = λ s k. (change s k.0, tt) }

read_value-IsSafe : (file : Station → Option String) → IsSafe (read_value file)
unfolding read_value
read_value-IsSafe file =
    after-IsSafe (attempt_call-IsSafe state_unreadable) (λ u. record { at = λ s k. k })

record_failure-IsSafe :
    (d : PackageDeployment) (detail : String) → IsStateId d.id → IsSafe (record_failure d detail)
unfolding record_failure
record_failure-IsSafe d detail named =
    Triple-bind (send_package_result-IsTrue d.id "FAILED" detail) λ u.
      Triple-bind (save_failed-IsTrue d.id named) λ u.
        Triple-bind (save_failed_detail-IsTrue d.id detail)
          λ u. save_reported_failure-IsTrue d.id named

repeat_failure-IsSafe :
    (d : PackageDeployment) (reported : String)
    → IsStateId d.id
    → IsSafe (repeat_failure d reported)
unfolding repeat_failure
repeat_failure-IsSafe d reported named = if-IsSafe (reported == d.id) (pure-IsSafe tt) (
    after-IsSafe (read_value-IsSafe (λ s. s.failed_detail)) λ detail.
      Triple-bind (send_package_result-IsTrue d.id "FAILED" (kept_detail detail))
        λ u. save_reported_failure-IsTrue d.id named)

module _ (site : Site) (d : PackageDeployment) (named : IsStateId d.id) where
  confirm-IsSafe : (reported requested : String) → IsSafe (confirm site d reported requested)
  unfolding confirm
  confirm-IsSafe reported requested =
      if-IsSafe (not (reported == d.id) && (not (requested == d.id) && matches_inventory site d))
        (Triple-bind (send_package_result-IsTrue d.id "APPLIED" (applied_detail d))
          λ u. save_reported_success-IsTrue d.id named)
        (if-IsSafe (not (reported == d.id) && requested == "")
          (record_failure-IsSafe d (site.mismatch_detail d) named) (pure-IsSafe tt))

  send-IsSafe : (detail : String) → IsSafe (send_package_result d.id "FAILED" detail)
  send-IsSafe detail =
      Triple-weaken (send_package_result-IsTrue d.id "FAILED" detail) (λ s k. k)
        (λ a s k. (k.0.0, tt)) (λ e s k. k)

  restart_updated-IsSafe : IsSafe (restart_updated site d)
  unfolding restart_updated
  restart_updated-IsSafe =
      after-IsSafe (modify-IsSafe (λ s. record s { restart_requested = d.id }) (λ s k. k)) λ u.
        Triple-catch (attempt_call-IsSafe restart_failed)
          (λ e.
            Triple-catch (send-IsSafe (site.text_of e)) (λ x. raise-IsSafe e) (λ x. raise-IsSafe e))
          pure-IsSafe

  finish_install-IsSafe : (updated : Bool) → IsSafe (finish_install site d updated)
  unfolding finish_install save_last
  finish_install-IsSafe updated =
      after-IsSafe
        (after-IsSafe (attempt_call-IsSafe state_unwritten)
          (λ u. modify-IsSafe (λ s. record s { last = some (line_of d.id) }) (λ s k. k)))
        λ u. if-IsSafe updated restart_updated-IsSafe (pure-IsSafe tt)

  install_new-IsSafe : IsSafe (install_new site d)
  unfolding install_new
  install_new-IsSafe =
      Triple-catch (apply_package_deployment-Keeps IsTruthful Whatever closed site.tools d)
        (λ e. after-IsSafe (record_failure-IsSafe d (site.text_of e) named) (λ u. raise-IsSafe e))
        finish_install-IsSafe

  by_values-IsSafe :
      (last failed reported : String) → IsSafe (by_values site d last failed reported)
  unfolding by_values
  by_values-IsSafe last failed reported =
      if-IsSafe (failed == d.id)
        (after-IsSafe (repeat_failure-IsSafe d reported named) (λ u. pure-IsSafe false))
        (if-IsSafe (last == d.id)
          (record {
            at = λ s k.
                (after-IsSafe (confirm-IsSafe reported s.restart_requested)
                    (λ u. pure-IsSafe true)).at
                  s k;
          })
          (after-IsSafe install_new-IsSafe (λ u. pure-IsSafe false)))

  pub handle_package-IsSafe : IsSafe (handle_package site d)
  unfolding handle_package
  handle_package-IsSafe = after-IsSafe (read_value-IsSafe (λ s. s.last)) λ last.
      after-IsSafe (read_value-IsSafe (λ s. s.failed)) λ failed.
        after-IsSafe (read_value-IsSafe (λ s. s.reported))
          λ reported. by_values-IsSafe last failed reported

pub data Occurrence : Type 0 where
  -- a control cycle that finds this deployment in the desired state
  cycle : Site → PackageDeployment → Occurrence
  restart : Occurrence

unfoldable pub happen : Occurrence → Station → Station
happen (cycle site d) s = (handle_package site d s).1
happen restart s = restarted s

unfoldable pub happen_all : List Occurrence → Station → Station
happen_all [] s = s
happen_all (o ∷ os) s = happen_all os (happen o s)

abbrev pub HasStateId : Occurrence → Type 0
HasStateId (cycle site d) = IsStateId d.id
HasStateId restart = Unit {0}

-- ===== src/Agent/Deployment/Settled.antt =====
-- When the calls of a control cycle work, a deployment is reported exactly once
-- (internal/agent/agent.go).
use m_waf.Common.{
  Bool, String, [], ap, eq_refl, err, false, if◌then◌else◌, inl, inr, not, ok, refl, some, true,
  ◌&&◌, ◌++◌, ◌==◌, ◌∙◌, ◌∷◌, ◌≡◌, ◌⊎◌,
}
use m_waf.Agent.Action.{Outcome, Post, Triple, Triple-bind, Triple-weaken, pure, ◌>>=◌}
use m_waf.Agent.Deployment.Types.{
  PackageDeployment, Station, StationError, send_package_result, value_of,
}
use m_waf.Agent.Deployment.Frame.{Books, books}
use m_waf.Agent.Deployment.{
  Site, applied_detail, by_values, confirm, handle_package, line_of, matches_inventory,
  record_failure, repeat_failure, restarted, save_reported,
}
use m_waf.Agent.Deployment.Working.{
  Has, confirm_success-Works, record_failure-Works, with_failure, with_report, with_success,
}
use m_waf.Agent.Deployment.Started.{Started, handle_package-Starts, handle_package-by_values}
use m_waf.Agent.Deployment.Truthful.{IsStateId}

-- The outcome of a deployment has been sent once and is in the books.
pub record IsConcluded (d : PackageDeployment) (b c : Books) : Type 0 where
  pub status : String
  pub detail : String
  pub sent_once :
      c.reports ≡ b.reports ++ record { id = d.id; status = status; detail = detail } ∷ []
  pub is_reported : value_of c.reported ≡ d.id
  pub is_decided : (value_of c.failed ≡ d.id) ⊎ (value_of c.last ≡ d.id)

module _ (site : Site) (d : PackageDeployment) (named : IsStateId d.id) (b : Books)
    (failed : (value_of b.failed == d.id) ≡ false)
    (reported : (value_of b.reported == d.id) ≡ false) where
  abbrev Concluded : Station → Type 0
  Concluded s = IsConcluded d b (books s)

  abbrev Concludes : Books → Type 0
  Concludes c = Triple (Has c) (handle_package site d) (λ a. Concluded) (λ e. Concluded)

  IsConcluded-failure :
      (detail : String) (c : Books)
      → c.failed ≡ some (line_of d.id)
      → c.reported ≡ some (line_of d.id)
      → c.reports ≡ (with_report d.id "FAILED" detail b).reports
      → IsConcluded d b c
  IsConcluded-failure detail c h1 h2 h3 = record {
    status = "FAILED";
    detail = detail;
    sent_once = h3;
    is_reported = ap value_of h2 ∙ named;
    is_decided = inl (ap value_of h1 ∙ named);
  }

  named_eq : (value_of (some (line_of d.id)) == d.id) ≡ true
  named_eq = ap (λ v. v == d.id) named ∙ eq_refl d.id

  -- the next cycle leaves a failure as it is
  after_failure :
      (detail : String) → Concludes (record (with_failure d.id detail b) { restart_requested = "" })
  unfolding by_values repeat_failure
  after_failure detail =
      handle_package-by_values site d
        (record (with_failure d.id detail b) { restart_requested = "" }) (value_of b.last)
        (value_of (some (line_of d.id))) (value_of (some (line_of d.id))) refl refl refl
        (rw (named_eq) (record {
          at = λ s k.
              IsConcluded-failure detail (books s) (ap (λ x. x.failed) k.0)
                (ap (λ x. x.reported) k.0) (ap (λ x. x.reports) k.0);
        }))

  -- the books of a restarted Agent whose packages are installed
  abbrev awaiting : Books
  awaiting = record b { last = some (line_of d.id); restart_requested = "" }

  confirm-Concludes :
      Triple
        (Has awaiting)
        (confirm site d (value_of b.reported) "")
        (λ a. Concluded)
        (λ e. Concluded)
  unfolding confirm
  confirm-Concludes = rw reported (by_match (not ("" == d.id) && matches_inventory site d))
    where
      failed_last :
          (s : Station) → Has (with_failure d.id (site.mismatch_detail d) awaiting) s → Concluded s
      failed_last s k =
          IsConcluded-failure (site.mismatch_detail d) (books s) (ap (λ x. x.failed) k.0)
            (ap (λ x. x.reported) k.0) (ap (λ x. x.reports) k.0)

      applied_last : (s : Station) → Has (with_success d awaiting) s → Concluded s
      applied_last s k = record {
        status = "APPLIED";
        detail = applied_detail d;
        sent_once = ap (λ x. x.reports) k.0;
        is_reported = ap (λ x. value_of x.reported) k.0 ∙ named;
        is_decided = inr (ap (λ x. value_of x.last) k.0 ∙ named);
      }

      by_match :
          (matches : Bool)
          → Triple
              (Has awaiting)
              (if matches
                then (send_package_result d.id "APPLIED" (applied_detail d) >>= λ u.
                    save_reported d.id)
                else record_failure d (site.mismatch_detail d))
              (λ a. Concluded)
              (λ e. Concluded)
      by_match true =
          Triple-weaken (confirm_success-Works awaiting d) (λ s k. k) (λ u s k. applied_last s k)
            (λ e s k. elim k [ ])
      by_match false =
          Triple-weaken (record_failure-Works awaiting d (site.mismatch_detail d)) (λ s k. k)
            (λ u s k. failed_last s k) (λ e s k. elim k [ ])

  -- the first cycle after the restart reports what has become of the packages
  after_install : Concludes awaiting
  unfolding by_values
  after_install =
      handle_package-by_values site d awaiting (value_of (some (line_of d.id))) (value_of b.failed)
        (value_of b.reported) refl refl refl
        (rw (failed, named_eq)
          (record {
            at = λ s k.
                (requested_none s.restart_requested (ap (λ x. x.restart_requested) k.0)).at s k;
          }))
    where
      requested_none :
          (requested : String)
          → requested ≡ ""
          → Triple
              (Has awaiting)
              (confirm site d (value_of b.reported) requested >>= λ u. pure true)
              (λ a. Concluded)
              (λ e. Concluded)
      requested_none requested e =
          rw e (Triple-bind confirm-Concludes (λ u. record { at = λ s k. k }))

-- If no call fails, a deployment that the state directory does not know is reported exactly once by two
-- cycles with a restart of the Agent between them, whatever becomes of its installation; the report is
-- in the books, and the deployment is there as the failed or the last one.
pub handle_package-IsConcluded :
    (before after : Site) (d : PackageDeployment) (s : Station)
    → IsStateId d.id
    → s.faults ≡ []
    → (value_of s.last == d.id) ≡ false
    → (value_of s.failed == d.id) ≡ false
    → (value_of s.reported == d.id) ≡ false
    → IsConcluded d
        (books s)
        (books (handle_package after d (restarted (handle_package before d s).1)).1)
unfolding restarted
handle_package-IsConcluded before after d s named faultless last failed reported =
    second (handle_package before d s).1 (
      first (handle_package before d s)
        ((handle_package-Starts before d (books s) last failed).at s (refl, faultless)))
  where
    first :
        (o : Outcome Station StationError Bool)
        → Post (λ a. Started before d (books s)) (λ e. Started before d (books s)) o
        → Started before d (books s) o.1
    first (ok b, t) h = h
    first (err e, t) h = h

    last_of :
        (o : Outcome Station StationError Bool)
        → Post
            (λ a. Concluded after d named (books s) failed reported)
            (λ e. Concluded after d named (books s) failed reported)
            o
        → IsConcluded d (books s) (books o.1)
    last_of (ok b, t) h = h
    last_of (err e, t) h = h

    second :
        (t : Station)
        → Started before d (books s) t
        → IsConcluded d (books s) (books (handle_package after d (restarted t)).1)
    second t (inl (detail, h), k) = last_of (handle_package after d (restarted t)) (
        (after_failure after d named (books s) failed reported detail).at (restarted t)
          (ap (λ (c : Books). record c { restart_requested = "" }) h, k))
    second t (inr (requested, h), k) = last_of (handle_package after d (restarted t)) (
        (after_install after d named (books s) failed reported).at (restarted t)
          (ap (λ (c : Books). record c { restart_requested = "" }) h, k))

-- ===== src/Agent/Deployment/Booked.antt =====
-- A reported deployment is named by the failed or by the last file, whatever a cycle does with it
-- (internal/agent/agent.go).
use m_waf.Common.{
  Bool, List, Option, String, eq_iff, false, if◌then◌else◌, inl, inr, not, refl, some, true, ◌&&◌,
  ◌==◌, ◌∙◌, ◌≡◌, ◌⊎◌,
}
use m_waf.Agent.Action.{
  Post, Triple, Triple-bind, Triple-catch, Triple-weaken, modify, pure, raise, ◌>>=◌, ◌>>◌,
}
use m_waf.Agent.Spool.{Fault, fails, first_fault, other_faults, unanswered, works}
use m_waf.Agent.Deployment.Types.{
  Duty, PackageDeployment, Report, Station, StationError, answer_report, attempt_call, read_value,
  restart_failed, send_package_result, state_unreadable, state_unwritten, value_of,
}
use m_waf.Agent.Deployment.Frame.{
  Books, Keeps, apply_package_deployment-Keeps, attempt_call-Keeps, books,
}
use m_waf.Agent.Deployment.Truthful.{IsStateId, Known, Whatever, closed}
use m_waf.Agent.Deployment.{
  Site, applied_detail, by_values, confirm, finish_install, handle_package, install_new,
  kept_detail, line_of, matches_inventory, record_failure, repeat_failure, restart_updated,
  save_failed, save_failed_detail, save_last, save_reported,
}

-- The failed or the last file names the deployment.
abbrev pub Decided : String → Books → Type 0
Decided id b = (value_of b.failed ≡ id) ⊎ (value_of b.last ≡ id)

-- When the reported file names the deployment, the failed or the last file does.
abbrev pub IsBooked : String → Books → Type 0
IsBooked id b = value_of b.reported ≡ id → Decided id b

module _ (id : String) where
  -- an action from a station of this kind to one of that
  abbrev pub Leads : (Books → Type 0) → {A : Type 0} → Duty A → Type 0
  Leads P m = Triple (Known P) m (λ a. Known (IsBooked id)) (λ e. Known (IsBooked id))

  abbrev Stable : {A : Type 0} → Duty A → Type 0
  Stable m = Triple (Known (Decided id)) m (λ a. Known (Decided id)) (λ e. Known (Decided id))

  Leads-of_Stable : {A : Type 0} {m : Duty A} → Stable m → Leads (Decided id) m
  Leads-of_Stable t = Triple-weaken t (λ s k. k) (λ a s k. (λ h. k.0, tt)) (λ e s k. (λ h. k.0, tt))

  after-Stable :
      {A B : Type 0} {m : Duty A} {f : A → Duty B}
      → Stable m
      → ((a : A) → Stable (f a))
      → Stable (m >>= f)
  after-Stable tm tf = Triple-bind tm tf

  if-Stable :
      {A : Type 0} (b : Bool) {m k : Duty A} → Stable m → Stable k → Stable (if b then m else k)
  if-Stable true tm tk = tm
  if-Stable false tm tk = tk

  attempt_call-Stable : (e : StationError) → Stable (attempt_call e)
  attempt_call-Stable e = attempt_call-Keeps (Decided id) Whatever closed e

  pure-Stable : {A : Type 0} (a : A) → Stable (pure a)
  pure-Stable a = record { at = λ s k. k }

  raise-Stable : {A : Type 0} (e : StationError) → Stable (raise {A = A} e)
  raise-Stable e = record { at = λ s k. k }

  modify-Stable :
      (f : Station → Station)
      → ((s : Station) → Decided id (books s) → Decided id (books (f s)))
      → Stable (modify f)
  modify-Stable f change = record { at = λ s k. (change s k.0, tt) }

  write-Stable :
      (f : Station → Station)
      → ((s : Station) → Decided id (books s) → Decided id (books (f s)))
      → Stable (attempt_call state_unwritten >> modify f)
  write-Stable f change =
      after-Stable (attempt_call-Stable state_unwritten) (λ u. modify-Stable f change)

  read_value-Stable : (file : Station → Option String) → Stable (read_value file)
  unfolding read_value
  read_value-Stable file =
      after-Stable (attempt_call-Stable state_unreadable) (λ u. record { at = λ s k. k })

  -- a report changes no file
  send-Keeps :
      (Q : Books → Type 0)
      → ((b : Books) (rs : List Report) → Q b → Q (record b { reports = rs }))
      → (i status detail : String) → Keeps Q Whatever (send_package_result i status detail)
  unfolding send_package_result
  send-Keeps Q same i status detail = record {
    at = λ s k. sent (first_fault s.faults) (record s { faults = other_faults s.faults }) k.0;
  }
    where
      sent :
          (fault : Fault) (s : Station)
          → Q (books s)
          → Post
              (λ a. Known Q)
              (λ e. Known Q)
              (answer_report fault (record { id = i; status = status; detail = detail }) s)
      sent works s k = (same (books s) _ k, tt)
      sent fails s k = (k, tt)
      sent unanswered s k = (same (books s) _ k, tt)

  send-Stable : (i status detail : String) → Stable (send_package_result i status detail)
  send-Stable i status detail = send-Keeps (Decided id) (λ b rs k. k) i status detail

  save_reported-Stable : (i : String) → Stable (save_reported i)
  unfolding save_reported
  save_reported-Stable i = write-Stable _ (λ s k. k)

  module _ (site : Site) (d : PackageDeployment) (named : IsStateId d.id) (about : d.id ≡ id) where
    -- writing the failed or the last file decides
    decides :
        (f : Station → Station)
        → ((s : Station) → Decided id (books (f s)))
        → Triple
            (Known (IsBooked id))
            (attempt_call state_unwritten >> modify f)
            (λ a. Known (Decided id))
            (λ e. Known (IsBooked id))
    decides f change =
        Triple-bind (attempt_call-Keeps (IsBooked id) Whatever closed state_unwritten)
          (λ u. record { at = λ s k. (change s, tt) })

    record_failure-Leads : (detail : String) → Leads (IsBooked id) (record_failure d detail)
    unfolding record_failure save_failed save_failed_detail
    record_failure-Leads detail =
        Triple-bind (send-Keeps (IsBooked id) (λ b rs k. k) d.id "FAILED" detail) λ u.
          Triple-bind (decides _ (λ s. inl (named ∙ about))) λ u.
            Leads-of_Stable
              (after-Stable (write-Stable _ (λ s k. k)) (λ u. save_reported-Stable d.id))

    restart_updated-Stable : Stable (restart_updated site d)
    unfolding restart_updated
    restart_updated-Stable =
        after-Stable (modify-Stable (λ s. record s { restart_requested = d.id }) (λ s k. k)) λ u.
          Triple-catch (attempt_call-Stable restart_failed)
            (λ e.
              Triple-catch (send-Stable d.id "FAILED" (site.text_of e)) (λ x. raise-Stable e)
                (λ x. raise-Stable e))
            pure-Stable

    finish_install-Leads : (updated : Bool) → Leads (IsBooked id) (finish_install site d updated)
    unfolding finish_install save_last
    finish_install-Leads updated =
        Triple-bind
          (decides (λ s. record s { last = some (line_of d.id) }) (λ s. inr (named ∙ about)))
          λ u. Leads-of_Stable (if-Stable updated restart_updated-Stable (pure-Stable tt))

    install_new-Leads : Leads (IsBooked id) (install_new site d)
    unfolding install_new
    install_new-Leads =
        Triple-catch (apply_package_deployment-Keeps (IsBooked id) Whatever closed site.tools d)
          (λ e. Triple-bind (record_failure-Leads (site.text_of e)) (λ u. record { at = λ s k. k }))
          finish_install-Leads

    record_failure-Stable : (detail : String) → Stable (record_failure d detail)
    unfolding record_failure save_failed save_failed_detail
    record_failure-Stable detail = after-Stable (send-Stable d.id "FAILED" detail) λ u.
        after-Stable (write-Stable _ (λ s k. inl (named ∙ about)))
          λ u. after-Stable (write-Stable _ (λ s k. k)) (λ u. save_reported-Stable d.id)

    confirm-Stable : (reported requested : String) → Stable (confirm site d reported requested)
    unfolding confirm
    confirm-Stable reported requested =
        if-Stable (not (reported == d.id) && (not (requested == d.id) && matches_inventory site d))
          (after-Stable (send-Stable d.id "APPLIED" (applied_detail d))
            (λ u. save_reported-Stable d.id))
          (if-Stable (not (reported == d.id) && requested == "")
            (record_failure-Stable (site.mismatch_detail d)) (record { at = λ s k. k }))

    repeat_failure-Stable : (reported : String) → Stable (repeat_failure d reported)
    unfolding repeat_failure
    repeat_failure-Stable reported =
        if-Stable (reported == d.id) (record { at = λ s k. k })
          (after-Stable (read_value-Stable (λ s. s.failed_detail)) λ detail.
            after-Stable (send-Stable d.id "FAILED" (kept_detail detail))
              (λ u. save_reported-Stable d.id))

    read_value-keeps :
        (Q : Books → Type 0) (g : Books → Option String)
        → ((b : Books) → Q b → IsBooked id b)
        → Triple
            (Known Q)
            (read_value (λ s. g (books s)))
            (λ a. Known (λ b. Q b × (value_of (g b) ≡ a)))
            (λ e. Known (IsBooked id))
    unfolding read_value
    read_value-keeps Q g booked =
        Triple-bind
          (Triple-weaken (attempt_call-Keeps Q Whatever closed state_unreadable) (λ s k. k)
            (λ a s k. k) (λ e s k. (booked (books s) k.0, tt)))
          (λ u. record { at = λ s k. ((k.0, refl), tt) })

    -- what the cycle has read is in the books
    abbrev Read : String → String → Books → Type 0
    Read last failed b = (IsBooked id b × (value_of b.last ≡ last)) × (value_of b.failed ≡ failed)

    Leads-of_decision :
        {A : Type 0} {m : Duty A} {P : Books → Type 0}
        → ((b : Books) → P b → Decided id b)
        → Stable m
        → Leads P m
    Leads-of_decision decided t =
        Triple-weaken (Leads-of_Stable t) (λ s k. (decided (books s) k.0, tt)) (λ a s k. k)
          (λ e s k. k)

    by_values-Leads :
        (last failed reported : String)
        → Leads (Read last failed) (by_values site d last failed reported)
    unfolding by_values
    by_values-Leads last failed reported =
        by_failed (failed == d.id) (last == d.id) ((eq_iff failed d.id).0) ((eq_iff last d.id).0)
      where
        by_failed :
            (f l : Bool)
            → (f ≡ true → failed ≡ d.id)
            → (l ≡ true → last ≡ d.id)
            → Leads (Read last failed) (
                if f
                then (repeat_failure d reported >>= λ _. pure false)
                else if l
                then (λ s. (confirm site d reported s.restart_requested >>= λ _. pure true) s)
                else (install_new site d >>= λ _. pure false))
        by_failed true l hf hl =
            Leads-of_decision {P = Read last failed} (λ b k. inl (k.1 ∙ hf refl ∙ about))
              (after-Stable (repeat_failure-Stable reported) (λ u. record { at = λ s k. k }))
        by_failed false true hf hl =
            Leads-of_decision {P = Read last failed} (λ b k. inr (k.0.1 ∙ hl refl ∙ about))
              (record {
                at = λ s k.
                    (after-Stable (confirm-Stable reported s.restart_requested)
                        (λ u. record { at = λ s k. k })).at
                      s k;
              })
        by_failed false false hf hl =
            Triple-bind
              (Triple-weaken install_new-Leads (λ s k. (k.0.0.0, tt)) (λ a s k. k) (λ e s k. k))
              (λ u. record { at = λ s k. k })

    pub handle_package-Leads : Leads (IsBooked id) (handle_package site d)
    unfolding handle_package
    handle_package-Leads =
        Triple-bind (read_value-keeps (IsBooked id) (λ b. b.last) (λ b k. k)) λ last.
          Triple-bind
            (read_value-keeps (λ b. IsBooked id b × (value_of b.last ≡ last)) (λ b. b.failed)
              (λ b k. k.0))
            λ failed.
              Triple-bind (read_value-keeps (Read last failed) (λ b. b.reported) (λ b k. k.0.0))
                λ reported.
                  Triple-weaken (by_values-Leads last failed reported) (λ s k. (k.0.0, tt))
                    (λ a s k. k) (λ e s k. k)

-- ===== src/Agent/Deployment/Started.antt =====
-- The first cycle of a package deployment when no call fails (internal/agent/agent.go).
use m_waf.Agent.Deployment.Working.{
  Has, NoFaults, NoFaults-IsClosed, Works, attempt_call-Works, impossible, modify-Works, never,
  pure-Works, read_value-Works, record_failure-Works, with_failure, write-Works,
}
use m_waf.Common.{
  Bool, Option, String, false, if◌then◌else◌, inl, inr, refl, some, true, ◌==◌, ◌∙◌, ◌≡◌, ◌⊎◌,
}
use m_waf.Agent.Action.{
  Triple, Triple-bind, Triple-bind_value, Triple-catch, Triple-weaken, catch, pure, raise, ◌>>=◌,
}
use m_waf.Agent.Deployment.Types.{
  Duty, PackageDeployment, Station, StationError, read_value, restart_failed, send_package_result,
  state_unwritten, value_of,
}
use m_waf.Agent.Deployment.Frame.{Books, Kept, apply_package_deployment-Keeps, books}
use m_waf.Agent.Deployment.{
  Site, by_values, finish_install, handle_package, install_new, line_of, restart_updated, save_last,
}

module _ (site : Site) (d : PackageDeployment) where
  -- the books after the packages are installed: only these two files differ
  abbrev Installed : Books → Books → Type 0
  Installed b c =
      (requested : String) × (c
        ≡ record b { last = some (line_of d.id); restart_requested = requested })

  -- the deployment has failed, or waits for the restart
  abbrev pub Started : Books → Station → Type 0
  Started b =
      Kept (λ c. ((detail : String) × (c ≡ with_failure d.id detail b)) ⊎ Installed b c) NoFaults

  abbrev Starts : {A : Type 0} → Books → Duty A → Type 0
  Starts b m = Triple (Has b) m (λ a. Started b) (λ e. Started b)

  restart_updated-Works :
      (b : Books) → Works b (restart_updated site d) (record b { restart_requested = d.id })
  unfolding restart_updated
  restart_updated-Works b =
      Triple-bind
        (modify-Works b (λ s. record s { restart_requested = d.id })
          (λ c. record c { restart_requested = d.id }) (λ s. refl) (λ s. refl))
        λ u.
          Triple-catch (attempt_call-Works (record b { restart_requested = d.id }) restart_failed)
            (λ e. impossible (
              catch (send_package_result d.id "FAILED" (site.text_of e)) (λ x. raise e)
                (λ x. raise e)))
            (pure-Works (record b { restart_requested = d.id }))

  finish_install-Starts : (b : Books) (updated : Bool) → Starts b (finish_install site d updated)
  unfolding finish_install save_last
  finish_install-Starts b updated =
      Triple-bind
        (never (
          write-Works b state_unwritten (λ s. record s { last = some (line_of d.id) })
            (λ c. record c { last = some (line_of d.id) }) (λ s. refl) (λ s. refl)))
        (λ u. by_update updated)
    where
      waits :
          (requested : String) (s : Station)
          → Has (record b { last = some (line_of d.id); restart_requested = requested }) s
          → Started b s
      waits requested s k = (inr (requested, k.0), k.1)

      by_update :
          (updated : Bool)
          → Triple
              (Has (record b { last = some (line_of d.id) }))
              (if updated then restart_updated site d else pure tt)
              (λ u. Started b)
              (λ e. Started b)
      by_update true =
          Triple-weaken (restart_updated-Works (record b { last = some (line_of d.id) })) (λ s k. k)
            (λ u s k. waits d.id s k) (λ e s k. elim k [ ])
      by_update false = record { at = λ s k. waits b.restart_requested s k }

  install_new-Starts : (b : Books) → Starts b (install_new site d)
  unfolding install_new
  install_new-Starts b =
      Triple-catch
        (apply_package_deployment-Keeps (λ c. c ≡ b) NoFaults NoFaults-IsClosed site.tools d)
        (λ e.
          Triple-bind (never (record_failure-Works b d (site.text_of e)))
            (λ u. record { at = λ s k. (inl (site.text_of e, k.0), k.1) }))
        (finish_install-Starts b)

  -- the handler, by the values of the three files
  pub handle_package-by_values :
      (b : Books) (last failed reported : String) {Q : Bool → Station → Type 0}
      {R : StationError → Station → Type 0}
      → value_of b.last ≡ last
      → value_of b.failed ≡ failed
      → value_of b.reported ≡ reported
      → Triple (Has b) (by_values site d last failed reported) Q R
      → Triple (Has b) (handle_package site d) Q R
  unfolding handle_package
  handle_package-by_values b last failed reported h1 h2 h3 t =
      read (λ c. c.last) last
        (λ l. read_value (λ s. s.failed) >>= λ f.
          read_value (λ s. s.reported) >>= λ r. by_values site d l f r)
        h1
        (read (λ c. c.failed) failed
          (λ f. read_value (λ s. s.reported) >>= λ r. by_values site d last f r) h2
          (read (λ c. c.reported) reported (λ r. by_values site d last failed r) h3 t))
    where
      read :
          (file : Books → Option String) (v : String) (f : String → Duty Bool)
          {Q : Bool → Station → Type 0} {R : StationError → Station → Type 0}
          → value_of (file b) ≡ v
          → Triple (Has b) (f v) Q R
          → Triple (Has b) (read_value (λ s. file (books s)) >>= f) Q R
      read file v f h t =
          Triple-bind_value f v
            (Triple-weaken (read_value-Works b file) (λ s k. k) (λ a s k. (k.0 ∙ h, k.1))
              (λ e s k. elim k [ ]))
            t

  pub handle_package-Starts :
      (b : Books)
      → (value_of b.last == d.id) ≡ false
      → (value_of b.failed == d.id) ≡ false
      → Starts b (handle_package site d)
  unfolding by_values
  handle_package-Starts b h1 h2 =
      handle_package-by_values b (value_of b.last) (value_of b.failed) (value_of b.reported) refl
        refl refl (rw (h1, h2) (Triple-bind (install_new-Starts b) (λ u. record { at = λ s k. k })))

-- ===== src/Agent/Deployment/Working.antt =====
-- The steps of a package deployment when no call fails (internal/agent/agent.go).
use m_waf.Common.{
  List, Option, String, [], ap, err, if◌then◌else◌, ok, refl, some, ◌++◌, ◌∙◌, ◌∷◌, ◌≡◌,
}
use m_waf.Agent.Action.{Post, Triple, Triple-bind, Triple-weaken, modify, pure, ◌>>=◌, ◌>>◌}
use m_waf.Agent.Spool.{Fault, first_fault, is_working, other_faults}
use m_waf.Agent.Deployment.Types.{
  Duty, PackageDeployment, Station, StationError, answer_report, attempt_call, read_value,
  send_package_result, state_unreadable, state_unwritten, value_of,
}
use m_waf.Agent.Deployment.Frame.{Books, IsClosed, Kept, books}
use m_waf.Agent.Deployment.{
  applied_detail, line_of, record_failure, save_failed, save_failed_detail, save_reported,
}

abbrev pub NoFaults : List Fault → Type 0
NoFaults fs = fs ≡ []

pub NoFaults-IsClosed : IsClosed NoFaults
NoFaults-IsClosed fs h = ap other_faults h

-- No call fails, and the books are these.
abbrev pub Has : Books → Station → Type 0
Has b = Kept (λ c. c ≡ b) NoFaults

-- an action that cannot fail from these books and leaves those
abbrev pub Works : {A : Type 0} → Books → Duty A → Books → Type 0
Works b m c = Triple (Has b) m (λ a. Has c) (λ e s. ⊥)

pub attempt_call-Works : (b : Books) (e : StationError) → Works b (attempt_call e) b
unfolding attempt_call
attempt_call-Works b e = record { at = λ s k. by_faults s s.faults k.0 k.1 }
  where
    by_faults :
        (s : Station) (fs : List Fault)
        → books s ≡ b
        → fs ≡ []
        → Post
            (λ a. Has b)
            (λ e s. ⊥)
            (if is_working (first_fault fs)
              then (ok tt, record s { faults = other_faults fs })
              else (err e, record s { faults = other_faults fs }))
    by_faults s [] h k = (h, refl)
    by_faults s (f ∷ fs) h k = cc

-- a file of the books is read
pub read_value-Works :
    (b : Books) (file : Books → Option String)
    → Triple
        (Has b)
        (read_value (λ s. file (books s)))
        (λ a s. (a ≡ value_of (file b)) × Has b s)
        (λ e s. ⊥)
unfolding read_value
read_value-Works b file =
    Triple-bind (attempt_call-Works b state_unreadable)
      λ u. record { at = λ s k. (ap (λ c. value_of (file c)) k.0, k) }

pub modify-Works :
    (b : Books) (f : Station → Station) (g : Books → Books)
    → ((s : Station) → books (f s) ≡ g (books s))
    → ((s : Station) → (f s).faults ≡ s.faults)
    → Works b (modify f) (g b)
modify-Works b f g change same = record { at = λ s k. (change s ∙ ap g k.0, same s ∙ k.1) }

pub write-Works :
    (b : Books) (e : StationError) (f : Station → Station) (g : Books → Books)
    → ((s : Station) → books (f s) ≡ g (books s))
    → ((s : Station) → (f s).faults ≡ s.faults)
    → Works b (attempt_call e >> modify f) (g b)
write-Works b e f g change same =
    Triple-bind (attempt_call-Works b e) (λ u. modify-Works b f g change same)

-- what cannot fail satisfies whatever is asked of its failures
pub never :
    {A : Type 0} {b : Books} {m : Duty A} {Q : A → Station → Type 0}
    {R : StationError → Station → Type 0}
    → Triple (Has b) m Q (λ e s. ⊥)
    → Triple (Has b) m Q R
never t = Triple-weaken t (λ s k. k) (λ a s k. k) (λ e s k. elim k [ ])

pub pure-Works : (b : Books) {A : Type 0} (a : A) → Works b (pure a) b
pure-Works b a = record { at = λ s k. k }

pub impossible :
    {A : Type 0} (m : Duty A) {Q : A → Station → Type 0} {R : StationError → Station → Type 0}
    → Triple (λ s. ⊥) m Q R
impossible m = record { at = λ s k. elim k [ ] }

abbrev pub with_report : String → String → String → Books → Books
with_report id status detail b = record b {
  reports = b.reports ++ record { id = id; status = status; detail = detail } ∷ [];
}

send_package_result-Works :
    (b : Books) (id status detail : String)
    → Works b (send_package_result id status detail) (with_report id status detail b)
unfolding send_package_result
send_package_result-Works b id status detail = record { at = λ s k. by_faults s s.faults k.0 k.1 }
  where
    by_faults :
        (s : Station) (fs : List Fault)
        → books s ≡ b
        → fs ≡ []
        → Post
            (λ a. Has (with_report id status detail b))
            (λ e s. ⊥)
            (answer_report
              (first_fault fs)
              (record { id = id; status = status; detail = detail })
              (record s { faults = other_faults fs }))
    by_faults s [] h k = (ap (with_report id status detail) h, refl)
    by_faults s (f ∷ fs) h k = cc

-- the books when a deployment has failed
abbrev pub with_failure : String → String → Books → Books
with_failure id detail b = record (with_report id "FAILED" detail b) {
  failed = some (line_of id);
  reported = some (line_of id);
}

pub record_failure-Works :
    (b : Books) (d : PackageDeployment) (detail : String)
    → Works b (record_failure d detail) (with_failure d.id detail b)
unfolding record_failure save_failed save_failed_detail save_reported
record_failure-Works b d detail =
    Triple-bind (send_package_result-Works b d.id "FAILED" detail) λ u.
      Triple-bind
        (write-Works (with_report d.id "FAILED" detail b) state_unwritten
          (λ s. record s { failed = some (line_of d.id) })
          (λ c. record c { failed = some (line_of d.id) }) (λ s. refl) (λ s. refl))
        λ u.
          Triple-bind
            (write-Works
              (record (with_report d.id "FAILED" detail b) { failed = some (line_of d.id) })
              state_unwritten (λ s. record s { failed_detail = some (line_of detail) }) (λ c. c)
              (λ s. refl) (λ s. refl))
            λ u.
              write-Works
                (record (with_report d.id "FAILED" detail b) { failed = some (line_of d.id) })
                state_unwritten (λ s. record s { reported = some (line_of d.id) })
                (λ c. record c { reported = some (line_of d.id) }) (λ s. refl) (λ s. refl)

-- the books when a deployment is confirmed
abbrev pub with_success : PackageDeployment → Books → Books
with_success d b = record (with_report d.id "APPLIED" (applied_detail d) b) {
  reported = some (line_of d.id);
}

pub confirm_success-Works :
    (b : Books) (d : PackageDeployment)
    → Works b
        (send_package_result d.id "APPLIED" (applied_detail d) >>= λ u. save_reported d.id)
        (with_success d b)
unfolding save_reported
confirm_success-Works b d =
    Triple-bind (send_package_result-Works b d.id "APPLIED" (applied_detail d)) λ u.
      write-Works (with_report d.id "APPLIED" (applied_detail d) b) state_unwritten
        (λ s. record s { reported = some (line_of d.id) })
        (λ c. record c { reported = some (line_of d.id) }) (λ s. refl) (λ s. refl)

-- ===== src/Agent/Deployment/Truthful.antt =====
-- What the files of failed and reported deployments say is what the Manager was told
-- (internal/agent/agent.go).
use m_waf.Common.{List, String, [], ap, inl, inr, some, true, ◌++◌, ◌∙◌, ◌∷◌, ◌≡◌, ◌⊎◌}
use m_waf.Agent.Action.{Post, Triple, Triple-bind, Triple-weaken, modify, ◌>>◌}
use m_waf.Agent.Spool.{Fault, fails, first_fault, other_faults, unanswered, works}
use m_waf.Agent.Deployment.Types.{
  Duty, Report, Station, StationError, answer_report, attempt_call, send_package_result,
  state_unwritten, value_of,
}
use m_waf.Agent.Deployment.Frame.{Books, IsClosed, Kept, attempt_call-Keeps, books}
use m_waf.Agent.Deployment.{line_of, save_failed, save_failed_detail, save_reported}
use m_waf.Agent.Reports.{IsKnown, IsKnown-later, told, told-last}

-- The Manager has a failure of the deployment in the failed file, and a failure or a success of the
-- one in the reported file.
abbrev pub IsTruthful : Books → Type 0
IsTruthful b =
    IsKnown (value_of b.failed) "FAILED" b.reports
    × (IsKnown (value_of b.reported) "FAILED" b.reports
        ⊎ IsKnown (value_of b.reported) "APPLIED" b.reports)

IsTruthful-later :
    (b : Books) (r : Report)
    → IsTruthful b
    → IsTruthful (record b { reports = b.reports ++ r ∷ [] })
IsTruthful-later b r (f, inl k) =
    (IsKnown-later _ _ b.reports r f, inl (IsKnown-later _ _ b.reports r k))
IsTruthful-later b r (f, inr k) =
    (IsKnown-later _ _ b.reports r f, inr (IsKnown-later _ _ b.reports r k))

-- any faults
abbrev pub Whatever : List Fault → Type 0
Whatever fs = Unit {0}

abbrev pub Known : (Books → Type 0) → Station → Type 0
Known Q = Kept Q Whatever

pub closed : IsClosed Whatever
closed fs f = tt

-- an id that comes back from a file as it was written
abbrev pub IsStateId : String → Type 0
IsStateId id = value_of (some (line_of id)) ≡ id

abbrev Told : String → String → Books → Type 0
Told id status b = IsTruthful b × (told id status b.reports ≡ true)

-- whatever fails, the state directory stays truthful
abbrev pub IsTrue : {A : Type 0} → (Books → Type 0) → Duty A → (Books → Type 0) → Type 0
IsTrue P m Q = Triple (Known P) m (λ a. Known Q) (λ e. Known IsTruthful)

module _ {P : Books → Type 0} (truthful : (b : Books) → P b → IsTruthful b) where
  attempt_call-IsTrue : (e : StationError) → IsTrue P (attempt_call e) P
  attempt_call-IsTrue e =
      Triple-weaken (attempt_call-Keeps P Whatever closed e) (λ s k. k) (λ a s k. k)
        (λ e s k. (truthful (books s) k.0, tt))

  write-IsTrue :
      (Q : Books → Type 0) (e : StationError) (f : Station → Station)
      → ((s : Station) → P (books s) → Q (books (f s)))
      → IsTrue P (attempt_call e >> modify f) Q
  write-IsTrue Q e f change =
      Triple-bind (attempt_call-IsTrue e) (λ a. record { at = λ s k. (change s k.0, tt) })

Told-IsTrue :
    (id status : String) (Q : Books → Type 0) (e : StationError) (f : Station → Station)
    → ((s : Station) → Told id status (books s) → Q (books (f s)))
    → IsTrue (Told id status) (attempt_call e >> modify f) Q
Told-IsTrue id status Q e f change = write-IsTrue {P = Told id status} (λ b k. k.0) Q e f change

sent-IsTrue :
    (id status detail : String) (fault : Fault) (s : Station)
    → IsTruthful (books s)
    → Post
        (λ a. Known (Told id status))
        (λ e. Known IsTruthful)
        (answer_report fault (record { id = id; status = status; detail = detail }) s)
sent-IsTrue id status detail works s k =
    ((IsTruthful-later (books s) _ k, told-last id status detail s.reports), tt)
sent-IsTrue id status detail fails s k = (k, tt)
sent-IsTrue id status detail unanswered s k = (IsTruthful-later (books s) _ k, tt)

pub send_package_result-IsTrue :
    (id status detail : String)
    → IsTrue IsTruthful (send_package_result id status detail) (Told id status)
unfolding send_package_result
send_package_result-IsTrue id status detail = record {
  at = λ s k.
      sent-IsTrue id status detail (first_fault s.faults)
        (record s { faults = other_faults s.faults }) k.0;
}

-- the file names a deployment of which the Manager has a report
IsKnown-of :
    (id status : String) (rs : List Report)
    → IsStateId id
    → told id status rs ≡ true
    → IsKnown (value_of (some (line_of id))) status rs
IsKnown-of id status rs named h = inr (ap (λ i. told i status rs) named ∙ h)

pub save_failed-IsTrue :
    (id : String) → IsStateId id → IsTrue (Told id "FAILED") (save_failed id) (Told id "FAILED")
unfolding save_failed
save_failed-IsTrue id named =
    Told-IsTrue id "FAILED" (Told id "FAILED") state_unwritten _
      λ s k. ((IsKnown-of id "FAILED" s.reports named k.1, k.0.1), k.1)

pub save_failed_detail-IsTrue :
    (id detail : String) → IsTrue (Told id "FAILED") (save_failed_detail detail) (Told id "FAILED")
unfolding save_failed_detail
save_failed_detail-IsTrue id detail =
    Told-IsTrue id "FAILED" (Told id "FAILED") state_unwritten _ (λ s k. k)

pub save_reported_failure-IsTrue :
    (id : String) → IsStateId id → IsTrue (Told id "FAILED") (save_reported id) IsTruthful
unfolding save_reported
save_reported_failure-IsTrue id named =
    Told-IsTrue id "FAILED" IsTruthful state_unwritten _
      λ s k. (k.0.0, inl (IsKnown-of id "FAILED" s.reports named k.1))

pub save_reported_success-IsTrue :
    (id : String) → IsStateId id → IsTrue (Told id "APPLIED") (save_reported id) IsTruthful
unfolding save_reported
save_reported_success-IsTrue id named =
    Told-IsTrue id "APPLIED" IsTruthful state_unwritten _
      λ s k. (k.0.0, inr (IsKnown-of id "APPLIED" s.reports named k.1))

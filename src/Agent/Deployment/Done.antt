-- ===== src/Agent/Deployment/Done.antt =====
-- A deployment that is reported is left alone (internal/agent/agent.go).
use m_waf.Common.{
  Bool, Option, String, [], ap, eq_iff, err, false, if◌then◌else◌, inl, inr, ok, refl, sym, true,
  ◌==◌, ◌∙◌, ◌≡◌, ◌⊎◌,
}
use m_waf.Agent.Action.{Outcome, Post, Triple, Triple-bind, Triple-bind_value, pure, ◌>>=◌}
use m_waf.Agent.Spool.{first_fault, is_working, other_faults}
use m_waf.Agent.Deployment.Types.{
  Duty, PackageDeployment, Station, StationError, attempt_call, read_value, state_unreadable,
  value_of,
}
use m_waf.Agent.Deployment.{Site, by_values, confirm, handle_package, install_new, repeat_failure}

abbrev quiet : Station → Station
quiet s = record s { faults = [] }

-- nothing but the calls to come differs
abbrev pub Stays : Station → Station → Type 0
Stays s t = quiet t ≡ quiet s

abbrev IsIdle : {A : Type 0} → Station → Duty A → Type 0
IsIdle s m = Triple (Stays s) m (λ a. Stays s) (λ e. Stays s)

-- the deployment was reported, as one that failed or as the one installed last
abbrev pub IsDone : PackageDeployment → Station → Type 0
IsDone d s = (value_of s.reported ≡ d.id) × ((value_of s.failed ≡ d.id) ⊎ (value_of s.last ≡ d.id))

module _ (s : Station) where
  read_value-IsIdle :
      (file : Station → Option String)
      → ((t : Station) → file t ≡ file (quiet t))
      → Triple
          (Stays s)
          (read_value file)
          (λ a t. (a ≡ value_of (file s)) × Stays s t)
          (λ e. Stays s)
  unfolding read_value attempt_call
  read_value-IsIdle file same = record {
    at = λ t k.
        by_fault (is_working (first_fault t.faults)) (record t { faults = other_faults t.faults })
          k;
  }
    where
      read_of : (t : Station) → Stays s t → value_of (file t) ≡ value_of (file s)
      read_of t k = ap value_of (same t ∙ ap file k ∙ sym (same s))

      by_fault :
          (b : Bool) (t : Station)
          → Stays s t
          → Post
              (λ a t. (a ≡ value_of (file s)) × Stays s t)
              (λ e. Stays s)
              (((λ t. if b then (ok tt, t) else (err state_unreadable, t)) >>= λ u t.
                  (ok (value_of (file t)), t))
                t)
      by_fault true t k = (read_of t k, k)
      by_fault false t k = k

  module _ (site : Site) (d : PackageDeployment) where
    confirm-IsIdle :
        (reported requested : String)
        → (reported == d.id) ≡ true
        → IsIdle s (confirm site d reported requested)
    unfolding confirm
    confirm-IsIdle reported requested h = rw h (record { at = λ t k. k })

    by_values-IsIdle :
        (last failed reported : String)
        → (reported == d.id) ≡ true
        → ((failed == d.id) ≡ true) ⊎ ((last == d.id) ≡ true)
        → IsIdle s (by_values site d last failed reported)
    unfolding by_values repeat_failure
    by_values-IsIdle last failed reported h (inl f) = rw (f, h) (record { at = λ t k. k })
    by_values-IsIdle last failed reported h (inr l) = by_failed (failed == d.id)
      where
        by_failed :
            (b : Bool)
            → IsIdle s (
                if b
                then (repeat_failure d reported >>= λ _. pure false)
                else if last == d.id
                then (λ s. (confirm site d reported s.restart_requested >>= λ _. pure true) s)
                else (install_new site d >>= λ _. pure false))
        by_failed true = rw h (record { at = λ t k. k })
        by_failed false = rw l (record {
          at = λ t k.
              (Triple-bind (confirm-IsIdle reported t.restart_requested h)
                  (λ u. record { at = λ t k. k })).at
                t k;
        })

    handle_package-IsIdle : IsDone d s → IsIdle s (handle_package site d)
    unfolding handle_package
    handle_package-IsIdle (reported, decided) =
        read (λ s. s.last) (λ t. refl)
          (λ l. read_value (λ s. s.failed) >>= λ f.
            read_value (λ s. s.reported) >>= λ r. by_values site d l f r)
          (read (λ s. s.failed) (λ t. refl)
            (λ f. read_value (λ s. s.reported) >>= λ r. by_values site d (value_of s.last) f r)
            (read (λ s. s.reported) (λ t. refl)
              (λ r. by_values site d (value_of s.last) (value_of s.failed) r)
              (by_values-IsIdle (value_of s.last) (value_of s.failed) (value_of s.reported)
                (named reported) (decision decided))))
      where
        named : {v : String} → v ≡ d.id → (v == d.id) ≡ true
        named {v} h = (eq_iff v d.id).1 h

        decision :
            (value_of s.failed ≡ d.id) ⊎ (value_of s.last ≡ d.id)
            → ((value_of s.failed == d.id) ≡ true) ⊎ ((value_of s.last == d.id) ≡ true)
        decision (inl h) = inl (named h)
        decision (inr h) = inr (named h)

        read :
            (file : Station → Option String)
            → ((t : Station) → file t ≡ file (quiet t))
            → (f : String → Duty Bool) → IsIdle s (f (value_of (file s)))
            → IsIdle s (read_value file >>= f)
        read file same f t = Triple-bind_value f (value_of (file s)) (read_value-IsIdle file same) t

-- A cycle that finds a deployment which was reported, and which the failed or the last file still names,
-- leaves the station as it is but for the calls to come.
pub handle_package-IsDone :
    (site : Site) (d : PackageDeployment) (s : Station)
    → IsDone d s
    → Stays s (handle_package site d s).1
handle_package-IsDone site d s done =
    either (handle_package site d s) ((handle_package-IsIdle s site d done).at s refl)
  where
    either :
        (o : Outcome Station StationError Bool) → Post (λ a. Stays s) (λ e. Stays s) o → Stays s o.1
    either (ok b, t) h = h
    either (err e, t) h = h

-- ===== src/Agent/Deployment/Once.antt =====
-- A deployment is installed and reported once, over cycles and restarts (internal/agent/agent.go).
use m_waf.Common.{All, Bool, List, String, [], ap, err, inl, inr, ok, refl, sym, ◌∙◌, ◌∷◌, ◌≡◌, ◌⊎◌}
use m_waf.Agent.Action.{Outcome, Post}
use m_waf.Agent.Deployment.Types.{Station, StationError, value_of}
use m_waf.Agent.Deployment.Frame.{Books, books}
use m_waf.Agent.Deployment.Truthful.{Known}
use m_waf.Agent.Deployment.Done.{handle_package-IsDone}
use m_waf.Agent.Deployment.Reported.{HasStateId, Occurrence, cycle, happen, happen_all, restart}
use m_waf.Agent.Deployment.Booked.{Decided, IsBooked, handle_package-Leads}
use m_waf.Agent.Deployment.{handle_package, restarted}

-- a cycle that finds the deployment of this id, or a restart
abbrev pub IsAbout : String → Occurrence → Type 0
IsAbout id (cycle site d) = d.id ≡ id
IsAbout id restart = Unit {0}

-- the station without the calls to come and what the process holds in memory
abbrev pub at_rest : Station → Station
at_rest s = record s { faults = []; restart_requested = "" }

module _ (id : String) where
  happen-IsBooked :
      (o : Occurrence) (s : Station)
      → HasStateId o
      → IsAbout id o
      → IsBooked id (books s)
      → IsBooked id (books (happen o s))
  unfolding happen restarted
  happen-IsBooked (cycle site d) s named about k =
      either (handle_package site d s) ((handle_package-Leads id site d named about).at s (k, tt))
    where
      either :
          (o : Outcome Station StationError Bool)
          → Post (λ a. Known (IsBooked id)) (λ e. Known (IsBooked id)) o
          → IsBooked id (books o.1)
      either (ok b, s) h = h.0
      either (err e, s) h = h.0
  happen-IsBooked restart s named about k = k

  happen_all-IsBooked :
      (os : List Occurrence) (s : Station)
      → All HasStateId os
      → All (IsAbout id) os
      → IsBooked id (books s)
      → IsBooked id (books (happen_all os s))
  unfolding happen_all
  happen_all-IsBooked [] s named about k = k
  happen_all-IsBooked (o ∷ os) s (n, named) (a, about) k =
      happen_all-IsBooked os (happen o s) named about (happen-IsBooked o s n a k)

  -- reported and decided
  abbrev Over : Books → Type 0
  Over b = (value_of b.reported ≡ id) × Decided id b

  happen-at_rest :
      (o : Occurrence) (s : Station)
      → IsAbout id o
      → Over (books s)
      → at_rest (happen o s) ≡ at_rest s
  unfolding happen restarted
  happen-at_rest (cycle site d) s about (reported, decided) =
      ap (λ (t : Station). record t { restart_requested = "" })
        (handle_package-IsDone site d s (reported ∙ sym about, of_decided decided))
    where
      of_decided : Decided id (books s) → (value_of s.failed ≡ d.id) ⊎ (value_of s.last ≡ d.id)
      of_decided (inl h) = inl (h ∙ sym about)
      of_decided (inr h) = inr (h ∙ sym about)
  happen-at_rest restart s about k = refl

  Over-at_rest : (s t : Station) → at_rest t ≡ at_rest s → Over (books s) → Over (books t)
  Over-at_rest s t same (reported, inl h) = (
    ap (λ (x : Station). value_of x.reported) same ∙ reported,
    inl (ap (λ (x : Station). value_of x.failed) same ∙ h),
  )
  Over-at_rest s t same (reported, inr h) = (
    ap (λ (x : Station). value_of x.reported) same ∙ reported,
    inr (ap (λ (x : Station). value_of x.last) same ∙ h),
  )

  happen_all-at_rest :
      (os : List Occurrence) (s : Station)
      → All (IsAbout id) os
      → Over (books s)
      → at_rest (happen_all os s) ≡ at_rest s
  unfolding happen_all
  happen_all-at_rest [] s about over = refl
  happen_all-at_rest (o ∷ os) s (a, about) over =
      let same = happen-at_rest o s a over in
      happen_all-at_rest os (happen o s) about (Over-at_rest s (happen o s) same over) ∙ same

  -- In any sequence of cycles that find a deployment of this id and of restarts, whichever calls fail or
  -- lose their answers: once the reported file names it, no later such cycle installs or reports anything,
  -- and the station, but what the process holds in memory and the calls to come, stays as it is. At the
  -- start the failed or the last file names it if the reported file does, and the id is such as a file
  -- gives back.
  pub happen_all-IsOnce :
      (before later : List Occurrence) (s : Station)
      → All HasStateId before
      → All (IsAbout id) before
      → All (IsAbout id) later
      → IsBooked id (books s)
      → value_of (happen_all before s).reported ≡ id
      → at_rest (happen_all later (happen_all before s)) ≡ at_rest (happen_all before s)
  happen_all-IsOnce before later s named about about_later booked reported =
      happen_all-at_rest later (happen_all before s) about_later
        (reported, happen_all-IsBooked before s named about booked reported)

-- ===== src/Agent/Reports.antt =====
-- The results that the Manager has received, and the ids of files that they are about (internal/agent).
use m_waf.Common.{
  Bool, List, String, [], arith, eq_refl, false, inl, inr, refl, true, ◌&&◌, ◌++◌, ◌==◌, ◌||◌, ◌∷◌,
  ◌≡◌, ◌⊎◌,
}
use m_waf.Agent.Deployment.Types.{Report}

abbrev pub is_report : String → String → Report → Bool
is_report id status r = r.id == id && r.status == status

unfoldable pub told : String → String → List Report → Bool
told id status [] = false
told id status (r ∷ rs) = is_report id status r || told id status rs

pub told-earlier :
    (id status : String) (rs : List Report) (r : Report)
    → told id status rs ≡ true
    → told id status (rs ++ r ∷ []) ≡ true
unfolding told
told-earlier id status [] r h = cc
told-earlier id status (x ∷ rs) r h = ground (arith, h, told-earlier id status rs r)

pub told-last :
    (id status detail : String) (rs : List Report)
    → told id status (rs ++ (record { id = id; status = status; detail = detail }) ∷ []) ≡ true
unfolding told
told-last id status detail [] = rw (eq_refl id, eq_refl status) refl
told-last id status detail (x ∷ rs) = ground (arith, told-last id status detail rs)

-- an id in a file, of which the Manager has this report
abbrev pub IsKnown : String → String → List Report → Type 0
IsKnown id status rs = (id ≡ "") ⊎ (told id status rs ≡ true)

pub IsKnown-later :
    (id status : String) (rs : List Report) (r : Report)
    → IsKnown id status rs
    → IsKnown id status (rs ++ r ∷ [])
IsKnown-later id status rs r (inl e) = inl e
IsKnown-later id status rs r (inr h) = inr (told-earlier id status rs r h)

-- ===== src/Tests/Limits.antt =====
-- A request limiter of two requests in ten seconds, for internal/manager/session.go.
use m_waf.Common.{List, String, [], arith, insert, lookup, refl, ℕ, ◌*◌, ◌∷◌, ◌≡◌, ◌≤◌}
use m_waf.Session.Limits.{allow, swept}
use m_waf.Session.Limits.Requests.{allowed}
use m_waf.Session.Limits.Fairness.{allow_all, allowed-new_request_limiter, new_request_limiter}

abbrev earlier : List (ℕ × String)
earlier = (95, "a") ∷ (96, "b") ∷ []

-- one request of the first window is left, then the window is new
abbrev calls : List (ℕ × String)
calls = (100, "a") ∷ (101, "a") ∷ (103, "b") ∷ (105, "a") ∷ (106, "a") ∷ (109, "a") ∷ []

allowed_three : allowed "a" calls (allow_all earlier (new_request_limiter 2 10)) ≡ 3
unfolding allowed allow_all allow swept lookup insert
allowed_three = refl

allowed-new_request_limiter_example :
    allowed "a" calls (allow_all earlier (new_request_limiter 2 10)) ≤ 2 * 2
allowed-new_request_limiter_example =
    allowed-new_request_limiter 2 10 earlier calls "a" 100 (omega arith) (omega arith) (
      (omega arith, omega arith),
      (
        (omega arith, omega arith),
        (
          (omega arith, omega arith),
          (
            (omega arith, omega arith),
            ((omega arith, omega arith), ((omega arith, omega arith), tt)),
          ),
        ),
      ),
    )

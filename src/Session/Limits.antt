-- ===== src/Session/Limits.antt =====
-- requestLimiter and loginLimiter of internal/manager/session.go. The mutex makes each call one step.
pub mod Logins
pub mod Windows
pub mod Requests
pub mod Fairness
use m_waf.Common.{
  Bool, Dict, List, Option, String, [], erase, false, if◌then◌else◌, insert, leb, length, lookup,
  ltb, nat_eq, none, some, true, ℕ, ◌++◌, ◌+◌, ◌-◌, ◌||◌, ◌∷◌,
}

pub record RequestLimitWindow : Type 0 where
  pub started : ℕ
  pub count : ℕ

pub record RequestLimiter : Type 0 where
  pub windows : Dict RequestLimitWindow
  pub limit : ℕ
  pub window : ℕ

-- the sweep of a map with more than 1024 entries
unfoldable pub sweep : ℕ → ℕ → Dict RequestLimitWindow → Dict RequestLimitWindow
sweep now window [] = []
sweep now window ((key, entry) ∷ rest) =
    let later = sweep now window rest in
    if leb window (now - entry.started) then later else (key, entry) ∷ later

abbrev pub window_or_zero : Option RequestLimitWindow → RequestLimitWindow
window_or_zero none = record { started = 0; count = 0 }
window_or_zero (some w) = w

-- `IsZero` is the test of 0; `now` is not before a window's start, so `-` is exact
abbrev pub decide_window : ℕ → String → RequestLimiter → RequestLimitWindow → Bool × RequestLimiter
decide_window now key l current =
    if nat_eq current.started 0 || leb l.window (now - current.started)
    then (true, record l { windows = insert key (record { started = now; count = 1 }) l.windows })
    else if leb l.limit current.count
    then (false, l)
    else (
      true,
      record l { windows = insert key (record current { count = current.count + 1 }) l.windows },
    )

-- the limiter after the sweep that a call begins with
unfoldable pub swept : ℕ → RequestLimiter → RequestLimiter
swept now l =
    if ltb 1024 (length l.windows) then record l { windows = sweep now l.window l.windows } else l

unfoldable pub allow : ℕ → String → RequestLimiter → Bool × RequestLimiter
allow now key l =
    decide_window now key (swept now l) (window_or_zero (lookup key (swept now l).windows))

pub record LoginLimiter : Type 0 where
  pub attempts : Dict (List ℕ)

abbrev pub attempts_of : Option (List ℕ) → List ℕ
attempts_of none = []
attempts_of (some xs) = xs

-- the attempts after the cutoff, 15 minutes ago
unfoldable pub recent : ℕ → List ℕ → List ℕ
recent now [] = []
recent now (t ∷ ts) = let rest = recent now ts in if ltb now (t + 900) then t ∷ rest else rest

unfoldable pub login_allow : ℕ → String → LoginLimiter → Bool × LoginLimiter
login_allow now key l =
    let current = recent now (attempts_of (lookup key l.attempts)) in
    (ltb (length current) 5, record { attempts = insert key current l.attempts })

unfoldable pub login_fail : ℕ → String → LoginLimiter → LoginLimiter
login_fail now key l = record {
  attempts = insert key (attempts_of (lookup key l.attempts) ++ now ∷ []) l.attempts;
}

unfoldable pub login_reset : String → LoginLimiter → LoginLimiter
login_reset key l = record { attempts = erase key l.attempts }

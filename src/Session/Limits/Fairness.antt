-- ===== src/Session/Limits/Fairness.antt =====
-- The request limiter of internal/manager/session.go from its beginning on.
use m_waf.Common.{
  All, Bool, List, Option, String, [], ap, arith, eq_iff, false, if◌then◌else◌, inl, inr, leb,
  lookup, nat_eq, none, refl, some, sym, true, ℕ, ◌*◌, ◌+◌, ◌-◌, ◌==◌, ◌||◌, ◌∷◌, ◌≡◌, ◌≤◌, ◌⊎◌,
}
use m_waf.Session.Limits.{RequestLimitWindow, RequestLimiter, allow, swept, window_or_zero}
use m_waf.Session.Limits.Requests.{IsDuring, IsFair, allowed, allowed-IsFair}
use m_waf.Session.Limits.Windows.{
  allow-IsLimiter, allow-other, allow-same, next_window, swept-lookup,
}
use mathlib.Core.Path.{subst}
use mathlib.Core.Option.{some_inj}

-- newRequestLimiter
abbrev pub new_request_limiter : ℕ → ℕ → RequestLimiter
new_request_limiter limit window = record { windows = []; limit = limit; window = window }

unfoldable pub allow_all : List (ℕ × String) → RequestLimiter → RequestLimiter
allow_all [] l = l
allow_all ((now, k) ∷ calls) l = allow_all calls (allow now k l).1

-- a window, if there is one, is not above the limit
abbrev IsFew : ℕ → Option RequestLimitWindow → Type 0
IsFew limit o = (w : RequestLimitWindow) → o ≡ some w → w.count ≤ limit

some-IsFew : (limit : ℕ) (v : RequestLimitWindow) → v.count ≤ limit → IsFew limit (some v)
some-IsFew limit v few w h =
    rw (ap (λ (x : RequestLimitWindow). x.count) (sym ((some_inj).0 h))) few

none-IsFew : (limit : ℕ) → IsFew limit none
none-IsFew limit w h = cc

next_window-IsFew :
    (limit window now : ℕ) (o : Option RequestLimitWindow)
    → 1 ≤ limit
    → IsFew limit o
    → IsFew limit (next_window now limit window o).1
unfolding next_window
next_window-IsFew limit window now o one few =
    by_tests (nat_eq (window_or_zero o).started 0 || leb window (now - (window_or_zero o).started))
      (leb limit (window_or_zero o).count) refl
  where
    decided_window : Bool → Bool → Bool × Option RequestLimitWindow
    decided_window x y =
        if x
        then (true, some (record { started = now; count = 1 }))
        else if y
        then (false, o)
        else (true, some (record (window_or_zero o) { count = (window_or_zero o).count + 1 }))

    by_tests :
        (x y : Bool) → leb limit (window_or_zero o).count ≡ y → IsFew limit (decided_window x y).1
    by_tests true y h = some-IsFew limit _ one
    by_tests false true h = few
    by_tests false false h = some-IsFew limit _ (ground (arith, h))

allow-IsFair :
    (limit window now : ℕ) (k : String) (l : RequestLimiter)
    → 1 ≤ limit
    → IsFair limit window l
    → IsFair limit window (allow now k l).1
allow-IsFair limit window now k l one (m, few) = (
  allow-IsLimiter limit window now k l m,
  λ key. by_key key (k == key) refl (found key (swept-lookup limit window now key l m)),
)
  where
    found :
        (key : String)
        → (lookup key (swept now l).windows ≡ lookup key l.windows)
          ⊎ ((lookup key (swept now l).windows ≡ none)
              × ((e : RequestLimitWindow)
                  → lookup key l.windows ≡ some e
                  → leb window (now - e.started) ≡ true))
        → IsFew limit (lookup key (swept now l).windows)
    found key (inl same) = subst (IsFew limit) (sym same) (few key)
    found key (inr (gone, old)) = subst (IsFew limit) (sym gone) (none-IsFew limit)

    by_key :
        (key : String) (b : Bool)
        → (k == key) ≡ b
        → IsFew limit (lookup key (swept now l).windows)
        → IsFew limit (lookup key (allow now k l).1.windows)
    by_key key false e there =
        subst (IsFew limit) (sym (allow-other limit window now k key l e)) there
    by_key key true e there =
        subst (λ x. IsFew limit (lookup key (allow now x l).1.windows)) (sym ((eq_iff k key).0 e))
          (subst (IsFew limit)
            (sym (
              ap (λ p. p.1)
                (allow-same limit window now key l (lookup key (swept now l).windows) m refl)))
            (next_window-IsFew limit window now (lookup key (swept now l).windows) one there))

allow_all-IsFair :
    (limit window : ℕ) (calls : List (ℕ × String)) (l : RequestLimiter)
    → 1 ≤ limit
    → IsFair limit window l
    → IsFair limit window (allow_all calls l)
unfolding allow_all
allow_all-IsFair limit window [] l one h = h
allow_all-IsFair limit window ((now, k) ∷ calls) l one h =
    allow_all-IsFair limit window calls (allow now k l).1 one
      (allow-IsFair limit window now k l one h)

new-IsFair : (limit window : ℕ) → IsFair limit window (new_request_limiter limit window)
unfolding lookup
new-IsFair limit window = ((refl, refl, tt), λ key w h. none-IsFew limit w h)

-- After any calls of a new request limiter: in a span of time as long as its window, no more than twice
-- the limit of requests are allowed for one key, whatever other keys do and whatever the sweep drops.
-- The limit is not zero, and the span does not begin at the zero time.
pub allowed-new_request_limiter :
    (limit window : ℕ) (earlier calls : List (ℕ × String)) (key : String) (start : ℕ)
    → 1 ≤ limit
    → 1 ≤ start
    → All (IsDuring window start) calls
    → allowed key calls (allow_all earlier (new_request_limiter limit window)) ≤ 2 * limit
allowed-new_request_limiter limit window earlier calls key start one after ds =
    allowed-IsFair limit window key start calls
      (allow_all earlier (new_request_limiter limit window)) after one
      (allow_all-IsFair limit window earlier (new_request_limiter limit window) one
        (new-IsFair limit window))
      ds

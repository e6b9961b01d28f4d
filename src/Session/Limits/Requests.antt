-- ===== src/Session/Limits/Requests.antt =====
-- How many requests the request limiter of internal/manager/session.go allows.
-- no key stands twice
use m_waf.Common.{
  All, Bool, List, Option, String, [], ap, arith, eq_iff, false, if◌then◌else◌, inl, inr, leb,
  lookup, nat_eq, none, refl, some, suc, sym, true, ℕ, ◌&&◌, ◌*◌, ◌+◌, ◌<◌, ◌==◌, ◌||◌, ◌∙◌, ◌∷◌,
  ◌≡◌, ◌≤◌, ◌⊎◌,
}
use m_waf.Session.Limits.{RequestLimitWindow, RequestLimiter, allow, swept}
use m_waf.Session.Limits.Windows.{
  IsLimiter, IsOpen, allow-IsLimiter, allow-other, allow-same, expired, next_window, open-lookup,
  open-next_window, swept-lookup,
}
use mathlib.Core.Path.{subst}

-- a call in the span of this length from `start` on
abbrev pub IsDuring : ℕ → ℕ → ℕ × String → Type 0
IsDuring window start (now, k) = (start ≤ now) × (now < start + window)

-- how many of these calls, with their times, were allowed for a key
unfoldable pub allowed : String → List (ℕ × String) → RequestLimiter → ℕ
allowed key [] l = 0
allowed key ((now, k) ∷ calls) l =
    let rest = allowed key calls (allow now k l).1 in
    if k == key && (allow now k l).0 then suc rest else rest

counted :
    (answer : Bool) (rest n : ℕ)
    → (answer ≡ true) × (1 + rest ≤ n)
    → (if answer then suc rest else rest) ≤ n
counted answer rest n (allows, few) = rw allows (omega (arith, few))

module _ (limit window : ℕ) (key : String) (start : ℕ) (one : 1 ≤ start) where
  abbrev During : List (ℕ × String) → Type 0
  During calls = All (IsDuring window start) calls

  -- one call of the key with an open window
  open-step :
      (now : ℕ) (w : RequestLimitWindow) (rest : ℕ) (r : Bool × Option RequestLimitWindow)
      → r ≡ next_window now limit window (some w)
      → IsOpen limit window start w
      → start ≤ now
      → now < start + window
      → ((v : RequestLimitWindow)
          → r.1 ≡ some v
          → IsOpen limit window start v
          → v.count + rest ≤ limit)
      → w.count + (if r.0 then suc rest else rest) ≤ limit
  open-step now w rest r h (o, from, few) after before ih =
      by_full (leb limit w.count) refl
        (h ∙ open-next_window limit window start now w (o, from, few) after before)
    where
      by_full :
          (b : Bool)
          → leb limit w.count ≡ b
          → ◌≡◌ {A = Bool × Option RequestLimitWindow} r
              (if b then (false, some w) else (true, some (record w { count = w.count + 1 })))
          → w.count + (if r.0 then suc rest else rest) ≤ limit
      by_full true e k = rw (ap (λ p. p.0) k) (ih w (ap (λ p. p.1) k) (o, from, few))
      by_full false e k =
          let room : w.count + 1 ≤ limit = ground (arith, e) in
          let later = ih (record w { count = w.count + 1 }) (ap (λ p. p.1) k) (o, from, room) in
          rw (ap (λ p. p.0) k) (omega (arith, later))

  -- behind an open window only what is left of it is allowed
  allowed-open :
      (calls : List (ℕ × String)) (l : RequestLimiter) (w : RequestLimitWindow)
      → IsLimiter limit window l
      → lookup key l.windows ≡ some w
      → IsOpen limit window start w
      → During calls
      → w.count + allowed key calls l ≤ limit
  unfolding allowed
  allowed-open [] l w m there (o, from, few) ds = omega (arith, few)
  allowed-open ((now, k) ∷ calls) l w m there open_w ((after, before), ds) =
      by_key (k == key) refl
        (open-lookup limit window start now key l w m there open_w after before)
        (λ v e open_v.
          allowed-open calls (allow now k l).1 v (allow-IsLimiter limit window now k l m) e open_v
            ds)
    where
      rest : ℕ
      rest = allowed key calls (allow now k l).1

      by_key :
          (b : Bool)
          → (k == key) ≡ b
          → lookup key (swept now l).windows ≡ some w
          → ((v : RequestLimitWindow)
              → lookup key (allow now k l).1.windows ≡ some v
              → IsOpen limit window start v
              → v.count + rest ≤ limit)
          → w.count + (if b && (allow now k l).0 then suc rest else rest) ≤ limit
      by_key false h found ih = ih w (allow-other limit window now k key l h ∙ found) open_w
      by_key true h found ih =
          open-step now w rest ((allow now k l).0, lookup key (allow now k l).1.windows)
            (subst
              (λ x.
                ◌≡◌ {A = Bool × Option RequestLimitWindow}
                  ((allow now x l).0, lookup key (allow now x l).1.windows)
                  (next_window now limit window (some w)))
              (sym ((eq_iff k key).0 h)) (allow-same limit window now key l (some w) m found))
            open_w after before ih

  module _ (some_allowed : 1 ≤ limit) where
    -- a call that opens a window, and the calls behind it
    opened-step :
        (now : ℕ) (calls : List (ℕ × String)) (l : RequestLimiter)
        → IsLimiter limit window (allow now key l).1
        → ◌≡◌ {A = Bool × Option RequestLimitWindow}
            ((allow now key l).0, lookup key (allow now key l).1.windows)
            (true, some (record { started = now; count = 1 }))
        → start ≤ now
        → During calls
        → ((allow now key l).0 ≡ true) × (1 + allowed key calls (allow now key l).1 ≤ limit)
    opened-step now calls l m h after ds = (
      ap (λ p. p.0) h,
      allowed-open calls (allow now key l).1 (record { started = now; count = 1 }) m
          (ap (λ p. p.1) h) (one, after, some_allowed) ds,
    )

    -- with no window
    allowed-none :
        (calls : List (ℕ × String)) (l : RequestLimiter)
        → IsLimiter limit window l
        → lookup key l.windows ≡ none
        → During calls
        → allowed key calls l ≤ limit
    unfolding allowed next_window
    allowed-none [] l m h ds = omega arith
    allowed-none ((now, k) ∷ calls) l m h ((after, before), ds) =
        by_key (k == key) refl (still_none (swept-lookup limit window now key l m))
          (λ e. allowed-none calls (allow now k l).1 (allow-IsLimiter limit window now k l m) e ds)
      where
        still_none :
            (lookup key (swept now l).windows ≡ lookup key l.windows)
              ⊎ ((lookup key (swept now l).windows ≡ none)
                  × ((e : RequestLimitWindow)
                      → lookup key l.windows ≡ some e
                      → expired now window e ≡ true))
            → lookup key (swept now l).windows ≡ none
        still_none (inl same) = same ∙ h
        still_none (inr (gone, old)) = gone

        by_key :
            (b : Bool)
            → (k == key) ≡ b
            → lookup key (swept now l).windows ≡ none
            → (lookup key (allow now k l).1.windows ≡ none
                → allowed key calls (allow now k l).1 ≤ limit)
            → (if b && (allow now k l).0
                then suc (allowed key calls (allow now k l).1)
                else allowed key calls (allow now k l).1)
              ≤ limit
        by_key false e gone ih = ih (allow-other limit window now k key l e ∙ gone)
        by_key true e gone ih =
            subst
              (λ x.
                (if (allow now x l).0
                  then suc (allowed key calls (allow now x l).1)
                  else allowed key calls (allow now x l).1)
                ≤ limit)
              (sym ((eq_iff k key).0 e))
              (counted (allow now key l).0 (allowed key calls (allow now key l).1) limit (
                opened-step now calls l (allow-IsLimiter limit window now key l m)
                  (allow-same limit window now key l none m gone) after ds))

    -- with any window of at most `limit` requests
    allowed-any :
        (calls : List (ℕ × String)) (l : RequestLimiter) (w : RequestLimitWindow)
        → IsLimiter limit window l
        → lookup key l.windows ≡ some w
        → w.count ≤ limit
        → During calls
        → w.count + allowed key calls l ≤ limit + limit
    unfolding allowed next_window
    allowed-any [] l w m there few ds = omega (arith, few)
    allowed-any ((now, k) ∷ calls) l w m there few ((after, before), ds) =
        by_key (k == key) refl (swept-lookup limit window now key l m) (λ v e few_v.
          allowed-any calls (allow now k l).1 v (allow-IsLimiter limit window now k l m) e few_v ds)
      where
        rest_of : String → ℕ
        rest_of x = allowed key calls (allow now x l).1

        Bounded : String → Type 0
        Bounded x =
            w.count + (if (allow now x l).0 then suc (rest_of x) else rest_of x) ≤ limit + limit

        opens :
            (o : Option RequestLimitWindow)
            → lookup key (swept now l).windows ≡ o
            → next_window now limit window o ≡ (true, some (record { started = now; count = 1 }))
            → Bounded key
        opens o e n =
            let c = counted (allow now key l).0 (rest_of key) limit (
              opened-step now calls l (allow-IsLimiter limit window now key l m)
                (allow-same limit window now key l o m e ∙ n) after ds) in
            omega (arith, c, few)

        by_tests :
            (x y : Bool)
            → (nat_eq w.started 0 || expired now window w) ≡ x
            → leb limit w.count ≡ y
            → lookup key (swept now l).windows ≡ some w
            → ((v : RequestLimitWindow)
                → lookup key (allow now key l).1.windows ≡ some v
                → v.count ≤ limit
                → v.count + rest_of key ≤ limit + limit)
            → Bounded key
        by_tests true y e f found ih = opens (some w) found (rw e refl)
        by_tests false true e f found ih =
            let n : next_window now limit window (some w) ≡ (false, some w) = rw (e, f) refl in
            let r = allow-same limit window now key l (some w) m found ∙ n in
            rw (ap (λ p. p.0) r) (ih w (ap (λ p. p.1) r) few)
        by_tests false false e f found ih =
            let n : next_window now limit window (some w)
                ≡ (true, some (record w { count = w.count + 1 })) =
              rw (e, f) refl in
            let r = allow-same limit window now key l (some w) m found ∙ n in
            let room : w.count + 1 ≤ limit = ground (arith, f) in
            let later = ih (record w { count = w.count + 1 }) (ap (λ p. p.1) r) room in
            rw (ap (λ p. p.0) r) (omega (arith, later))

        Left : String → Type 0
        Left x =
            (v : RequestLimitWindow)
            → lookup key (allow now x l).1.windows ≡ some v
            → v.count ≤ limit
            → v.count + rest_of x ≤ limit + limit

        by_sweep :
            (lookup key (swept now l).windows ≡ lookup key l.windows)
              ⊎ ((lookup key (swept now l).windows ≡ none)
                  × ((e : RequestLimitWindow)
                      → lookup key l.windows ≡ some e
                      → expired now window e ≡ true))
            → Left key
            → Bounded key
        by_sweep (inl same) ih =
            by_tests (nat_eq w.started 0 || expired now window w) (leb limit w.count) refl refl
              (same ∙ there) ih
        by_sweep (inr (gone, old)) ih = opens none gone refl

        by_key :
            (b : Bool)
            → (k == key) ≡ b
            → (lookup key (swept now l).windows ≡ lookup key l.windows)
              ⊎ ((lookup key (swept now l).windows ≡ none)
                  × ((e : RequestLimitWindow)
                      → lookup key l.windows ≡ some e
                      → expired now window e ≡ true))
            → ((v : RequestLimitWindow)
                → lookup key (allow now k l).1.windows ≡ some v
                → v.count ≤ limit
                → v.count + rest_of k ≤ limit + limit)
            → w.count + (if b && (allow now k l).0 then suc (rest_of k) else rest_of k)
              ≤ limit + limit
        by_key false e (inl same) ih =
            ih w (allow-other limit window now k key l e ∙ same ∙ there) few
        by_key false e (inr (gone, old)) ih =
            let later =
              allowed-none calls (allow now k l).1 (allow-IsLimiter limit window now k l m)
                (allow-other limit window now k key l e ∙ gone) ds in
            omega (arith, later, few)
        by_key true e found ih =
            subst Bounded (sym ((eq_iff k key).0 e))
              (by_sweep found (subst Left ((eq_iff k key).0 e) ih))

-- a limiter with no window above its limit
abbrev pub IsFair : ℕ → ℕ → RequestLimiter → Type 0
IsFair limit window l =
    IsLimiter limit window l
    × ((key : String) (w : RequestLimitWindow) → lookup key l.windows ≡ some w → w.count ≤ limit)

-- In any span of time as long as the window of a limiter, whatever other keys do and whatever the sweep
-- drops, no more than twice the limit of requests are allowed for one key. No window of the limiter
-- is above the limit at the start, the limit is not zero, and the time is not the zero time.
pub allowed-IsFair :
    (limit window : ℕ) (key : String) (start : ℕ) (calls : List (ℕ × String)) (l : RequestLimiter)
    → 1 ≤ start
    → 1 ≤ limit
    → IsFair limit window l
    → All (IsDuring window start) calls
    → allowed key calls l ≤ 2 * limit
allowed-IsFair limit window key start calls l one some_allowed (m, few) ds =
    by_window (lookup key l.windows) refl
  where
    by_window :
        (o : Option RequestLimitWindow) → lookup key l.windows ≡ o → allowed key calls l ≤ 2 * limit
    by_window none e =
        let bound = allowed-none limit window key start one some_allowed calls l m e ds in
        omega (arith, bound)
    by_window (some w) e =
        let bound =
          allowed-any limit window key start one some_allowed calls l w m e (few key w e) ds in
        omega (arith, bound)

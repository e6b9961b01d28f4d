-- ===== src/Session/Limits/Windows.antt =====
-- What a call of the request limiter of internal/manager/session.go does to each of its windows.
use mathlib.Core.Path.{subst}
use mathlib.Core.Option.{some_inj}
use m_waf.Common.{
  Bool, Dict, Option, String, [], ap, arith, eq_iff, eq_refl, false, if◌then◌else◌, inl, inr,
  insert, leb, length, lookup, lookup-insert, ltb, nat_eq, none, refl, some, sym, true, ℕ, ◌+◌, ◌-◌,
  ◌<◌, ◌==◌, ◌||◌, ◌∙◌, ◌∷◌, ◌≡◌, ◌≤◌, ◌⊎◌,
}
use m_waf.Session.Limits.{
  RequestLimitWindow, RequestLimiter, allow, decide_window, sweep, swept, window_or_zero,
}

abbrev pub IsMap : Dict RequestLimitWindow → Type 0
IsMap [] = Unit {0}
IsMap ((key, entry) ∷ rest) = (lookup key rest ≡ none) × IsMap rest

abbrev pub expired : ℕ → ℕ → RequestLimitWindow → Bool
expired now window entry = leb window (now - entry.started)

sweep-none :
    (now window : ℕ) (key : String) (d : Dict RequestLimitWindow)
    → lookup key d ≡ none
    → lookup key (sweep now window d) ≡ none
unfolding sweep lookup
sweep-none now window key [] h = refl
sweep-none now window key ((k, entry) ∷ rest) h = ground (arith, h, sweep-none now window key rest)

sweep-IsMap : (now window : ℕ) (d : Dict RequestLimitWindow) → IsMap d → IsMap (sweep now window d)
unfolding sweep
sweep-IsMap now window [] m = tt
sweep-IsMap now window ((k, entry) ∷ rest) (fresh, m) =
    by_age (expired now window entry) (sweep-IsMap now window rest m)
  where
    by_age :
        (e : Bool)
        → IsMap (sweep now window rest)
        → IsMap (if e then sweep now window rest else (k, entry) ∷ sweep now window rest)
    by_age true later = later
    by_age false later = (sweep-none now window k rest fresh, later)

-- what a sweep does to one key: nothing, or it drops an old window
sweep-lookup :
    (now window : ℕ) (key : String) (d : Dict RequestLimitWindow)
    → IsMap d
    → (lookup key (sweep now window d) ≡ lookup key d)
      ⊎ ((lookup key (sweep now window d) ≡ none)
          × ((entry : RequestLimitWindow)
              → lookup key d ≡ some entry
              → expired now window entry ≡ true))
unfolding sweep lookup
sweep-lookup now window key [] m = inl refl
sweep-lookup now window key ((k, entry) ∷ rest) (fresh, m) =
    by_tests (k == key) (expired now window entry) refl refl (sweep-lookup now window key rest m)
  where
    Dropped : Option RequestLimitWindow → Option RequestLimitWindow → Type 0
    Dropped o p =
        (o ≡ p)
        ⊎ ((o ≡ none) × ((e : RequestLimitWindow) → p ≡ some e → expired now window e ≡ true))

    by_tests :
        (b e : Bool)
        → (k == key) ≡ b
        → expired now window entry ≡ e
        → Dropped (lookup key (sweep now window rest)) (lookup key rest)
        → Dropped
            (lookup key (if e then sweep now window rest else (k, entry) ∷ sweep now window rest))
            (if b then some entry else lookup key rest)
    by_tests true true same old r = inr (
      subst (λ n. lookup n (sweep now window rest) ≡ none) ((eq_iff k key).0 same)
          (sweep-none now window k rest fresh),
      λ e h. ap (expired now window) (sym ((some_inj).0 h)) ∙ old,
    )
    by_tests true false same old r = inl (rw same refl)
    by_tests false true same old r = r
    by_tests false false same old r = rw same r

insert-IsMap :
    (key : String) (w : RequestLimitWindow) (d : Dict RequestLimitWindow)
    → IsMap d
    → IsMap (insert key w d)
unfolding insert lookup
insert-IsMap key w [] m = (refl, tt)
insert-IsMap key w ((k, entry) ∷ rest) (fresh, m) =
    by_test (k == key) refl (insert-IsMap key w rest m)
  where
    by_test :
        (b : Bool)
        → (k == key) ≡ b
        → IsMap (insert key w rest)
        → IsMap (if b then (key, w) ∷ rest else (k, entry) ∷ insert key w rest)
    by_test true same later = (subst (λ n. lookup n rest ≡ none) ((eq_iff k key).0 same) fresh, m)
    by_test false other later = (
      lookup-insert key k w rest ∙ ground (arith, fresh, other, eq_iff key k, eq_iff k key),
      later,
    )

-- one key of the limiter, without the others and without the sweep
unfoldable pub next_window :
    ℕ → ℕ → ℕ → Option RequestLimitWindow → Bool × Option RequestLimitWindow
next_window now limit window o =
    let current = window_or_zero o in
    if nat_eq current.started 0 || expired now window current
    then (true, some (record { started = now; count = 1 }))
    else if leb limit current.count
    then (false, o)
    else (true, some (record current { count = current.count + 1 }))

-- `decide_window` by its two tests
abbrev decided :
    Bool → Bool → ℕ → String → RequestLimiter → RequestLimitWindow → Bool × RequestLimiter
decided x y now key l w =
    if x
    then (true, record l { windows = insert key (record { started = now; count = 1 }) l.windows })
    else if y
    then (false, l)
    else (true, record l { windows = insert key (record w { count = w.count + 1 }) l.windows })

lookup-insert_same :
    (key : String) (w : RequestLimitWindow) (d : Dict RequestLimitWindow)
    → lookup key (insert key w d) ≡ some w
lookup-insert_same key w d = lookup-insert key key w d ∙ rw (eq_refl key) refl

module _ (limit window : ℕ) where
  -- a limiter of this configuration, whose windows are a map
  abbrev pub IsLimiter : RequestLimiter → Type 0
  IsLimiter l = (l.limit ≡ limit) × (l.window ≡ window) × IsMap l.windows

  swept-IsLimiter : (now : ℕ) (l : RequestLimiter) → IsLimiter l → IsLimiter (swept now l)
  unfolding swept
  swept-IsLimiter now l (a, b, m) = by_size (ltb 1024 (length l.windows))
    where
      by_size :
          (s : Bool)
          → IsLimiter (if s then record l { windows = sweep now l.window l.windows } else l)
      by_size true = (a, b, sweep-IsMap now l.window l.windows m)
      by_size false = (a, b, m)

  decide_window-IsLimiter :
      (now : ℕ) (key : String) (l : RequestLimiter) (w : RequestLimitWindow)
      → IsLimiter l
      → IsLimiter (decide_window now key l w).1
  decide_window-IsLimiter now key l w (a, b, m) =
      by_tests (nat_eq w.started 0 || leb l.window (now - w.started)) (leb l.limit w.count)
    where
      by_tests : (x y : Bool) → IsLimiter (decided x y now key l w).1
      by_tests true y = (a, b, insert-IsMap key _ l.windows m)
      by_tests false true = (a, b, m)
      by_tests false false = (a, b, insert-IsMap key _ l.windows m)

  pub allow-IsLimiter :
      (now : ℕ) (key : String) (l : RequestLimiter) → IsLimiter l → IsLimiter (allow now key l).1
  unfolding allow
  allow-IsLimiter now key l h =
      decide_window-IsLimiter now key (swept now l) _ (swept-IsLimiter now l h)

  -- what a call does to its own key
  decide_window-same :
      (now : ℕ) (key : String) (l : RequestLimiter)
      → IsLimiter l
      → (
        (decide_window now key l (window_or_zero (lookup key l.windows))).0,
        lookup key (decide_window now key l (window_or_zero (lookup key l.windows))).1.windows,
      )
        ≡ next_window now limit window (lookup key l.windows)
  unfolding next_window
  decide_window-same now key l (a, b, m) =
      rw (sym a, sym b)
        (by_tests (nat_eq w.started 0 || leb l.window (now - w.started)) (leb l.limit w.count))
    where
      w : RequestLimitWindow
      w = window_or_zero (lookup key l.windows)

      by_tests :
          (x y : Bool)
          → ◌≡◌ {A = Bool × Option RequestLimitWindow}
              ((decided x y now key l w).0, lookup key (decided x y now key l w).1.windows)
              (if x
                then (true, some (record { started = now; count = 1 }))
                else if y
                then (false, lookup key l.windows)
                else (true, some (record w { count = w.count + 1 })))
      by_tests true y = ap (λ o. (true, o)) (lookup-insert_same key _ l.windows)
      by_tests false true = refl
      by_tests false false = ap (λ o. (true, o)) (lookup-insert_same key _ l.windows)

  -- and to the others
  decide_window-other :
      (now : ℕ) (key other : String) (l : RequestLimiter) (w : RequestLimitWindow)
      → (key == other) ≡ false
      → lookup other (decide_window now key l w).1.windows ≡ lookup other l.windows
  decide_window-other now key other l w h =
      by_tests (nat_eq w.started 0 || leb l.window (now - w.started)) (leb l.limit w.count)
    where
      by_tests :
          (x y : Bool) → lookup other (decided x y now key l w).1.windows ≡ lookup other l.windows
      by_tests true y = lookup-insert key other _ l.windows ∙ rw h refl
      by_tests false true = refl
      by_tests false false = lookup-insert key other _ l.windows ∙ rw h refl

  pub swept-lookup :
      (now : ℕ) (key : String) (l : RequestLimiter)
      → IsLimiter l
      → (lookup key (swept now l).windows ≡ lookup key l.windows)
        ⊎ ((lookup key (swept now l).windows ≡ none)
            × ((e : RequestLimitWindow)
                → lookup key l.windows ≡ some e
                → expired now window e ≡ true))
  unfolding swept
  swept-lookup now key l (a, b, m) = by_size (ltb 1024 (length l.windows))
    where
      Dropped : Option RequestLimitWindow → Type 0
      Dropped o =
          (o ≡ lookup key l.windows)
          ⊎ ((o ≡ none)
              × ((e : RequestLimitWindow)
                  → lookup key l.windows ≡ some e
                  → expired now window e ≡ true))

      by_size :
          (s : Bool)
          → Dropped (
              lookup key
                (if s then record l { windows = sweep now l.window l.windows } else l).windows)
      by_size true =
          subst (λ v. Dropped (lookup key (sweep now v l.windows))) (sym b)
            (sweep-lookup now window key l.windows m)
      by_size false = inl refl

  -- a window that was opened in the interval of length `window` from `start` on
  abbrev pub IsOpen : ℕ → RequestLimitWindow → Type 0
  IsOpen start w = (1 ≤ start) × (start ≤ w.started) × (w.count ≤ limit)

  not_expired :
      (start now : ℕ) (w : RequestLimitWindow)
      → start ≤ w.started
      → start ≤ now
      → now < start + window
      → expired now window w ≡ false
  not_expired start now w h a k = ground (arith, h, a, k)

  -- an open window is neither swept nor opened again
  pub open-lookup :
      (start now : ℕ) (key : String) (l : RequestLimiter) (w : RequestLimitWindow)
      → IsLimiter l
      → lookup key l.windows ≡ some w
      → IsOpen start w
      → start ≤ now
      → now < start + window
      → lookup key (swept now l).windows ≡ some w
  open-lookup start now key l w m there (one, from, few) after before =
      elim (swept-lookup now key l m) [
        | inl same ↦ same ∙ there
        | inr (gone, old) ↦
            absurd (contra (old w there) (not_expired start now w from after before))
      ]
    where
      contra : {b : Bool} → b ≡ true → b ≡ false → ⊥
      contra h k = cc

  pub open-next_window :
      (start now : ℕ) (w : RequestLimitWindow)
      → IsOpen start w
      → start ≤ now
      → now < start + window
      → next_window now limit window (some w) ≡ (
          if leb limit w.count
          then (false, some w)
          else (true, some (record w { count = w.count + 1 })))
  unfolding next_window
  open-next_window start now w (one, from, few) after before =
      rw (not_expired start now w from after before, not_zero w.started (omega (arith, one, from)))
        refl
    where
      not_zero : (n : ℕ) → 1 ≤ n → nat_eq n 0 ≡ false
      not_zero n h = ground (arith, h)

  -- a call for the key itself, by what it finds behind the sweep
  pub allow-same :
      (now : ℕ) (key : String) (l : RequestLimiter) (o : Option RequestLimitWindow)
      → IsLimiter l
      → lookup key (swept now l).windows ≡ o
      → ◌≡◌ {A = Bool × Option RequestLimitWindow}
          ((allow now key l).0, lookup key (allow now key l).1.windows)
          (next_window now limit window o)
  unfolding allow
  allow-same now key l o m h =
      decide_window-same now key (swept now l) (swept-IsLimiter now l m)
      ∙ ap (next_window now limit window) h

  pub allow-other :
      (now : ℕ) (k key : String) (l : RequestLimiter)
      → (k == key) ≡ false
      → lookup key (allow now k l).1.windows ≡ lookup key (swept now l).windows
  unfolding allow
  allow-other now k key l h = decide_window-other now k key (swept now l) _ h

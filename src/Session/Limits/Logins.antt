-- ===== src/Session/Limits/Logins.antt =====
-- What the login limiter of internal/manager/session.go answers after any history of its calls.
use m_waf.Common.{
  All, Bool-cases, List, String, [], ap, arith, eq_iff, eq_refl, if◌then◌else◌, inl, inr, length,
  lookup, lookup-erase, lookup-insert, ltb, refl, suc, sym, ℕ, ◌*◌, ◌++◌, ◌+◌, ◌-◌, ◌==◌, ◌∙◌, ◌∷◌,
  ◌≡◌, ◌≤◌,
}
use m_waf.Session.Limits.{LoginLimiter, attempts_of, login_allow, login_fail, login_reset, recent}

-- a call of the limiter, with its time and its key
pub data LoginCall : Type 0 where
  allowed failed : ℕ → String → LoginCall
  cleared : String → LoginCall

abbrev pub call : LoginCall → LoginLimiter → LoginLimiter
call (allowed now key) l = (login_allow now key l).1
call (failed now key) l = login_fail now key l
call (cleared key) l = login_reset key l

abbrev pub run_calls : List LoginCall → LoginLimiter → LoginLimiter
run_calls [] l = l
run_calls (c ∷ cs) l = run_calls cs (call c l)

-- The failures of one key since it was last cleared, by the history alone.
abbrev pub failures_after : String → List ℕ → LoginCall → List ℕ
failures_after key past (allowed now k) = past
failures_after key past (failed now k) = if k == key then past ++ now ∷ [] else past
failures_after key past (cleared k) = if k == key then [] else past

abbrev pub failures : String → List ℕ → List LoginCall → List ℕ
failures key past [] = past
failures key past (c ∷ cs) = failures key (failures_after key past c) cs

abbrev pub time_of : LoginCall → ℕ
time_of (allowed now key) = now
time_of (failed now key) = now
time_of (cleared key) = 0

abbrev attempts_at : String → LoginLimiter → List ℕ
attempts_at key l = attempts_of (lookup key l.attempts)

recent-append : (now : ℕ) (xs ys : List ℕ) → recent now (xs ++ ys) ≡ recent now xs ++ recent now ys
unfolding recent
recent-append now [] ys = refl
recent-append now (x ∷ xs) ys = elim (Bool-cases (ltb now (x + 900))) [
  | inl young ↦ rw (young, recent-append now xs ys)
  | inr old ↦ rw (old, recent-append now xs ys)
]

-- what an earlier call has dropped, a later one drops as well
recent-recent :
    (now then' : ℕ) (xs : List ℕ) → then' ≤ now → recent now (recent then' xs) ≡ recent now xs
unfolding recent
recent-recent now then' [] h = refl
recent-recent now then' (x ∷ xs) h = ground (arith, h, recent-recent now then' xs h)

abbrev Agree : ℕ → List ℕ → List ℕ → Type 0
Agree now xs ys = recent now xs ≡ recent now ys

call-Agree :
    (now : ℕ) (key : String) (c : LoginCall) (past : List ℕ) (l : LoginLimiter)
    → time_of c ≤ now
    → Agree now (attempts_at key l) past
    → Agree now (attempts_at key (call c l)) (failures_after key past c)
unfolding login_allow login_fail login_reset
call-Agree now key (allowed t k) past l h e = elim (Bool-cases (k == key)) [
  | inl same ↦
      rw
        (
          lookup-insert k key (recent t (attempts_at k l)) l.attempts,
          (eq_iff k key).0 same,
          eq_refl key,
        )
        (recent-recent now t (attempts_at key l) h ∙ e)
  | inr other ↦ rw (lookup-insert k key (recent t (attempts_at k l)) l.attempts, other) e
]
call-Agree now key (failed t k) past l h e = elim (Bool-cases (k == key)) [
  | inl same ↦
      rw (lookup-insert k key (attempts_at k l ++ t ∷ []) l.attempts, same, (eq_iff k key).0 same)
        (recent-append now (attempts_at key l) (t ∷ [])
          ∙ ap (λ xs. xs ++ recent now (t ∷ [])) e
          ∙ sym (recent-append now past (t ∷ [])))
  | inr other ↦ rw (lookup-insert k key (attempts_at k l ++ t ∷ []) l.attempts, other) e
]
call-Agree now key (cleared k) past l h e = elim (Bool-cases (k == key)) [
  | inl same ↦ rw (lookup-erase k key l.attempts, same) refl
  | inr other ↦ rw (lookup-erase k key l.attempts, other) e
]

run_calls-Agree :
    (now : ℕ) (key : String) (cs : List LoginCall) (past : List ℕ) (l : LoginLimiter)
    → All (λ c. time_of c ≤ now) cs
    → Agree now (attempts_at key l) past
    → Agree now (attempts_at key (run_calls cs l)) (failures key past cs)
run_calls-Agree now key [] past l h e = e
run_calls-Agree now key (c ∷ cs) past l (h, hs) e =
    run_calls-Agree now key cs (failures_after key past c) (call c l) hs
      (call-Agree now key c past l h e)

-- The failures whose age at `now` is less than fifteen minutes, by a count of their own.
abbrev pub count_younger : ℕ → List ℕ → ℕ
count_younger now [] = 0
count_younger now (t ∷ ts) =
    let older = count_younger now ts in if ltb (now - t) (15 * 60) then suc older else older

length-recent : (now : ℕ) (ts : List ℕ) → length (recent now ts) ≡ count_younger now ts
unfolding recent
length-recent now [] = refl
length-recent now (t ∷ ts) = ground (arith, length-recent now ts)

-- After any history of calls, of whatever keys and none of them later than `now`, a new limiter allows
-- a login of a key at `now` if and only if fewer than five failures of that key, since it was last
-- cleared, are younger than fifteen minutes: the calls in between that have dropped old failures and
-- those for other keys make no difference.
pub login_allow-run_calls :
    (now : ℕ) (key : String) (cs : List LoginCall)
    → All (λ c. time_of c ≤ now) cs
    → (login_allow now key (run_calls cs (record { attempts = [] }))).0
      ≡ ltb (count_younger now (failures key [] cs)) 5
unfolding login_allow lookup
login_allow-run_calls now key cs h =
    ap (λ xs. ltb (length xs) 5) (run_calls-Agree now key cs [] (record { attempts = [] }) h refl)
    ∙ ap (λ n. ltb n 5) (length-recent now (failures key [] cs))

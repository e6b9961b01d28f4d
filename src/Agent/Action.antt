-- ===== src/Agent/Action.antt =====
-- Methods of internal/agent that change a state and may fail, and triples about them: what was done
-- before an error stays done.
use mathlib.Core.Path.{subst}
use m_waf.Common.{Result, err, ok, sym, ◌≡◌}

abbrev pub Outcome : Type 0 → Type 0 → Type 0 → Type 0
Outcome W F A = Result F A × W

abbrev pub Action : Type 0 → Type 0 → Type 0 → Type 0
Action W F A = W → Outcome W F A

abbrev pub pure : {W F A : Type 0} → A → Action W F A
pure a w = (ok a, w)

abbrev pub raise : {W F A : Type 0} → F → Action W F A
raise e w = (err e, w)

abbrev pub continue : {W F A B : Type 0} → Outcome W F A → (A → Action W F B) → Outcome W F B
continue (ok a, w) f = f a w
continue (err e, w) f = (err e, w)

infixl 5 ◌>>=◌ ◌>>◌
abbrev pub ◌>>=◌ : {W F A B : Type 0} → Action W F A → (A → Action W F B) → Action W F B
◌>>=◌ m f w = continue (m w) f

abbrev pub ◌>>◌ : {W F A B : Type 0} → Action W F A → Action W F B → Action W F B
m >> k = m >>= λ _. k

-- `if err := m(); err != nil { handler }`, and what follows otherwise
abbrev pub handled :
    {W F A B : Type 0} → Outcome W F A → (F → Action W F B) → (A → Action W F B) → Outcome W F B
handled (ok a, w) h f = f a w
handled (err e, w) h f = h e w

abbrev pub catch :
    {W F A B : Type 0} → Action W F A → (F → Action W F B) → (A → Action W F B) → Action W F B
catch m h f w = handled (m w) h f

-- the error of a step, wrapped
abbrev pub wrap : {W F A : Type 0} → (F → F) → Action W F A → Action W F A
wrap g m = catch m (λ e. raise (g e)) pure

abbrev pub lift : {W F A : Type 0} → Result F A → Action W F A
lift r w = (r, w)

-- a change of the state that cannot fail
abbrev pub modify : {W F : Type 0} → (W → W) → Action W F (Unit {0})
modify f w = (ok tt, f w)

-- What holds behind a result.
abbrev pub Post : {W F A : Type 0} → (A → W → Type 0) → (F → W → Type 0) → Outcome W F A → Type 0
Post Q R (ok a, w) = Q a w
Post Q R (err e, w) = R e w

pub record Triple {W F A : Type 0} (P : W → Type 0) (m : Action W F A) (Q : A → W → Type 0)
    (R : F → W → Type 0) : Type 0 where
  pub at : (w : W) → P w → Post Q R (m w)

module _ {W F A B : Type 0} {Q : A → W → Type 0} {S : B → W → Type 0} {R R' : F → W → Type 0} where
  -- what a handler and what follows do after each outcome
  handled-Post :
      (o : Outcome W F A) (h : F → Action W F B) (f : A → Action W F B)
      → Post Q R o
      → ((e : F) → Triple (R e) (h e) S R')
      → ((a : A) → Triple (Q a) (f a) S R')
      → Post S R' (handled o h f)
  handled-Post (ok a, w) h f p th tf = (tf a).at w p
  handled-Post (err e, w) h f p th tf = (th e).at w p

  pub Triple-catch :
      {P : W → Type 0} {m : Action W F A} {h : F → Action W F B} {f : A → Action W F B}
      → Triple P m Q R
      → ((e : F) → Triple (R e) (h e) S R')
      → ((a : A) → Triple (Q a) (f a) S R')
      → Triple P (catch m h f) S R'
  Triple-catch {m} {h} {f} t th tf = record { at = λ w p. handled-Post (m w) h f (t.at w p) th tf }

module _ {W F A B : Type 0} {Q : A → W → Type 0} {S : B → W → Type 0} {R : F → W → Type 0} where
  continue-Post :
      (o : Outcome W F A) (f : A → Action W F B)
      → Post Q R o
      → ((a : A) → Triple (Q a) (f a) S R)
      → Post S R (continue o f)
  continue-Post (ok a, w) f p t = (t a).at w p
  continue-Post (err e, w) f p t = p

  pub Triple-bind :
      {P : W → Type 0} {m : Action W F A} {f : A → Action W F B}
      → Triple P m Q R
      → ((a : A) → Triple (Q a) (f a) S R)
      → Triple P (m >>= f) S R
  Triple-bind {m} {f} t tf = record { at = λ w p. continue-Post (m w) f (t.at w p) tf }

module _ {W F A : Type 0} {Q Q' : A → W → Type 0} {R R' : F → W → Type 0} where
  pub weaken-Post :
      (o : Outcome W F A)
      → Post Q R o
      → ((a : A) (w : W) → Q a w → Q' a w)
      → ((e : F) (w : W) → R e w → R' e w)
      → Post Q' R' o
  weaken-Post (ok a, w) p q r = q a w p
  weaken-Post (err e, w) p q r = r e w p

  pub Triple-weaken :
      {P P' : W → Type 0} {m : Action W F A}
      → Triple P m Q R
      → ((w : W) → P' w → P w)
      → ((a : A) (w : W) → Q a w → Q' a w)
      → ((e : F) (w : W) → R e w → R' e w)
      → Triple P' m Q' R'
  Triple-weaken {m} t p q r = record { at = λ w h. weaken-Post (m w) (t.at w (p w h)) q r }

-- The rule for a step whose value is known.
pub Triple-bind_value :
    {W F A B : Type 0} {P Q : W → Type 0} {S : B → W → Type 0} {R : F → W → Type 0}
    {m : Action W F A} (f : A → Action W F B) (x : A)
    → Triple P m (λ a w. (a ≡ x) × Q w) R
    → Triple Q (f x) S R
    → Triple P (m >>= f) S R
Triple-bind_value {Q} {S} {R} f x t tf =
    Triple-bind t
      (λ a. record { at = λ w k. (subst (λ y. Triple Q (f y) S R) (sym k.0) tf).at w k.1 })

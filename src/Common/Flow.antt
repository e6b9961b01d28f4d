-- ===== src/Common/Flow.antt =====
-- Go's `(value, error)` results, and methods that change a state and may fail: what was written
-- before an error stays written.
use mathlib.Core.Path.{◌≡◌, refl}
use mathlib.Core.Bool.{Bool, true, false}
use mathlib.Core.Option.{Option, none, some}

pub data Result (E : Type 0) (A : Type 0) : Type 0 where
  ok : A → Result E A
  err : E → Result E A

module _ {E A : Type 0} where
  abbrev pub or_err : Option A → E → Result E A
  or_err none e = err e
  or_err (some a) e = ok a

abbrev pub bind : {E A B : Type 0} → Result E A → (A → Result E B) → Result E B
bind (ok a) f = f a
bind (err e) f = err e

-- the early return `if bad { return err }`
abbrev pub refuse : {E A : Type 0} → Bool → E → Result E A → Result E A
refuse true e k = err e
refuse false e k = k

pub bind-eq-ok :
    {E A B : Type 0} (r : Result E A) (next : A → Result E B) {end : B}
    → bind r next ≡ ok end
    → (value : A) × (r ≡ ok value) × (next value ≡ ok end)
bind-eq-ok (err e) next h = cc
bind-eq-ok (ok value) next h = (value, refl, h)

pub refuse-eq-ok :
    {E A : Type 0} (t : Bool) (e : E) (k : Result E A) {a : A}
    → refuse t e k ≡ ok a
    → (t ≡ false) × (k ≡ ok a)
refuse-eq-ok true e k h = cc
refuse-eq-ok false e k h = (refl, h)

pub or_err-eq-ok : {E A : Type 0} (o : Option A) (e : E) {a : A} → or_err o e ≡ ok a → o ≡ some a
or_err-eq-ok none e h = cc
or_err-eq-ok (some b) e h = cc

pub ok_inj : {E A : Type 0} {a b : A} → ◌≡◌ {A = Result E A} (ok a) (ok b) → a ≡ b
ok_inj h = cc

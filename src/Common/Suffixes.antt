-- ===== src/Common/Suffixes.antt =====
-- strings.HasSuffix.
use Prim.Native.String.{String, [], ◌∷◌}
use mathlib.Core.Bool.{Bool, true, ◌||◌}
use mathlib.Core.Path.{◌≡◌, refl}
use native.Mathlib.Omega.{arith}
use text.Mathlib.TextPositions.{eq_refl}
use text.Mathlib.TextLemmas.{nil-append, cons-append}
use m_waf.Common.Tests.{◌==◌}
use m_waf.Common.Text.{◌⧺◌}

unfoldable pub has_suffix : String → String → Bool
has_suffix [] t = "" == t
has_suffix (c ∷ s) t = (c ∷ s) == t || has_suffix s t

has_suffix_refl : (t : String) → has_suffix t t ≡ true
unfolding has_suffix
has_suffix_refl [] = refl
has_suffix_refl (c ∷ t) = rw (eq_refl (c ∷ t)) refl

pub has_suffix-append : (s t : String) → has_suffix (s ⧺ t) t ≡ true
unfolding has_suffix
has_suffix-append [] t = rw (nil-append t) (has_suffix_refl t)
has_suffix-append (c ∷ s) t = rw (cons-append c s t) (ground (arith, has_suffix-append s t))

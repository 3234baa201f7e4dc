-- ===== src/Base/Text.antt =====
-- Equality tests of texts.
use Prim.Native.String.{String, ◌∷◌}
use Prim.Native.String.compare
use Prim.Native.Char.{Char}
use mathlib.Core.Path.{◌≡◌, sym}
use mathlib.Core.Logic.{◌⊎◌, ◌≢◌, inl, inr}
use mathlib.Core.Bool.{false}
use text.Mathlib.Text.{◌==◌, is_eq}
use text.Mathlib.TextEquality.{eq_iff}
use scia.Base.Tests.{Bool-cases}

pub cons-ne-nil : (c : Char) (s : String) → ((c ∷ s) == "") ≡ false
cons-ne-nil c s = λ i. is_eq (compare.cons-nil c s i)

-- To split on a comparison of texts and keep what it says.
pub Text-cases : (s t : String) → (s ≡ t) ⊎ ((s == t) ≡ false)
Text-cases s t = elim (Bool-cases (s == t)) [ inl e ↦ inl ((eq_iff s t).0 e) | inr e ↦ inr e ]

pub ne_of_test : (s t : String) → (s == t) ≡ false → s ≢ t
ne_of_test s t h e = cc ((eq_iff s t).1 e)

pub test_of_ne : (s t : String) → s ≢ t → (s == t) ≡ false
test_of_ne s t h = elim (Bool-cases (s == t)) [ inl e ↦ absurd (h ((eq_iff s t).0 e)) | inr e ↦ e ]

pub ==_symm : (s t : String) → (s == t) ≡ (t == s)
==_symm s t = elim (Text-cases s t) [
  | inl e ↦ rw e
  | inr e ↦ rw e (sym (test_of_ne t s (λ p. ne_of_test s t e (sym p))))
]

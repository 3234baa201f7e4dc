-- ===== src/Go/PrefixLaws.antt =====
-- Package strings: a text with a prefix is the prefix and what TrimPrefix leaves.
use Prim.Native.String.{[], ◌∷◌, ◌++◌}
use text.Mathlib.TextLemmas.{nil-append, cons-append}
use text.Mathlib.TextEquality.{Char-path}
use scia.Base.{
  ℕ, false, ◌==◌, ◌≢◌, test_of_ne, code, nat_eq, String, true, some, ◌≡◌, refl, sym, ap, ◌∙◌, arith,
  Bool-cases, Option-cases, inl, inr,
}
use scia.Go.Strings.{strip_prefix?, has_prefix, trim_prefix, is_some, some_or}

nat_eq_self : (n : ℕ) → nat_eq n n ≡ true
nat_eq_self n = ground arith

strip_prefix?_sound : (p s rest : String) → strip_prefix? p s ≡ some rest → s ≡ p ++ rest
unfolding strip_prefix?
strip_prefix?_sound [] s rest h = some-eq h ∙ sym (nil-append rest)
  where
    some-eq : {a b : String} → some a ≡ some b → a ≡ b
    some-eq h = cc
strip_prefix?_sound (c ∷ p) [] rest h = cc
strip_prefix?_sound (c ∷ p) (d ∷ s) rest h = elim (Bool-cases (nat_eq (code c) (code d))) [
  | inl e ↦
      let same : c ≡ d = Char-path c d (ground arith) in
      let tail = strip_prefix?_sound p s rest (rw e at h) in
      ap (λ k. k ∷ s) (sym same) ∙ ap (λ t. c ∷ t) tail ∙ sym (cons-append c p rest)
  | inr e ↦ cc
]

pub has_prefix_sound : (s p : String) → has_prefix s p ≡ true → s ≡ p ++ trim_prefix s p
unfolding has_prefix trim_prefix
has_prefix_sound s p h = elim (Option-cases (strip_prefix? p s)) [
  | inl e ↦ absurd (ground arith)
  | inr (rest, e) ↦ strip_prefix?_sound p s rest e ∙ ap (λ o. p ++ some_or o s) (sym e)
]

strip_prefix?_complete : (p rest : String) → strip_prefix? p (p ++ rest) ≡ some rest
unfolding strip_prefix?
strip_prefix?_complete [] rest = ap some (nil-append rest)
strip_prefix?_complete (c ∷ p) rest =
    rw cons-append (rw (nat_eq_self (code c), strip_prefix?_complete p rest) refl)

pub has_prefix_complete : (p rest : String) → has_prefix (p ++ rest) p ≡ true
unfolding has_prefix
has_prefix_complete p rest = ap is_some (strip_prefix?_complete p rest)

pub trim_prefix_complete : (p rest : String) → trim_prefix (p ++ rest) p ≡ rest
unfolding trim_prefix
trim_prefix_complete p rest = ap (λ o. some_or o (p ++ rest)) (strip_prefix?_complete p rest)

-- A text with a prefix is not a text without it.
pub prefixed-ne : (p rest s : String) → has_prefix s p ≡ false → (p ++ rest == s) ≡ false
prefixed-ne p rest s h =
    test_of_ne (p ++ rest) s
      (λ e. true-ne (sym (has_prefix_complete p rest) ∙ ap (λ t. has_prefix t p) e ∙ h))
  where
    true-ne : true ≢ false
    true-ne h = cc

-- ===== src/Go/CutLaws.antt =====
-- strings.Cut finds the first separator, and only that one.
use Prim.Native.String.{[], ◌∷◌, ◌++◌}
use text.Mathlib.TextLemmas.{nil-append, cons-append}
use text.Mathlib.TextEquality.{Char-path}
use scia.Base.{
  ℕ, Char, code, nat_eq, String, ◌≡◌, refl, ap, arith, true, false, Option, some, none, Bool-cases,
  inl, inr,
}
use scia.Go.Strings.{cut, push_before}

-- The character does not occur.
abbrev pub Without : ℕ → String → Type 0
Without k [] = Unit
Without k (c ∷ s) = (nat_eq (code c) k ≡ false) × Without k s

push_before-eq_some :
    (c : Char) (o : Option (String × String)) {a b : String}
    → push_before c o ≡ some (a, b)
    → (a' : String) × (o ≡ some (a', b)) × (a ≡ c ∷ a')
push_before-eq_some c none h = cc
push_before-eq_some c (some (a', b')) h = (a', ground arith, ground arith)

pub cut_sound :
    (k : Char) (s a b : String)
    → cut s (code k) ≡ some (a, b)
    → (s ≡ a ++ (k ∷ b)) × Without (code k) a
unfolding cut
cut_sound k [] a b h = cc
cut_sound k (c ∷ s) a b h = elim (Bool-cases (nat_eq (code c) (code k))) [
  | inl e ↦ first e (rw e at h)
  | inr e ↦ later e (push_before-eq_some c (cut s (code k)) (rw e at h)) (λ a'. cut_sound k s a' b)
]
  where
    first :
        nat_eq (code c) (code k) ≡ true
        → ◌≡◌ {A = Option (String × String)} (some ([], s)) (some (a, b))
        → (c ∷ s ≡ a ++ (k ∷ b)) × Without (code k) a
    first e h =
        let p : c ≡ k = Char-path c k (ground arith) in
        let q : a ≡ [] = ground arith in
        let r : s ≡ b = ground arith in (rw (q, p, r, nil-append) refl, rw q tt)

    later :
        nat_eq (code c) (code k) ≡ false
        → ((a' : String) × (cut s (code k) ≡ some (a', b)) × (a ≡ c ∷ a'))
        → ((a' : String)
            → cut s (code k) ≡ some (a', b)
            → (s ≡ a' ++ (k ∷ b)) × Without (code k) a')
        → (c ∷ s ≡ a ++ (k ∷ b)) × Without (code k) a
    later e (a', h', q) ih =
        let (p, w) = ih a' h' in (rw (q, cons-append) (ap (◌∷◌ c) p), rw q (e, w))

pub cut_complete :
    (k : Char) (a b : String) → Without (code k) a → cut (a ++ (k ∷ b)) (code k) ≡ some (a, b)
unfolding cut
cut_complete k [] b h = rw nil-append (ground arith)
cut_complete k (c ∷ a) b (e, h) = rw cons-append (rw (e, cut_complete k a b h))

pub cut-none : (k : ℕ) (s : String) → Without k s → cut s k ≡ none
unfolding cut
cut-none k [] h = refl
cut-none k (c ∷ s) (e, h) = rw (e, cut-none k s h) refl

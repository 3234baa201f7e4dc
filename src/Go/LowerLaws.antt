-- ===== src/Go/LowerLaws.antt =====
-- Lower case twice is lower case once.
use Prim.Native.String.{[], ◌∷◌}
use scia.Base.{
  ℕ, zero, suc, ◌-◌, ◌<◌, Char, code, String, false, ◌≡◌, refl, arith, Bool-cases, inl, inr,
}
use scia.Go.Strings.{is_upper, lower, to_lower, nth}

abbrev NoUpper : String → Type 0
NoUpper [] = Unit
NoUpper (c ∷ s) = (is_upper c ≡ false) × NoUpper s

abbrev size : String → ℕ
size [] = 0
size (c ∷ s) = suc (size s)

nth-NoUpper :
    (s : String) (k : ℕ) (d : Char) → NoUpper s → k < size s → is_upper (nth s k d) ≡ false
nth-NoUpper [] k d h l = absurd (omega arith)
nth-NoUpper (c ∷ s) zero d h l = h.0
nth-NoUpper (c ∷ s) (suc k) d h l = nth-NoUpper s k d h.1 (omega arith)

not-upper : (c : Char) → is_upper (lower c) ≡ false
unfolding lower
not-upper c = elim (Bool-cases (is_upper c)) [
  | inl e ↦
      rw e (nth-NoUpper "abcdefghijklmnopqrstuvwxyz" (code c - b'A') c alphabet (ground arith))
  | inr e ↦ rw e e
]
  where
    alphabet : NoUpper "abcdefghijklmnopqrstuvwxyz"
    alphabet = (
      refl,
      (
        refl,
        (
          refl,
          (
            refl,
            (
              refl,
              (
                refl,
                (
                  refl,
                  (
                    refl,
                    (
                      refl,
                      (
                        refl,
                        (
                          refl,
                          (
                            refl,
                            (
                              refl,
                              (
                                refl,
                                (
                                  refl,
                                  (
                                    refl,
                                    (
                                      refl,
                                      (
                                        refl,
                                        (
                                          refl,
                                          (
                                            refl,
                                            (refl, (refl, (refl, (refl, (refl, (refl, tt)))))),
                                          ),
                                        ),
                                      ),
                                    ),
                                  ),
                                ),
                              ),
                            ),
                          ),
                        ),
                      ),
                    ),
                  ),
                ),
              ),
            ),
          ),
        ),
      ),
    )

lower_idem : (c : Char) → lower (lower c) ≡ lower c
unfolding lower
lower_idem c = fixed (lower c) (not-upper c)
  where
    fixed : (d : Char) → is_upper d ≡ false → lower d ≡ d
    fixed d h = rw h refl

pub to_lower_idem : (s : String) → to_lower (to_lower s) ≡ to_lower s
unfolding to_lower
to_lower_idem [] = refl
to_lower_idem (c ∷ s) = λ i. lower_idem c i ∷ to_lower_idem s i

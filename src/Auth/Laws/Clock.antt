-- ===== src/Auth/Laws/Clock.antt =====
-- internal/auth/credential.go: the lifetimes of tokens.
use scia.Base.{
  ℕ, suc, ◌*◌, ◌%◌, ◌-◌, ◌<◌, ◌≤◌, ◌≡◌, refl, if-cases, ℤ, pos, negsuc, ltb, ltb→lt, arith,
  if◌then◌else◌, zero, subst, ◌∙◌, lt→ltb, ap, pos_part,
}
use scia.Auth.Clock.{
  second, hour, int64_count, int64_half, int64_of, seconds, positive_or_hour, lifetime,
}

positive_or_hour-bounds :
    (d : ℤ)
    → ((n : ℕ) → d ≡ pos n → n < int64_half)
    → (n : ℕ) × (positive_or_hour d ≡ pos n) × (0 < n) × (n < int64_half)
positive_or_hour-bounds (pos zero) h = (hour, refl, omega arith, omega arith)
positive_or_hour-bounds (pos (suc n)) h = (suc n, refl, omega arith, h (suc n) refl)
positive_or_hour-bounds (negsuc n) h = (hour, refl, omega arith, omega arith)

int64_of-bounds : (r n : ℕ) → int64_of r ≡ pos n → n < int64_half
int64_of-bounds r =
    if-cases (λ d. (n : ℕ) → d ≡ pos n → n < int64_half) (ltb r int64_half) _ _
      (λ t n e. subst (λ m. m < int64_half) (ap pos_part e) (ltb→lt r int64_half t))
      (λ t n e. absurd (negsuc-ne e))
  where
    negsuc-ne : {m n : ℕ} → ¬ (negsuc m ≡ pos n)
    negsuc-ne e = cc

int64_of-small : (r : ℕ) → 0 < r → r < int64_half → positive_or_hour (int64_of r) ≡ pos r
int64_of-small zero p q = elim p [ ]
int64_of-small (suc r) p q =
    ap (λ b. positive_or_hour (if b then pos (suc r) else negsuc (int64_count - 1 - suc r)))
      (lt→ltb (suc r) int64_half q)

residue : (n : ℕ) → n ≤ 9223372036 → n * second % int64_count ≡ n * second
residue n h = omega arith

-- The lifetime that a token is cached for is positive and a 64-bit integer, whatever the token
-- endpoint answers as `expires_in`, and it is that many seconds where they are between 1 and
-- 9223372036, the most that a duration can hold.
pub lifetime-bounds :
    (expires_in : ℤ)
    → ((n : ℕ) × (lifetime expires_in ≡ pos n) × (0 < n) × (n < int64_half))
      × ((n : ℕ)
          → expires_in ≡ pos n
          → 0 < n
          → n ≤ 9223372036
          → lifetime expires_in ≡ pos (n * second))
unfolding lifetime seconds
lifetime-bounds (pos n) = (
  positive_or_hour-bounds (int64_of (n * second % int64_count))
      (int64_of-bounds (n * second % int64_count)),
  λ m e p q.
      ap lifetime e
      ∙ ap (λ r. positive_or_hour (int64_of r)) (residue m q)
      ∙ int64_of-small (m * second) (omega (arith, p)) (omega (arith, q)),
)
lifetime-bounds (negsuc n) =
    let r = (int64_count - suc n * second % int64_count) % int64_count in
    (positive_or_hour-bounds (int64_of r) (int64_of-bounds r), λ m e p q. cc)

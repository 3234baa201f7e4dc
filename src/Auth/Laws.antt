-- ===== src/Auth/Laws.antt =====
-- internal/auth/credential.go: what holds of the injector's operations. A property of an operation is a
-- triple of a predicate on states, which it keeps, and a predicate on the value that it returns.
pub mod Clock
pub mod Rotation
pub mod Cache
pub mod Kept
pub mod Tokens
pub mod Rotating
pub mod Apply
pub mod Errors
pub mod Place
pub mod Hosts
use scia.Base.{Result, ok, err, Error, Bool, true, false, if◌then◌else◌, if-cases, ◌≡◌, refl}
use scia.Auth.Monad.{Op, lift, return, ◌>>=◌, ◌>>◌}
use scia.Secrets.Store.{after}

abbrev pub Post : {S A : Type 0} → (S → Type 0) → (A → Type 0) → S × Result A → Type 0
Post P Q (s, ok a) = P s × Q a
Post P Q (s, err e) = P s

unfoldable pub Keeps : {S A : Type 0} → (S → Type 0) → (A → Type 0) → Op S A → Type 0
Keeps {S} P Q m = (s : S) → P s → Post P Q (m s)

-- No claim on the value.
abbrev pub Anything : {A : Type 0} → A → Type 0
Anything a = Unit

pub Keeps-Anything : {S A : Type 0} (m : Op S A) → Keeps {S = S} Anything Anything m
unfolding Keeps
Keeps-Anything {S} {A} m s p = of (m s)
  where
    of : (x : S × Result A) → Post {S = S} Anything Anything x
    of (t, ok a) = (tt, tt)
    of (t, err e) = tt

module _ {S : Type 0} (P : S → Type 0) where
  pub Post-after :
      {A B : Type 0} (Q : A → Type 0) (R : B → Type 0) (x : S × Result A) (k : A → Op S B)
      → Post P Q x
      → ((a : A) → Q a → Keeps P R (k a))
      → Post P R (after k x)
  unfolding Keeps
  Post-after Q R (s, ok a) k (p, q) h = h a q s p
  Post-after Q R (s, err e) k p h = p

  pub Post-state : {A : Type 0} (Q : A → Type 0) (x : S × Result A) → Post P Q x → P x.0
  Post-state Q (s, ok a) (p, q) = p
  Post-state Q (s, err e) p = p

  pub Keeps-bind :
      {A B : Type 0} (Q : A → Type 0) (R : B → Type 0) (m : Op S A) (k : A → Op S B)
      → Keeps P Q m
      → ((a : A) → Q a → Keeps P R (k a))
      → Keeps P R (m >>= k)
  unfolding Keeps ◌>>=◌
  Keeps-bind Q R m k h next s p = Post-after Q R (m s) k (h s p) next

  pub Keeps-return : {A : Type 0} (Q : A → Type 0) (a : A) → Q a → Keeps P Q (return a)
  unfolding Keeps return
  Keeps-return Q a q s p = (p, q)

  pub Keeps-lift :
      {A : Type 0} (Q : A → Type 0) (r : Result A) → ((a : A) → r ≡ ok a → Q a) → Keeps P Q (lift r)
  unfolding Keeps lift
  Keeps-lift Q (ok a) h s p = (p, h a refl)
  Keeps-lift Q (err e) h s p = p

  pub Keeps-fail : {A : Type 0} (Q : A → Type 0) (e : Error) → Keeps P Q (lift (err e))
  unfolding Keeps lift
  Keeps-fail Q e s p = p

  -- Without the claim on the value.
  pub Keeps-weaken : {A : Type 0} (Q : A → Type 0) (m : Op S A) → Keeps P Q m → Keeps P Anything m
  unfolding Keeps
  Keeps-weaken {A} Q m h s p = weaken (m s) (h s p)
    where
      weaken : (x : S × Result A) → Post P Q x → Post P Anything x
      weaken (s, ok a) (p, q) = (p, tt)
      weaken (s, err e) p = p

  pub Keeps-if :
      {A : Type 0} (Q : A → Type 0) (b : Bool) (m m' : Op S A)
      → (b ≡ true → Keeps P Q m)
      → (b ≡ false → Keeps P Q m')
      → Keeps P Q (if b then m else m')
  unfolding Keeps
  Keeps-if Q b m m' h k = if-cases (Keeps P Q) b m m' h k

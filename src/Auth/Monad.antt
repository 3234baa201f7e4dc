-- ===== src/Auth/Monad.antt =====
-- internal/auth/credential.go: the chains of calls that may fail, `if err != nil { return err }`.
use scia.Base.{Result, ok}
use scia.Secrets.Store.{after}
pub use scia.Secrets.Store.{Op}

infixl 5 ◌>>=◌ ◌>>◌
unfoldable pub ◌>>=◌ : {S A B : Type 0} → Op S A → (A → Op S B) → Op S B
(m >>= k) s = after k (m s)

abbrev pub ◌>>◌ : {S B : Type 0} → Op S (Unit {0}) → Op S B → Op S B
m >> k = m >>= λ _. k

unfoldable pub return : {S A : Type 0} → A → Op S A
return a s = (s, ok a)

unfoldable pub lift : {S A : Type 0} → Result A → Op S A
lift r s = (s, r)

-- ===== src/Secrets/Store.antt =====
-- internal/secrets/store.go: what a store of secrets offers. An operation takes the state of the
-- world behind the store and returns the next one with a value or an error.
use scia.Base.{String, Option, none, Result, ok, err}

abbrev pub Op : Type 0 → Type 0 → Type 0
Op S A = S → S × Result A

infixl 5 ◌>>=◌ ◌>>◌
abbrev pub after : {S A B : Type 0} → (A → Op S B) → S × Result A → S × Result B
after f (s, ok a) = f a s
after f (s, err e) = (s, err e)

abbrev pub ◌>>=◌ : {S A B : Type 0} → Op S A → (A → Op S B) → Op S B
(m >>= f) s = after f (m s)

abbrev pub ◌>>◌ : {S B : Type 0} → Op S (Unit {0}) → Op S B → Op S B
m >> k = m >>= λ _. k

abbrev pub return : {S A : Type 0} → A → Op S A
return a s = (s, ok a)

-- A result that does not depend on the state.
abbrev pub lift : {S A : Type 0} → Result A → Op S A
lift r s = (s, r)

-- Store, whose Close only releases what the store holds.
pub record Store (S : Type 0) : Type 0 where
  pub get : String → String → Op S (Option String)
  pub put : String → String → String → Op S (Unit {0})
  pub delete : String → String → Op S (Unit {0})

-- NoopStore
abbrev pub noop_store : {S : Type 0} → Store S
noop_store = record {
  get = λ credential_id key. return none;
  put = λ credential_id key value. return tt;
  delete = λ credential_id key. return tt;
}

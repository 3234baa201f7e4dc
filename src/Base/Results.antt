-- ===== src/Base/Results.antt =====
-- Go's `(T, error)`: a value or an error, with `do` blocks for the chains of `if err != nil`.
use Prim.Native.Nat.{ℕ, suc}
use Prim.Native.String.{String}
use mathlib.Core.Path.{◌≡◌, refl, subst}
use mathlib.Core.Bool.{Bool, true, false}
use mathlib.Core.List.{List, [], ◌∷◌}
use scia.Base.Lists.{All, is_empty}

-- An argument of `fmt.Errorf`.
pub data Arg : Type 0 where
  str : String → Arg
  int : ℕ → Arg

-- `fmt.Errorf(format, args...)`, before it is rendered.
pub record Error : Type 0 where
  pub format : String
  pub args : List Arg

abbrev pub errorf : String → List Arg → Error
errorf f a = record { format = f; args = a }

pub data Result {ℓ} (A : Type ℓ) : Type ℓ where
  ok : A → Result A
  err : Error → Result A

infixl 5 ◌>>=◌ ◌>>◌
abbrev pub ◌>>=◌ {ℓ κ} :
    {From : Type ℓ} {To : Type κ} → Result From → (From → Result To) → Result To
err failure >>= next = err failure
ok value >>= next = next value

abbrev pub ◌>>◌ {ℓ} : {To : Type ℓ} → Result (Unit {0}) → Result To → Result To
check >> rest = check >>= λ done. rest

-- `if !test { return err }`
abbrev pub guard : Bool → Error → Result (Unit {0})
guard true e = ok tt
guard false e = err e

-- `if test { return err }`
abbrev pub refuse : Bool → Error → Result (Unit {0})
refuse true e = err e
refuse false e = ok tt

pub >>=-eq-ok {ℓ κ} :
    {From : Type ℓ} {To : Type κ} (r : Result From) (next : From → Result To) {end : To}
    → (r >>= next) ≡ ok end
    → (value : From) × (r ≡ ok value) × (next value ≡ ok end)
>>=-eq-ok (err failure) next h = cc
>>=-eq-ok (ok value) next h = (value, refl, h)

pub >>-eq-ok {ℓ} :
    {B : Type ℓ} (m : Result (Unit {0})) (k : Result B) {b : B}
    → (m >> k) ≡ ok b
    → (m ≡ ok tt) × (k ≡ ok b)
>>-eq-ok (ok a) k h = (refl, h)
>>-eq-ok (err e) k h = cc

pub ok-injective {ℓ} : {A : Type ℓ} {a b : A} → ok a ≡ ok b → a ≡ b
ok-injective h = cc

pub err-ne-ok {ℓ} : {A : Type ℓ} {a : A} (e : Error) → ¬ (err e ≡ ok a)
err-ne-ok e h = cc

pub guard-eq-ok : (b : Bool) (e : Error) → guard b e ≡ ok tt → b ≡ true
guard-eq-ok true e h = refl
guard-eq-ok false e h = cc

pub refuse-eq-ok : (b : Bool) (e : Error) → refuse b e ≡ ok tt → b ≡ false
refuse-eq-ok true e h = cc
refuse-eq-ok false e h = refl

-- A loop that runs a check on each element and stops at the first error.
abbrev pub for_each {ℓ} : {A : Type ℓ} → (A → Result (Unit {0})) → List A → Result (Unit {0})
for_each f [] = ok tt
for_each f (x ∷ xs) = f x >> for_each f xs

-- A loop that rewrites each element and stops at the first error.
abbrev pub traverse {ℓ κ} : {A : Type ℓ} {B : Type κ} → (A → Result B) → List A → Result (List B)
traverse f [] = ok []
traverse f (x ∷ xs) = f x >>= λ y. traverse f xs >>= λ ys. ok (y ∷ ys)

-- The same, with the loop's index from `i` on.
abbrev pub for_each_from {ℓ} :
    {A : Type ℓ} → (ℕ → A → Result (Unit {0})) → ℕ → List A → Result (Unit {0})
for_each_from f i [] = ok tt
for_each_from f i (x ∷ xs) = f i x >> for_each_from f (suc i) xs

abbrev pub traverse_from {ℓ κ} :
    {A : Type ℓ} {B : Type κ} → (ℕ → A → Result B) → ℕ → List A → Result (List B)
traverse_from f i [] = ok []
traverse_from f i (x ∷ xs) = f i x >>= λ y. traverse_from f (suc i) xs >>= λ ys. ok (y ∷ ys)

-- A loop that succeeded has made its check on every element.
pub for_each_sound {ℓ κ} :
    {A : Type ℓ} (f : A → Result (Unit {0})) (P : A → Type κ) (xs : List A)
    → ((a : A) → f a ≡ ok tt → P a)
    → for_each f xs ≡ ok tt
    → All P xs
for_each_sound f P [] k h = tt
for_each_sound f P (x ∷ xs) k h =
    let (here, later) = >>-eq-ok (f x) (for_each f xs) h in
    (k x here, for_each_sound f P xs k later)

pub for_each_from_sound {ℓ κ} :
    {A : Type ℓ} (f : ℕ → A → Result (Unit {0})) (P : A → Type κ) (i : ℕ) (xs : List A)
    → ((j : ℕ) (a : A) → f j a ≡ ok tt → P a)
    → for_each_from f i xs ≡ ok tt
    → All P xs
for_each_from_sound f P i [] k h = tt
for_each_from_sound f P i (x ∷ xs) k h =
    let (here, later) = >>-eq-ok (f i x) (for_each_from f (suc i) xs) h in
    (k i x here, for_each_from_sound f P (suc i) xs k later)

pub traverse_from_sound {ℓ κ μ} :
    {A : Type ℓ} {B : Type κ} (f : ℕ → A → Result B) (P : B → Type μ) (i : ℕ) (xs : List A)
    {ys : List B}
    → ((j : ℕ) (a : A) (b : B) → f j a ≡ ok b → P b)
    → traverse_from f i xs ≡ ok ys
    → All P ys
traverse_from_sound f P i [] {ys} k h = subst (All P) (ok-injective h) tt
traverse_from_sound f P i (x ∷ xs) {ys} k h =
    let (y, here, h₁) = >>=-eq-ok (f i x) _ h in
    let (zs, later, h₂) = >>=-eq-ok (traverse_from f (suc i) xs) _ h₁ in
    subst (All P) (ok-injective h₂) (k i x y here, traverse_from_sound f P (suc i) xs k later)

pub traverse_from-ne {ℓ κ} :
    {A : Type ℓ} {B : Type κ} (f : ℕ → A → Result B) (i : ℕ) (xs : List A) {ys : List B}
    → is_empty xs ≡ false
    → traverse_from f i xs ≡ ok ys
    → is_empty ys ≡ false
traverse_from-ne f i [] e h = cc
traverse_from-ne f i (x ∷ xs) e h =
    let (y, _, h₁) = >>=-eq-ok (f i x) _ h in
    let (zs, _, h₂) = >>=-eq-ok (traverse_from f (suc i) xs) _ h₁ in
    subst (λ l. is_empty l ≡ false) (ok-injective h₂) refl

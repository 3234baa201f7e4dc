-- ===== src/Base/Lists.antt =====
-- Lists measured by native numbers, predicates over lists, and maps as association lists.
use Prim.Native.Nat.{ℕ, suc, ◌+◌}
use Prim.Native.String.{String}
use mathlib.Core.Path.{◌≡◌, refl, subst}
use mathlib.Core.Logic.{◌⊎◌, ◌≢◌, inl, inr}
use mathlib.Core.Bool.{Bool, true, false, ◌||◌}
use mathlib.Core.Option.{Option, none, some}
use mathlib.Core.List.{List, [], ◌∷◌, ◌++◌}
use native.Mathlib.Omega.{arith}
use text.Mathlib.Text.{◌==◌}
use text.Mathlib.TextEquality.{eq_iff}
use scia.Base.Tests.{if◌then◌else◌, Bool-cases}

module _ {ℓ} {A : Type ℓ} where
  abbrev pub length : List A → ℕ
  length [] = 0
  length (x ∷ xs) = suc (length xs)

  abbrev pub is_empty : List A → Bool
  is_empty [] = true
  is_empty (x ∷ xs) = false

  abbrev pub any : (A → Bool) → List A → Bool
  any p [] = false
  any p (x ∷ xs) = p x || any p xs

  pub is_empty_of_ne : (xs : List A) → xs ≢ [] → is_empty xs ≡ false
  is_empty_of_ne [] h = absurd (h refl)
  is_empty_of_ne (x ∷ xs) h = refl

  pub ne_of_is_empty : (xs : List A) → is_empty xs ≡ false → xs ≢ []
  ne_of_is_empty [] h e = cc
  ne_of_is_empty (x ∷ xs) h e = cc

  pub length-append : (xs ys : List A) → length (xs ++ ys) ≡ length xs + length ys
  length-append [] ys = omega arith
  length-append (x ∷ xs) ys = omega (arith, length-append xs ys)

module _ {ℓ κ} {A : Type ℓ} where
  abbrev pub All : (A → Type κ) → List A → Type κ
  All P [] = Unit
  All P (x ∷ xs) = P x × All P xs

  pub All-append : (P : A → Type κ) (xs ys : List A) → All P xs → All P ys → All P (xs ++ ys)
  All-append P [] ys h k = k
  All-append P (x ∷ xs) ys (p, h) k = (p, All-append P xs ys h k)

  pub All_imp : (P Q : A → Type κ) (xs : List A) → ((a : A) → P a → Q a) → All P xs → All Q xs
  All_imp P Q [] f h = tt
  All_imp P Q (x ∷ xs) f (p, h) = (f x p, All_imp P Q xs f h)

module _ {ℓ} {A : Type ℓ} where
  -- Some element has the property; the proof keeps its place.
  abbrev pub Any : (A → Type 0) → List A → Type 0
  Any P [] = ⊥
  Any P (x ∷ xs) = P x ⊎ Any P xs

  pub Any-append_left : (P : A → Type 0) (xs ys : List A) → Any P xs → Any P (xs ++ ys)
  Any-append_left P [] ys h = elim h [ ]
  Any-append_left P (x ∷ xs) ys (inl p) = inl p
  Any-append_left P (x ∷ xs) ys (inr h) = inr (Any-append_left P xs ys h)

  pub Any-append_right : (P : A → Type 0) (xs ys : List A) → Any P ys → Any P (xs ++ ys)
  Any-append_right P [] ys h = h
  Any-append_right P (x ∷ xs) ys h = inr (Any-append_right P xs ys h)

-- What holds of all elements holds of one.
pub All-at :
    {A : Type 0} (P : A → Type 0) (xs : List A) (a : A) → All P xs → Any (λ x. x ≡ a) xs → P a
All-at P [] a h m = elim m [ ]
All-at P (x ∷ xs) a (p, h) (inl e) = subst P e p
All-at P (x ∷ xs) a (p, h) (inr m) = All-at P xs a h m

abbrev pub Elem : String → List String → Type 0
Elem a = Any (λ x. x ≡ a)

-- `contains` is the test of a set kept as a list, such as the source's `seen` maps.
abbrev pub contains : List String → String → Bool
contains [] a = false
contains (x ∷ xs) a = x == a || contains xs a

pub Elem-of_contains : (xs : List String) (a : String) → contains xs a ≡ true → Elem a xs
Elem-of_contains [] a h = cc
Elem-of_contains (x ∷ xs) a h = elim (Bool-cases (x == a)) [
  | inl e ↦ inl ((eq_iff x a).0 e)
  | inr e ↦ inr (Elem-of_contains xs a (ground arith))
]

pub contains_of_Elem : (xs : List String) (a : String) → Elem a xs → contains xs a ≡ true
contains_of_Elem [] a h = elim h [ ]
contains_of_Elem (x ∷ xs) a (inl e) = rw ((eq_iff x a).1 e)
contains_of_Elem (x ∷ xs) a (inr h) = ground (arith, contains_of_Elem xs a h)

pub not-Elem_of_contains : (xs : List String) (a : String) → contains xs a ≡ false → ¬ Elem a xs
not-Elem_of_contains xs a h m = cc (contains_of_Elem xs a m)

-- No two elements are equal.
abbrev pub Distinct : List String → Type 0
Distinct [] = Unit
Distinct (x ∷ xs) = (¬ Elem x xs) × Distinct xs

module _ {ℓ} {V : Type ℓ} where
  -- A Go map in the order in which a `range` over it goes.
  abbrev pub lookup : String → List (String × V) → Option V
  lookup key [] = none
  lookup key ((other, value) ∷ rest) = if other == key then some value else lookup key rest

  abbrev pub keys : List (String × V) → List String
  keys [] = []
  keys ((key, value) ∷ rest) = key ∷ keys rest

  -- m[k] = v
  abbrev pub insert : String → V → List (String × V) → List (String × V)
  insert key new [] = (key, new) ∷ []
  insert key new ((other, value) ∷ rest) =
      if other == key then (key, new) ∷ rest else (other, value) ∷ insert key new rest

  -- delete(m, k)
  abbrev pub erase : String → List (String × V) → List (String × V)
  erase key [] = []
  erase key ((other, value) ∷ rest) =
      if other == key then erase key rest else (other, value) ∷ erase key rest

  -- A read behind a write.
  pub lookup-insert :
      (key at : String) (new : V) (rest : List (String × V))
      → lookup at (insert key new rest) ≡ (if key == at then some new else lookup at rest)
  lookup-insert key at new [] = refl
  lookup-insert key at new ((i, w) ∷ rest) =
      ground (arith, eq_iff key at, eq_iff i key, eq_iff i at, lookup-insert key at new rest)

  -- A read behind a removal.
  pub lookup-erase :
      (key at : String) (rest : List (String × V))
      → lookup at (erase key rest) ≡ (if key == at then none else lookup at rest)
  lookup-erase key at [] = ground arith
  lookup-erase key at ((i, w) ∷ rest) =
      ground (arith, eq_iff key at, eq_iff i key, eq_iff i at, lookup-erase key at rest)

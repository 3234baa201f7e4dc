-- ===== src/Config/Names/Laws.antt =====
-- The checks of names against the shape that Kubernetes asks for (RFC 1123).
use Prim.Native.Char.{len_utf8, len_utf8_def, width}
use Prim.Native.Nat.{compare}
use Prim.Native.String.len
use Prim.Native.String.{[], ◌∷◌, ◌++◌, len}
use text.Mathlib.TextLemmas.{nil-append, cons-append}
use scia.Base.{
  sym, ℕ, suc, ◌+◌, ◌≤◌, ◌<◌, code, Char, String, Bool, true, ◌||◌, ◌≡◌, ◌↔◌, arith, ◌∙◌,
  cons-ne-nil,
}
use scia.Config.Names.{
  is_alnum, is_hyphen, dynamic_user_loop, valid_dynamic_user_id, prefix_loop,
  valid_secret_name_prefix,
}

-- Every character is a lower case letter, a digit or a hyphen.
abbrev pub NameChars : String → Type 0
NameChars [] = Unit
NameChars (c ∷ s) = ((is_alnum (code c) || is_hyphen (code c)) ≡ true) × NameChars s

abbrev pub StartsAlnum : String → Type 0
StartsAlnum [] = ⊥
StartsAlnum (c ∷ s) = is_alnum (code c) ≡ true

abbrev pub EndsAlnum : String → Type 0
EndsAlnum [] = ⊥
EndsAlnum (c ∷ []) = is_alnum (code c) ≡ true
EndsAlnum (c ∷ (d ∷ s)) = EndsAlnum (d ∷ s)

-- A name of at most `n` bytes.
pub record IsDnsName (n : ℕ) (s : String) : Type 0 where
  pub chars : NameChars s
  pub first : StartsAlnum s
  pub last : EndsAlnum s
  pub short : len s ≤ n

abbrev allowed : Char → Bool
allowed c = is_alnum (code c) || is_hyphen (code c)

width_small : (n : ℕ) → n < 128 → width (compare n 128) (compare n 2048) (compare n 65536) ≡ 1
width_small n h = ground arith

len_utf8-allowed : (c : Char) → allowed c ≡ true → len_utf8 c ≡ 1
len_utf8-allowed c h = (λ i. len_utf8_def c i) ∙ width_small (code c) (ground arith)

len-cons : (c : Char) (s : String) → allowed c ≡ true → len (c ∷ s) ≡ suc (len s)
len-cons c s h = (λ i. len.cons c s i) ∙ omega (arith, len_utf8-allowed c h)

loop-NameChars : (n i : ℕ) (s : String) → dynamic_user_loop n i s ≡ true → NameChars s
unfolding dynamic_user_loop
loop-NameChars n i [] h = tt
loop-NameChars n i (c ∷ s) h = (ground arith, loop-NameChars n (i + 1) s (ground arith))

loop-StartsAlnum :
    (n : ℕ) (c : Char) (s : String) → dynamic_user_loop n 0 (c ∷ s) ≡ true → StartsAlnum (c ∷ s)
unfolding dynamic_user_loop
loop-StartsAlnum n c s h = ground arith

loop-EndsAlnum :
    (n i : ℕ) (c : Char) (s : String)
    → i + suc (len s) ≡ n
    → dynamic_user_loop n i (c ∷ s) ≡ true
    → EndsAlnum (c ∷ s)
unfolding dynamic_user_loop
loop-EndsAlnum n i c [] e h = ground arith
loop-EndsAlnum n i c (d ∷ s) e h =
    loop-EndsAlnum n (i + 1) d s (omega (arith, len-cons d s (ground arith))) (ground arith)

loop_complete :
    (n i : ℕ) (c : Char) (s : String)
    → i + suc (len s) ≡ n
    → NameChars (c ∷ s)
    → (i ≡ 0 → StartsAlnum (c ∷ s))
    → EndsAlnum (c ∷ s)
    → dynamic_user_loop n i (c ∷ s) ≡ true
unfolding dynamic_user_loop
loop_complete n i c [] e h k l = ground arith
loop_complete n i c (d ∷ s) e (h, hs) k l =
    let e' : i + 1 + suc (len s) ≡ n = omega (arith, len-cons d s hs.0) in
    ground (arith, loop_complete n (i + 1) d s e' hs (λ z. absurd (omega arith)) l)

-- A user id is accepted exactly when it is a DNS label: 1 to 63 bytes of lower case letters, digits
-- and hyphens, with no hyphen at either end.
pub valid_dynamic_user_id_iff : (s : String) → (valid_dynamic_user_id s ≡ true) ↔ IsDnsName 63 s
unfolding valid_dynamic_user_id
valid_dynamic_user_id_iff [] = (λ h. cc, λ h. absurd h.first)
valid_dynamic_user_id_iff (c ∷ s) = (
  λ h.
      let run : dynamic_user_loop (len (c ∷ s)) 0 (c ∷ s) ≡ true = ground arith in
      let chars = loop-NameChars (len (c ∷ s)) 0 (c ∷ s) run in
      record {
        chars = chars;
        first = loop-StartsAlnum (len (c ∷ s)) c s run;
        last = loop-EndsAlnum (len (c ∷ s)) 0 c s (omega (arith, len-cons c s chars.0)) run;
        short = ground arith;
      },
  λ h.
      let e : 0 + suc (len s) ≡ len (c ∷ s) = omega (arith, len-cons c s h.chars.0) in
      ground (
        arith,
        cons-ne-nil c s,
        loop_complete (len (c ∷ s)) 0 c s e h.chars (λ _. h.first) h.last,
        h.short,
      ),
)

prefix_loop-NameChars : (i : ℕ) (s : String) → prefix_loop i s ≡ true → NameChars s
unfolding prefix_loop
prefix_loop-NameChars i [] h = tt
prefix_loop-NameChars i (c ∷ s) h = (ground arith, prefix_loop-NameChars (i + 1) s (ground arith))

prefix_loop-StartsAlnum :
    (c : Char) (s : String) → prefix_loop 0 (c ∷ s) ≡ true → StartsAlnum (c ∷ s)
unfolding prefix_loop
prefix_loop-StartsAlnum c s h = ground arith

-- What an accepted prefix of secret names is.
pub valid_secret_name_prefix_sound :
    (s : String) → valid_secret_name_prefix s ≡ true → NameChars s × StartsAlnum s × (len s < 253)
unfolding valid_secret_name_prefix
valid_secret_name_prefix_sound [] h = cc
valid_secret_name_prefix_sound (c ∷ s) h = (
  prefix_loop-NameChars 0 (c ∷ s) (ground arith),
  prefix_loop-StartsAlnum c s (ground arith),
  ground arith,
)

NameChars-append : (s t : String) → NameChars s → NameChars t → NameChars (s ++ t)
NameChars-append [] t h k = rw nil-append k
NameChars-append (c ∷ s) t (p, h) k = rw cons-append (p, NameChars-append s t h k)

EndsAlnum-append : (s t : String) → EndsAlnum t → EndsAlnum (s ++ t)
EndsAlnum-append [] t k = rw nil-append k
EndsAlnum-append (c ∷ []) [] k = elim k [ ]
EndsAlnum-append (c ∷ []) (d ∷ t) k = rw (cons-append, nil-append) k
EndsAlnum-append (c ∷ (d ∷ s)) t k =
    rw (cons-append, cons-append) (rw cons-append at (EndsAlnum-append (d ∷ s) t k))

StartsAlnum-append : (s t : String) → StartsAlnum s → StartsAlnum (s ++ t)
StartsAlnum-append [] t k = elim k [ ]
StartsAlnum-append (c ∷ s) t k = rw cons-append k

-- A valid prefix in front of a label is a name, if it is short enough.
pub append-IsDnsName :
    (n : ℕ) (s t : String)
    → valid_secret_name_prefix s ≡ true
    → IsDnsName 63 t
    → len (s ++ t) ≤ n
    → IsDnsName n (s ++ t)
append-IsDnsName n s t h k l =
    let (chars, first, _) = valid_secret_name_prefix_sound s h in
    record {
      chars = NameChars-append s t chars k.chars;
      first = StartsAlnum-append s t first;
      last = EndsAlnum-append s t k.last;
      short = l;
    }

pub append-cancel : (s t u : String) → s ++ t ≡ s ++ u → t ≡ u
append-cancel [] t u h = sym (λ i. nil-append t i) ∙ h ∙ (λ i. nil-append u i)
append-cancel (c ∷ s) t u h =
    append-cancel s t u (
      tail-eq c (s ++ t) (s ++ u) (sym (λ i. cons-append c s t i) ∙ h ∙ (λ i. cons-append c s u i)))
  where
    tail-eq : (c : Char) (a b : String) → c ∷ a ≡ c ∷ b → a ≡ b
    tail-eq c a b h = cc

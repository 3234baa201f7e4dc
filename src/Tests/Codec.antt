-- ===== src/Tests/Codec.antt =====
-- A codec for the states of logins: an escape without dots and semicolons in place of base64, and fields
-- that end in a semicolon in place of JSON.
use Prim.Native.String.{[], ◌∷◌, ◌++◌}
use text.Mathlib.TextLemmas.{nil-append, cons-append}
use text.Mathlib.TextEquality.{Char-path}
use scia.Base.{
  subst, ℕ, zero, suc, Char, code, String, Bool, true, false, Option, none, some, ◌≡◌, refl, sym,
  ap, ◌∙◌, nat_eq, if◌then◌else◌, if-cases, ℤ, pos, negsuc, arith, Bool-cases, inl, inr,
}
use scia.Go.{cut}
use scia.Go.CutLaws.{Without, cut_complete}
use scia.Oauth.Types.{SignedStatePayload}

abbrev dash : Char
dash = "-"

-- The letter that stands for a character behind a dash.
abbrev letter : Char → Char
letter c = if nat_eq (code c) b'.' then "d" else if nat_eq (code c) b';' then "s" else c

abbrev of_letter : Char → Char
of_letter c = if nat_eq (code c) b'd' then "." else if nat_eq (code c) b's' then ";" else c

abbrev is_special : Char → Bool
is_special c =
    if nat_eq (code c) b'.'
    then true
    else if nat_eq (code c) b';'
    then true
    else nat_eq (code c) b'-'

unfoldable pub escape : String → String
escape [] = []
escape (c ∷ s) = let rest = escape s in if is_special c then dash ∷ letter c ∷ rest else c ∷ rest

abbrev push : Char → Option String → Option String
push c none = none
push c (some s) = some (c ∷ s)

abbrev unescape_from : Bool → String → Option String
unescape_from true [] = none
unescape_from false [] = some []
unescape_from true (c ∷ s) = push (of_letter c) (unescape_from false s)
unescape_from false (c ∷ s) =
    let plain = push c (unescape_from false s) in
    let special = unescape_from true s in if nat_eq (code c) b'-' then special else plain

unfoldable pub unescape : String → Option String
unescape s = unescape_from false s

not_special :
    (c : Char)
    → is_special c ≡ false
    → (nat_eq (code c) b'.' ≡ false)
      × (nat_eq (code c) b';' ≡ false)
      × (nat_eq (code c) b'-' ≡ false)
not_special c h = (ground arith, ground arith, ground arith)

-- A property of the three special characters.
for_special : (P : Char → Type 0) (c : Char) → is_special c ≡ true → P "." → P ";" → P "-" → P c
for_special P c h dot semicolon dashed = elim (Bool-cases (nat_eq (code c) b'.')) [
  | inl e ↦ subst P (sym (Char-path c "." (ground arith))) dot
  | inr e ↦ elim (Bool-cases (nat_eq (code c) b';')) [
    | inl f ↦ subst P (sym (Char-path c ";" (ground arith))) semicolon
    | inr f ↦ subst P (sym (Char-path c "-" (ground arith))) dashed
  ]
]

unescape_from-escape : (s : String) → unescape_from false (escape s) ≡ some s
unfolding escape
unescape_from-escape [] = refl
unescape_from-escape (c ∷ s) =
    if-cases (λ t. unescape_from false t ≡ some (c ∷ s)) (is_special c) _ _
      (λ e.
        ap (push (of_letter (letter c))) (unescape_from-escape s)
        ∙ ap (λ d. some (d ∷ s)) (for_special (λ d. of_letter (letter d) ≡ d) c e refl refl refl))
      (λ e.
        let (_, _, f) = not_special c e in
        ap
          (λ b.
            if b then unescape_from true (escape s) else push c (unescape_from false (escape s)))
          f
        ∙ ap (push c) (unescape_from-escape s))

pub unescape-escape : (s : String) → unescape (escape s) ≡ some s
unfolding unescape
unescape-escape s = unescape_from-escape s

pub escape-Without_dot : (s : String) → Without b'.' (escape s)
unfolding escape
escape-Without_dot [] = tt
escape-Without_dot (c ∷ s) =
    if-cases (Without b'.') (is_special c) _ _
      (λ e. (
        refl,
        (
          for_special (λ d. nat_eq (code (letter d)) b'.' ≡ false) c e refl refl refl,
          escape-Without_dot s,
        ),
      ))
      (λ e. ((not_special c e).0, escape-Without_dot s))

escape-Without_semicolon : (s : String) → Without b';' (escape s)
unfolding escape
escape-Without_semicolon [] = tt
escape-Without_semicolon (c ∷ s) =
    if-cases (Without b';') (is_special c) _ _
      (λ e. (
        refl,
        (
          for_special (λ d. nat_eq (code (letter d)) b';' ≡ false) c e refl refl refl,
          escape-Without_semicolon s,
        ),
      ))
      (λ e. ((not_special c e).1, escape-Without_semicolon s))

-- A field, and what is behind it.
abbrev field : String → String → String
field s rest = escape s ++ (";" ++ rest)

abbrev unescape_first : Option (String × String) → Option (String × String)
unescape_first none = none
unescape_first (some (a, rest)) = elim (unescape a) [ none ↦ none | some s ↦ some (s, rest) ]

unfoldable pub read_field : String → Option (String × String)
read_field t = unescape_first (cut t b';')

read_field-field : (s rest : String) → read_field (field s rest) ≡ some (s, rest)
unfolding read_field
read_field-field s rest =
    ap unescape_first (
      ap (λ t. cut (escape s ++ t) b';') (cons-append ";" [] rest ∙ ap (◌∷◌ ";") (nil-append rest))
      ∙ cut_complete ";" (escape s) rest (escape-Without_semicolon s))
    ∙ ap (λ u. elim u [ none ↦ none | some s ↦ some (s, rest) ]) (unescape-escape s)

-- An integer: its sign, and a letter for each unit.
abbrev units : ℕ → String
units zero = []
units (suc n) = "i" ∷ units n

abbrev count : String → ℕ
count [] = 0
count (c ∷ s) = suc (count s)

count-units : (n : ℕ) → count (units n) ≡ n
count-units zero = refl
count-units (suc n) = ap suc (count-units n)

abbrev int_text : ℤ → String
int_text (pos n) = "p" ∷ units n
int_text (negsuc n) = "n" ∷ units n

abbrev int_of : String → ℤ
int_of [] = pos 0
int_of (c ∷ s) = if nat_eq (code c) b'p' then pos (count s) else negsuc (count s)

int_of-int_text : (z : ℤ) → int_of (int_text z) ≡ z
int_of-int_text (pos n) = ap pos (count-units n)
int_of-int_text (negsuc n) = ap negsuc (count-units n)

unfoldable pub marshal : SignedStatePayload → String
marshal p = field (int_text p.version) (
    field p.provider (
      field p.user (
        field p.credential_id
          (field p.redirect_uri (field (int_text p.created_at) (field p.nonce ""))))))

abbrev and_then : {A : Type 0} → Option (String × String) → (String → String → Option A) → Option A
and_then none k = none
and_then (some (s, rest)) k = k s rest

unfoldable pub unmarshal : String → Option SignedStatePayload
unmarshal t = and_then (read_field t) λ version t. and_then (read_field t) λ provider t.
    and_then (read_field t) λ user t. and_then (read_field t) λ credential_id t.
      and_then (read_field t) λ redirect_uri t. and_then (read_field t) λ created_at t.
        and_then (read_field t) λ nonce t. some (record {
          version = int_of version;
          provider = provider;
          user = user;
          credential_id = credential_id;
          redirect_uri = redirect_uri;
          created_at = int_of created_at;
          nonce = nonce;
        })

pub unmarshal-marshal : (p : SignedStatePayload) → unmarshal (marshal p) ≡ some p
unfolding unmarshal marshal
unmarshal-marshal p =
    rw
      (
        read_field-field, read_field-field, read_field-field, read_field-field, read_field-field,
        read_field-field, read_field-field, int_of-int_text, int_of-int_text,
      )
      refl

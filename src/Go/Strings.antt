-- ===== src/Go/Strings.antt =====
-- Package strings. Letters change case in the ASCII range only; white space is Unicode's.
use Prim.Native.String.{[], ◌∷◌, ◌++◌, len}
use scia.Base.{
  ℕ, zero, suc, ◌-◌, Char, code, String, Bool, true, false, ◌&&◌, ◌||◌, Option, none, some, ◌==◌,
  leb, nat_eq, if◌then◌else◌,
}

-- The rest of a text behind a prefix.
unfoldable pub strip_prefix? : String → String → Option String
strip_prefix? [] s = some s
strip_prefix? (c ∷ p) [] = none
strip_prefix? (c ∷ p) (d ∷ s) = if nat_eq (code c) (code d) then strip_prefix? p s else none

abbrev pub is_some {ℓ} : {A : Type ℓ} → Option A → Bool
is_some none = false
is_some (some _) = true

abbrev pub some_or {ℓ} : {A : Type ℓ} → Option A → A → A
some_or none d = d
some_or (some a) d = a

-- strings.HasPrefix(s, prefix) and strings.TrimPrefix(s, prefix)
unfoldable pub has_prefix : String → String → Bool
unfolding strip_prefix?
has_prefix s prefix = is_some (strip_prefix? prefix s)

unfoldable pub trim_prefix : String → String → String
unfolding strip_prefix?
trim_prefix s prefix = some_or (strip_prefix? prefix s) s

-- strings.HasSuffix(s, suffix) and strings.TrimSuffix(s, suffix)
unfoldable pub has_suffix : String → String → Bool
has_suffix [] suffix = [] == suffix
has_suffix (c ∷ s) suffix = (c ∷ s) == suffix || has_suffix s suffix

unfoldable pub trim_suffix : String → String → String
trim_suffix [] suffix = []
trim_suffix (c ∷ s) suffix =
    let rest = trim_suffix s suffix in if (c ∷ s) == suffix then [] else c ∷ rest

-- strings.Contains(s, substr)
unfoldable pub contains_text : String → String → Bool
unfolding has_prefix
contains_text [] part = part == []
contains_text (c ∷ s) part = has_prefix (c ∷ s) part || contains_text s part

-- strings.Cut(s, sep) at a separator of one character; `none` is `ok == false`.
abbrev pub push_before : Char → Option (String × String) → Option (String × String)
push_before c none = none
push_before c (some (a, b)) = some (c ∷ a, b)

unfoldable pub cut : String → ℕ → Option (String × String)
cut [] sep = none
cut (c ∷ s) sep = if nat_eq (code c) sep then some ([], s) else push_before c (cut s sep)

-- unicode.IsSpace
unfoldable pub is_space : ℕ → Bool
is_space c =
    leb 9 c && leb c 13
    || nat_eq c 32
    || nat_eq c 0x85
    || nat_eq c 0xa0
    || nat_eq c 0x1680
    || leb 0x2000 c && leb c 0x200a
    || nat_eq c 0x2028
    || nat_eq c 0x2029
    || nat_eq c 0x202f
    || nat_eq c 0x205f
    || nat_eq c 0x3000

unfoldable pub trim_left : String → String
unfolding is_space
trim_left [] = []
trim_left (c ∷ s) = let rest = trim_left s in if is_space (code c) then rest else c ∷ s

unfoldable pub trim_right : String → String
unfolding is_space
trim_right [] = []
trim_right (c ∷ s) =
    let rest = trim_right s in if is_space (code c) && rest == [] then [] else c ∷ rest

-- strings.TrimSpace
unfoldable pub trim_space : String → String
unfolding trim_left trim_right
trim_space s = trim_right (trim_left s)

abbrev is_bracket : ℕ → Bool
is_bracket c = nat_eq c b'[' || nat_eq c b']'

unfoldable pub trim_brackets_left : String → String
trim_brackets_left [] = []
trim_brackets_left (c ∷ s) =
    let rest = trim_brackets_left s in if is_bracket (code c) then rest else c ∷ s

unfoldable pub trim_brackets_right : String → String
trim_brackets_right [] = []
trim_brackets_right (c ∷ s) =
    let rest = trim_brackets_right s in if is_bracket (code c) && rest == [] then [] else c ∷ rest

-- strings.Trim(s, "[]")
unfoldable pub trim_brackets : String → String
unfolding trim_brackets_left trim_brackets_right
trim_brackets s = trim_brackets_right (trim_brackets_left s)

abbrev pub nth : String → ℕ → Char → Char
nth [] k d = d
nth (c ∷ s) zero d = c
nth (c ∷ s) (suc k) d = nth s k d

abbrev pub is_upper : Char → Bool
is_upper c = leb b'A' (code c) && leb (code c) b'Z'

-- unicode.ToLower on ASCII
unfoldable pub lower : Char → Char
lower c = if is_upper c then nth "abcdefghijklmnopqrstuvwxyz" (code c - b'A') c else c

-- strings.ToLower
unfoldable pub to_lower : String → String
unfolding lower
to_lower [] = []
to_lower (c ∷ s) = lower c ∷ to_lower s

-- strings.EqualFold
unfoldable pub equal_fold : String → String → Bool
unfolding to_lower
equal_fold s t = to_lower s == to_lower t

-- strings.ReplaceAll(s, old, new) with an `old` that is not empty; `skip` is how many characters of
-- the last place found are left.
unfoldable pub replace_from : String → String → String → ℕ → String
unfolding has_prefix
replace_from [] old new skip = []
replace_from (c ∷ s) old new (suc skip) = replace_from s old new skip
replace_from (c ∷ s) old new zero = elim (has_prefix (c ∷ s) old) [
  | true ↦ new ++ replace_from s old new (len old - 1)
  | false ↦ c ∷ replace_from s old new 0
]

unfoldable pub replace_all : String → String → String → String
unfolding replace_from
replace_all s old new = replace_from s old new 0

-- ===== src/Go/Net.antt =====
-- Package net: SplitHostPort.
use Prim.Native.String.{[], ◌∷◌}
use scia.Base.{
  ℕ, Char, code, String, Bool, false, not, ◌&&◌, ◌||◌, Option, none, some, ◌==◌, nat_eq,
  if◌then◌else◌,
}
use scia.Go.Strings.{cut}

-- strings.IndexByte(s, c) >= 0
unfoldable pub has_char : String → ℕ → Bool
has_char [] k = false
has_char (c ∷ s) k = nat_eq (code c) k || has_char s k

-- The parts before and behind the last ':'.
abbrev cut_last_found : Char → String → Option (String × String) → Option (String × String)
cut_last_found c s (some (a, b)) = some (c ∷ a, b)
cut_last_found c s none = if nat_eq (code c) b':' then some ([], s) else none

unfoldable pub cut_last_colon : String → Option (String × String)
cut_last_colon [] = none
cut_last_colon (c ∷ s) = cut_last_found c s (cut_last_colon s)

-- `[host]`, the text before the last colon of a bracketed address: the host, if the first ']'
-- is its last character and there is no other bracket.
bracketed : String → Option String
unfolding cut has_char
bracketed inner = elim (cut inner b']') [
  | none ↦ none
  | some (host, rest) ↦ if rest == [] && not (has_char host b'[') then some host else none
]

split_parts : String → String → Option (String × String)
unfolding bracketed has_char
split_parts [] port = if has_char port b'[' || has_char port b']' then none else some ([], port)
split_parts (c ∷ s) port =
    if has_char port b'[' || has_char port b']'
    then none
    else if nat_eq (code c) b'['
    then elim (bracketed s) [ none ↦ none | some host ↦ some (host, port) ]
    else if has_char (c ∷ s) b':' || has_char (c ∷ s) b'[' || has_char (c ∷ s) b']'
    then none
    else some (c ∷ s, port)

-- net.SplitHostPort; `none` is an error.
unfoldable pub split_host_port : String → Option (String × String)
unfolding cut_last_colon split_parts
split_host_port s = elim (cut_last_colon s) [ none ↦ none | some (a, b) ↦ split_parts a b ]

-- The host of an address, or the address itself where it has no port.
abbrev first_or : Option (String × String) → String → String
first_or none s = s
first_or (some (h, p)) s = h

unfoldable pub host_only : String → String
unfolding split_host_port
host_only s = first_or (split_host_port s) s

-- ===== src/Config/Names.antt =====
-- config.go: the shapes of user ids, service ids and secret names. `len` counts bytes, as in Go.
pub mod Laws
use Prim.Native.String.{[], ◌∷◌, len}
use scia.Base.{
  ℕ, suc, ◌+◌, ◌-◌, code, String, Bool, true, false, not, ◌&&◌, ◌||◌, leb, ltb, nat_eq,
  if◌then◌else◌, ◌==◌,
}

-- isLower || isDigit, and isHyphen
abbrev pub is_alnum : ℕ → Bool
is_alnum r = leb b'a' r && leb r b'z' || leb b'0' r && leb r b'9'

abbrev pub is_hyphen : ℕ → Bool
is_hyphen r = nat_eq r b'-'

-- The loop of ValidDynamicUserID: it goes on only behind a character of one byte, so the offset
-- grows by one.
dynamic_user_loop : ℕ → ℕ → String → Bool
dynamic_user_loop n i [] = true
dynamic_user_loop n i (c ∷ s) =
    if not (is_alnum (code c) || is_hyphen (code c))
    then false
    else if (nat_eq i 0 || nat_eq i (n - 1)) && is_hyphen (code c)
    then false
    else dynamic_user_loop n (i + 1) s

-- ValidDynamicUserID
unfoldable pub valid_dynamic_user_id : String → Bool
unfolding dynamic_user_loop
valid_dynamic_user_id user_id =
    if user_id == "" || ltb 63 (len user_id)
    then false
    else dynamic_user_loop (len user_id) 0 user_id

-- validServiceID
unfoldable pub valid_service_id : String → Bool
valid_service_id [] = true
valid_service_id (c ∷ s) =
    if not (is_alnum (code c) || is_hyphen (code c) || nat_eq (code c) b'_' || nat_eq (code c) b'.')
    then false
    else valid_service_id s

prefix_loop : ℕ → String → Bool
prefix_loop i [] = true
prefix_loop i (c ∷ s) =
    if not (is_alnum (code c) || is_hyphen (code c))
    then false
    else if nat_eq i 0 && is_hyphen (code c)
    then false
    else prefix_loop (i + 1) s

-- validSecretNamePrefix
unfoldable pub valid_secret_name_prefix : String → Bool
unfolding prefix_loop
valid_secret_name_prefix prefix =
    if prefix == "" || leb 253 (len prefix) then false else prefix_loop 0 prefix

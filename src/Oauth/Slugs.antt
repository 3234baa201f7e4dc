-- ===== src/Oauth/Slugs.antt =====
-- internal/oauth/server.go: slugifyScopeID, the id of a scope that is made of its name.
use Prim.Native.String.{[], ◌∷◌}
use scia.Base.{ℕ, code, String, Bool, true, false, not, ◌&&◌, ◌||◌, leb}
use scia.Go.{to_lower, trim_dashes}

abbrev pub is_slug_char : ℕ → Bool
is_slug_char c = leb b'a' c && leb c b'z' || leb b'0' c && leb c b'9'

-- The loop, with lastDash and whether something has been written.
unfoldable pub slug_from : Bool → Bool → String → String
slug_from last_dash written [] = []
slug_from last_dash written (c ∷ s) = elim (is_slug_char (code c)) [
  | true ↦ c ∷ slug_from false true s
  | false ↦ elim (not last_dash && written) [
    | true ↦ "-" ∷ slug_from true true s
    | false ↦ slug_from last_dash written s
  ]
]

unfoldable pub slugify_scope_id : String → String
unfolding slug_from to_lower trim_dashes
slugify_scope_id value = trim_dashes (slug_from false false (to_lower value))

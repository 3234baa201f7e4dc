-- ===== src/Go/Fields.antt =====
-- Package strings: FieldsFunc, Join, and the trimming of dashes.
use Prim.Native.String.{[], ◌∷◌, ◌++◌}
use scia.Base.{ℕ, code, String, List, [], ◌∷◌, Bool, ◌&&◌, ◌==◌, nat_eq, if◌then◌else◌}
use scia.Go.Path.{push_head}

-- strings.FieldsFunc(s, f), where `f` reads a character's code
unfoldable pub split_at : (ℕ → Bool) → String → List String
split_at f [] = [] ∷ []
split_at f (c ∷ s) = let rest = split_at f s in if f (code c) then [] ∷ rest else push_head c rest

unfoldable pub not_empty : List String → List String
not_empty [] = []
not_empty (s ∷ ss) = let rest = not_empty ss in if s == "" then rest else s ∷ rest

unfoldable pub fields_func : (ℕ → Bool) → String → List String
unfolding split_at not_empty
fields_func f s = not_empty (split_at f s)

-- strings.Join
unfoldable pub join : String → List String → String
join sep [] = ""
join sep (s ∷ []) = s
join sep (s ∷ t ∷ ts) = s ++ (sep ++ join sep (t ∷ ts))

unfoldable pub trim_dashes_left : String → String
trim_dashes_left [] = []
trim_dashes_left (c ∷ s) =
    let rest = trim_dashes_left s in if nat_eq (code c) b'-' then rest else c ∷ s

unfoldable pub trim_dashes_right : String → String
trim_dashes_right [] = []
trim_dashes_right (c ∷ s) =
    let rest = trim_dashes_right s in if nat_eq (code c) b'-' && rest == [] then [] else c ∷ rest

-- strings.Trim(s, "-")
unfoldable pub trim_dashes : String → String
unfolding trim_dashes_left trim_dashes_right
trim_dashes s = trim_dashes_right (trim_dashes_left s)

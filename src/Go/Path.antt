-- ===== src/Go/Path.antt =====
-- Package path: Clean of a rooted path.
use Prim.Native.String.{[], ◌∷◌, ◌++◌}
use mathlib.Core.List.{reverse, tail}
use scia.Base.{Char, code, String, List, [], ◌∷◌, ◌||◌, ◌==◌, nat_eq, if◌then◌else◌}

abbrev pub push_head : Char → List String → List String
push_head c [] = (c ∷ []) ∷ []
push_head c (p ∷ ps) = (c ∷ p) ∷ ps

-- The elements of a path, between its slashes.
unfoldable pub split_slash : String → List String
split_slash [] = [] ∷ []
split_slash (c ∷ s) =
    if nat_eq (code c) b'/' then [] ∷ split_slash s else push_head c (split_slash s)

-- One element: empty ones and "." are dropped, ".." takes the element before it away.
-- The stack has its top at the head; ".." at the root is dropped.
unfoldable pub clean_step : List String → String → List String
clean_step stack part =
    if part == "" || part == "." then stack else if part == ".." then tail stack else part ∷ stack

unfoldable pub clean_parts : List String → List String → List String
unfolding clean_step
clean_parts stack [] = reverse stack
clean_parts stack (part ∷ parts) = clean_parts (clean_step stack part) parts

-- "/a/b" of a and b.
unfoldable pub join_rooted : List String → String
join_rooted [] = ""
join_rooted (p ∷ ps) = "/" ++ (p ++ join_rooted ps)

-- path.Clean("/" + s)
unfoldable pub clean_rooted : String → String
unfolding split_slash clean_parts join_rooted
clean_rooted s = elim (clean_parts [] (split_slash s)) [ [] ↦ "/" | p ∷ ps ↦ join_rooted (p ∷ ps) ]

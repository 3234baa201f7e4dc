-- ===== src/Config/Env/Value.antt =====
-- One text.
use mathlib.Core.Option
use scia.Base.{String, List, [], ◌∷◌, Option, if◌then◌else◌}
use scia.Go.{has_prefix, trim_prefix}

-- HeaderValueFromEnv
unfoldable pub header_value_from_env : (String → String) → String → String
unfolding has_prefix trim_prefix
header_value_from_env getenv value =
    if has_prefix value "env:" then getenv (trim_prefix value "env:") else value

-- expandEnvStrings at a map: the values, and not the keys.
abbrev pub expand_map {ℓ} : {V : Type ℓ} → (V → V) → List (String × V) → List (String × V)
expand_map f [] = []
expand_map f ((k, v) ∷ m) = (k, f v) ∷ expand_map f m

abbrev pub expand_option {ℓ} : {V : Type ℓ} → (V → V) → Option V → Option V
expand_option = Option.map

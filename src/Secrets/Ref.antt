-- ===== src/Secrets/Ref.antt =====
-- internal/secrets/ref.go: a reference to an environment variable or to a secret of a store.
use Prim.Native.String.{◌++◌}
use scia.Base.{
  String, [], ◌∷◌, ◌||◌, ◌==◌, Option, none, some, Result, ok, err, errorf, str, if◌then◌else◌,
}
use scia.Go.{cut, has_prefix, trim_prefix, some_or}
use scia.Secrets.Store.{Op, Store, lift, return, ◌>>=◌}

malformed : {A : Type 0} → String → Result A
malformed ref =
    err (errorf "secret ref %q must be formatted as namespace.provider.key" (str ref ∷ []))

unfoldable pub split_provider :
    String → String → Option (String × String) → Result (String × String)
unfolding malformed
split_provider ref namespace none = malformed ref
split_provider ref namespace (some (provider, key)) =
    if provider == "" || key == "" then malformed ref else ok (namespace ++ ("." ++ provider), key)

unfoldable pub split_namespace : String → Option (String × String) → Result (String × String)
unfolding cut split_provider malformed
split_namespace ref none = malformed ref
split_namespace ref (some (namespace, rest)) =
    if namespace == "" then malformed ref else split_provider ref namespace (cut rest b'.')

-- RefParts
unfoldable pub ref_parts : String → Result (String × String)
unfolding cut split_namespace
ref_parts ref = split_namespace ref (cut ref b'.')

-- ResolveRef, with the environment as a function; a secret that is not stored is the empty text.
unfoldable pub resolve_ref : {S : Type 0} → (String → String) → Store S → String → Op S String
unfolding ref_parts has_prefix trim_prefix
resolve_ref getenv store ref =
    if has_prefix ref "env:"
    then return (getenv (trim_prefix ref "env:"))
    else lift (ref_parts (trim_prefix ref "secret:")) >>= λ (credential_id, key).
        store.get credential_id key >>= λ value. return (some_or value "")

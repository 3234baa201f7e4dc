-- ===== src/Secrets/RefLaws.antt =====
-- internal/secrets/ref.go: RefParts and SecretRefParts of internal/config/config.go.
use scia.Base.{
  String, Bool, true, false, ◌||◌, ◌==◌, Option, none, some, Result, ◌≡◌, refl, if◌then◌else◌,
}
use scia.Config.Request.{bad_ref, ref_rest, ref_namespace, secret_ref_parts}
use scia.Go.{cut}
use scia.Secrets.Ref.{split_provider, split_namespace, ref_parts}

if-or :
    (a b : Bool) (x y : Result (String × String))
    → (if a || b then x else y) ≡ (if a then x else if b then x else y)
if-or true b x y = refl
if-or false b x y = refl

split_provider-ref_rest :
    (ref namespace : String) (o : Option (String × String))
    → split_provider ref namespace o ≡ ref_rest ref namespace o
unfolding split_provider ref_rest
split_provider-ref_rest ref namespace none = refl
split_provider-ref_rest ref namespace (some (provider, key)) =
    if-or (provider == "") (key == "") _ _

split_namespace-ref_namespace :
    (ref : String) (o : Option (String × String)) → split_namespace ref o ≡ ref_namespace ref o
unfolding split_namespace ref_namespace
split_namespace-ref_namespace ref none = refl
split_namespace-ref_namespace ref (some (namespace, rest)) = λ i.
    if namespace == "" then bad_ref ref else split_provider-ref_rest ref namespace (cut rest b'.') i

-- The two copies of the parser of references, RefParts and SecretRefParts, agree on every text.
pub ref_parts-secret_ref_parts : (ref : String) → ref_parts ref ≡ secret_ref_parts ref
unfolding ref_parts secret_ref_parts
ref_parts-secret_ref_parts ref = split_namespace-ref_namespace ref (cut ref b'.')

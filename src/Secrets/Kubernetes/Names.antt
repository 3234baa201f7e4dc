-- ===== src/Secrets/Kubernetes/Names.antt =====
-- internal/secrets/kubernetes.go: the names of the Secrets of dynamic users.
use Prim.Native.String.{◌++◌, len}
use scia.Base.{
  String, not, ltb, Error, ◌≤◌, if◌then◌else◌, Bool, true, false, none, ok, err, ok-injective,
  lookup, ◌≡◌, refl, sym, ◌∙◌, subst, arith,
}
use scia.Config.Names.{valid_dynamic_user_id, valid_secret_name_prefix}
use scia.Config.Names.Laws.{IsDnsName, append-IsDnsName, valid_dynamic_user_id_iff, append-cancel}
use scia.Secrets.Kubernetes.{KubernetesStore, secret_name, dynamic_secret_name}

three-checks :
    (a b c : Bool) (x y z : Error) (t name : String)
    → (if a then err x else if b then err y else if c then err z else ok t) ≡ ok name
    → (a ≡ false) × (b ≡ false) × (c ≡ false) × (name ≡ t)
three-checks true b c x y z t name h = cc
three-checks false true c x y z t name h = cc
three-checks false false true x y z t name h = cc
three-checks false false false x y z t name h = (refl, refl, refl, sym (ok-injective h))

dynamic_secret_name-eq-ok :
    (s : KubernetesStore) (user name : String)
    → dynamic_secret_name s user ≡ ok name
    → (valid_dynamic_user_id user ≡ true)
      × (len name ≤ 253)
      × (name ≡ s.dynamic_user_secret_name_prefix ++ user)
unfolding dynamic_secret_name
dynamic_secret_name-eq-ok s user name h =
    let (_, valid, short, r) =
      three-checks (not s.dynamic_users) (not (valid_dynamic_user_id user))
        (ltb 253 (len (s.dynamic_user_secret_name_prefix ++ user))) _ _ _ _ name h in
    (ground arith, subst (λ n. len n ≤ 253) (sym r) (ground arith), r)

-- The Secret of a user without a configured one has a name that Kubernetes accepts: 1 to 253 bytes
-- of lower case letters, digits and hyphens that start and end with no hyphen. The configured
-- prefix is one that Validate accepts.
pub secret_name-IsDnsName :
    (s : KubernetesStore) (user name : String)
    → valid_secret_name_prefix s.dynamic_user_secret_name_prefix ≡ true
    → lookup user s.users ≡ none
    → secret_name s user ≡ ok name
    → IsDnsName 253 name
unfolding secret_name
secret_name-IsDnsName s user name h absent e =
    let (valid, short, r) = dynamic_secret_name-eq-ok s user name (rw (absent, secret_name) at e) in
    subst (IsDnsName 253) (sym r) (
      append-IsDnsName 253 _ user h ((valid_dynamic_user_id_iff user).0 valid)
        (subst (λ n. len n ≤ 253) r short))

-- Two users without configured Secrets share a Secret only if they are the same user.
pub secret_name-injective :
    (s : KubernetesStore) (user other name : String)
    → lookup user s.users ≡ none
    → lookup other s.users ≡ none
    → secret_name s user ≡ ok name
    → secret_name s other ≡ ok name
    → user ≡ other
unfolding secret_name
secret_name-injective s user other name h k e f =
    let (_, _, r) = dynamic_secret_name-eq-ok s user name (rw (h, secret_name) at e) in
    let (_, _, q) = dynamic_secret_name-eq-ok s other name (rw (k, secret_name) at f) in
    append-cancel s.dynamic_user_secret_name_prefix user other (sym r ∙ q)

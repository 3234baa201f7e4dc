-- ===== src/Tests/Secrets.antt =====
-- internal/secrets on concrete input.
use scia.Base.{◌≤◌, String, [], ◌∷◌, true, some, ok, pos, pos_part, length, ◌≡◌, refl, arith, All}
use scia.Config.Names.{valid_secret_name_prefix}
use scia.Config.Names.Laws.{IsDnsName}
use scia.Secrets.Cache
use scia.Secrets.Cache.{DekCache, is_off}
use scia.Secrets.Cache.Laws.{put-length, put-IsLive, IsLive}
use scia.Secrets.Cache.Lookup.{get-put_fresh, get-IsHit, IsHit}
use scia.Secrets.Kubernetes.{KubernetesStore, secret_name}
use scia.Secrets.Kubernetes.Names.{secret_name-IsDnsName, secret_name-injective}

abbrev kube : KubernetesStore
kube = record {
  namespace = "ns";
  users = ("root", "root-secret") ∷ [];
  dynamic_users = true;
  dynamic_user_secret_name_prefix = "scia-oauth-";
}

prefix-valid : valid_secret_name_prefix "scia-oauth-" ≡ true
unfolding valid_secret_name_prefix
prefix-valid = refl

name-ann : secret_name kube "ann" ≡ ok "scia-oauth-ann"
unfolding secret_name
name-ann = refl

secret_name-IsDnsName_example : IsDnsName 253 "scia-oauth-ann"
secret_name-IsDnsName_example =
    secret_name-IsDnsName kube "ann" "scia-oauth-ann" prefix-valid refl name-ann

abbrev ann : String
ann = "ann"

secret_name-injective_example : ann ≡ "ann"
secret_name-injective_example =
    secret_name-injective kube ann "ann" "scia-oauth-ann" refl refl name-ann name-ann

abbrev cache : DekCache
cache = record {
  ttl = pos 10;
  max_entries = pos 1;
  entries = ("old", record { dek = "k0"; expires_at = 90; created_at = 5 }) ∷ [];
}

put-length_example : length (Cache.put cache "new" "k1" 20).entries ≤ pos_part cache.max_entries
put-length_example = put-length cache "new" "k1" 20 refl

get-put_fresh_example :
    Cache.get (Cache.put cache "new" "k1" 20) "new" 29 ≡ (Cache.put cache "new" "k1" 20, some "k1")
get-put_fresh_example = get-put_fresh cache "new" "k1" 20 29 refl (omega arith)

hit : Cache.get cache "old" 89 ≡ (cache, some "k0")
unfolding Cache.get
hit = refl

get-IsHit_example : IsHit cache "old" 89 "k0" × (cache ≡ cache)
get-IsHit_example = get-IsHit cache cache "old" "k0" 89 hit

put-IsLive_example : All (IsLive 20) (Cache.put cache "new" "k1" 20).entries
put-IsLive_example = put-IsLive cache "new" "k1" 20 refl

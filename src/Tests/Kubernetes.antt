-- ===== src/Tests/Kubernetes.antt =====
-- internal/secrets/kubernetes.go on a cluster that is a map from namespaces and names to data.
use scia.Base.{
  String, [], ◌∷◌, Bool, true, false, ◌&&◌, ◌==◌, Option, none, some, ok, lookup, ◌≡◌, refl, sym,
  ◌∙◌, if◌then◌else◌,
}
use scia.Secrets.Kubernetes.{Data, Secret, SecretsApi, KubernetesStore, data_of, secret_name}
use scia.Secrets.Kubernetes
use scia.Secrets.Kubernetes.Laws.{
  Cells, with_cell, with_secret, IsSecretsApi, put-cells, delete-cells, get-put_value,
}

abbrev Cluster : Type 0
Cluster = String → String → Option Data

abbrev object : String → String → Option Data → Option Secret
object ns name none = none
object ns name (some d) =
    some (record { name = name; namespace = ns; labels = []; type = "Opaque"; data_map = some d })

abbrev write : String → Secret → Cluster → Cluster
write ns o s n m = if (ns == n) && (o.name == m) then some (data_of o.data_map) else s n m

abbrev api : SecretsApi Cluster
api = record {
  get = λ ns name s. (s, ok (object ns name (s ns name)));
  create = λ ns o s. (write ns o s, ok tt);
  update = λ ns o s. (write ns o s, ok tt);
}

abbrev cell : String → Option Data → Option String
cell k none = none
cell k (some d) = lookup k d

abbrev cells : Cluster → Cells
cells s n m k = cell k (s n m)

read-none :
    (ns name : String) (o : Option Data) → object ns name o ≡ none → (k : String) → cell k o ≡ none
read-none ns name none h k = refl
read-none ns name (some d) h k = cc

read-some :
    (ns name : String) (o : Option Data) (x : Secret)
    → object ns name o ≡ some x
    → ((k : String) → cell k o ≡ lookup k (data_of x.data_map)) × (x.name ≡ name)
read-some ns name none x h = cc
read-some ns name (some d) x h =
    ((λ k. λ i. lookup k (data_of (eq h i).data_map)), (λ i. (sym (eq h) i).name))
  where
    eq : {a b : Secret} → some a ≡ some b → a ≡ b
    eq h = cc

written :
    (ns : String) (o : Secret) (s t : Cluster)
    → write ns o s ≡ t
    → (n m k : String) → cells t n m k ≡ with_secret ns o (cells s) n m k
written ns o s t e n m k = (λ i. cells (sym e i) n m k) ∙ go ((ns == n) && (o.name == m))
  where
    go :
        (b : Bool)
        → cell k (if b then some (data_of o.data_map) else s n m)
          ≡ (if b then lookup k (data_of o.data_map) else cells s n m k)
    go true = refl
    go false = refl

api-IsSecretsApi : IsSecretsApi api cells
api-IsSecretsApi = record {
  get_none = λ ns name s t h.
      ((λ i. cells (sym h i).0), read-none ns name (s ns name) (eq (λ i. (h i).1)));
  get_some = λ ns name s t o h.
      let (values, named) = read-some ns name (s ns name) o (eq (λ i. (h i).1)) in
      ((λ i. cells (sym h i).0), values, named);
  create_ok = λ ns o s t h. written ns o s t (λ i. (h i).0);
  update_ok = λ ns o s t h. written ns o s t (λ i. (h i).0);
}
  where
    eq : {a b : Option Secret} → ok a ≡ ok b → a ≡ b
    eq h = cc

abbrev kube : KubernetesStore
kube = record {
  namespace = "ns";
  users = [];
  dynamic_users = true;
  dynamic_user_secret_name_prefix = "scia-oauth-";
}

abbrev before : Cluster
before n m = if m == "scia-oauth-ann" then some (("a", "1") ∷ []) else none

abbrev behind : Cluster
behind = (Kubernetes.put api kube "ann" "b" "2" before).0

abbrev without : Cluster
without = (Kubernetes.delete api kube "ann" "a" before).0

name-of_ann : secret_name kube "ann" ≡ ok "scia-oauth-ann"
unfolding secret_name
name-of_ann = refl

put-before : Kubernetes.put api kube "ann" "b" "2" before ≡ (behind, ok tt)
unfolding Kubernetes.put secret_name
put-before = refl

delete-before : Kubernetes.delete api kube "ann" "a" before ≡ (without, ok tt)
unfolding Kubernetes.delete secret_name
delete-before = refl

get-behind : Kubernetes.get api kube "ann" "b" behind ≡ (behind, ok (some "2"))
unfolding Kubernetes.get Kubernetes.put secret_name
get-behind = refl

put-cells_example :
    cells behind "ns" "scia-oauth-ann" "a"
    ≡ with_cell "ns" "scia-oauth-ann" "b" (some "2") (cells before) "ns" "scia-oauth-ann" "a"
put-cells_example =
    put-cells api cells api-IsSecretsApi kube "ann" "scia-oauth-ann" "b" "2" before behind
      name-of_ann put-before "ns" "scia-oauth-ann" "a"

delete-cells_example :
    cells without "ns" "scia-oauth-ann" "a"
    ≡ with_cell "ns" "scia-oauth-ann" "a" none (cells before) "ns" "scia-oauth-ann" "a"
delete-cells_example =
    delete-cells api cells api-IsSecretsApi kube "ann" "scia-oauth-ann" "a" before without
      name-of_ann delete-before "ns" "scia-oauth-ann" "a"

abbrev two : Option String
two = some "2"

get-put_value_example : two ≡ some "2"
get-put_value_example =
    get-put_value api cells api-IsSecretsApi kube "ann" "scia-oauth-ann" "b" "2" before behind
      behind two name-of_ann put-before get-behind

-- ===== src/Secrets/Kubernetes.antt =====
-- internal/secrets/kubernetes.go: a store that keeps each user's secrets in one Kubernetes Secret.
-- The cluster's API is a parameter.
pub mod Laws
pub mod Names
use Prim.Native.String.{◌++◌, len}
use scia.Base.{
  String, List, [], ◌∷◌, Bool, true, false, not, ◌&&◌, ◌==◌, Option, none, some, Result, ok, err,
  Error, errorf, str, refuse, lookup, insert, erase, if◌then◌else◌, is_empty, for_each, ltb,
}
use scia.Config.Names.{valid_dynamic_user_id}
use scia.Secrets.Store.{Op, Store, lift, return, after, ◌>>=◌}

abbrev pub Data : Type 0
Data = List (String × String)

-- corev1.Secret; `none` in data_map is a nil Data.
pub record Secret : Type 0 where
  pub name : String
  pub namespace : String
  pub labels : List (String × String)
  pub type : String
  pub data_map : Option Data

-- client.CoreV1().Secrets(namespace); `none` is the error that IsNotFound recognises.
pub record SecretsApi (S : Type 0) : Type 0 where
  pub get : String → String → Op S (Option Secret)
  pub create : String → Secret → Op S (Unit {0})
  pub update : String → Secret → Op S (Unit {0})

pub record KubernetesStore : Type 0 where
  pub namespace : String
  pub users : List (String × String)
  pub dynamic_users : Bool
  pub dynamic_user_secret_name_prefix : String

pub record KubernetesStoreOptions : Type 0 where
  pub dynamic_users : Bool
  pub dynamic_user_secret_name_prefix : String

abbrev default_prefix : String
default_prefix = "scia-oauth-"

-- The first of the variadic options, with the default prefix.
unfoldable pub options_or_default : Option KubernetesStoreOptions → KubernetesStoreOptions
options_or_default none = record {
  dynamic_users = false;
  dynamic_user_secret_name_prefix = default_prefix;
}
options_or_default (some o) =
    if o.dynamic_user_secret_name_prefix == ""
    then record o { dynamic_user_secret_name_prefix = default_prefix }
    else o

check_mapping : String × String → Result (Unit {0})
check_mapping (user_id, secret_name) =
    elim (refuse (user_id == "") (errorf "user id cannot be empty" [])) [
      | err e ↦ err e
      | ok _ ↦
          refuse (secret_name == "") (errorf "user %q is missing secretName" (str user_id ∷ []))
    ]

-- NewKubernetesStore, for a client that is given.
unfoldable pub new_kubernetes_store :
    String → List (String × String) → Option KubernetesStoreOptions → Result KubernetesStore
unfolding options_or_default check_mapping
new_kubernetes_store namespace users options =
    let o = options_or_default options in
    if namespace == ""
    then err (errorf "kubernetes namespace is required" [])
    else if is_empty users && not o.dynamic_users
    then err (errorf "at least one user secret mapping is required for kubernetes mode" [])
    else elim (for_each check_mapping users) [
      | err e ↦ err e
      | ok _ ↦ ok (record {
        namespace = namespace;
        users = users;
        dynamic_users = o.dynamic_users;
        dynamic_user_secret_name_prefix = o.dynamic_user_secret_name_prefix;
      })
    ]

unfoldable pub dynamic_secret_name : KubernetesStore → String → Result String
unfolding valid_dynamic_user_id
dynamic_secret_name s user_id =
    if not s.dynamic_users
    then err (errorf "unknown user %q" (str user_id ∷ []))
    else if not (valid_dynamic_user_id user_id)
    then err (errorf "invalid dynamic user %q" (str user_id ∷ []))
    else if ltb 253 (len (s.dynamic_user_secret_name_prefix ++ user_id))
    then err (errorf "dynamic user secret name is too long for user %q" (str user_id ∷ []))
    else ok (s.dynamic_user_secret_name_prefix ++ user_id)

-- secretName
unfoldable pub secret_name : KubernetesStore → String → Result String
unfolding dynamic_secret_name
secret_name s user_id = elim (lookup user_id s.users) [
  | none ↦ dynamic_secret_name s user_id
  | some name ↦ ok name
]

abbrev pub data_of : Option Data → Data
data_of none = []
data_of (some d) = d

abbrev pub new_secret : String → String → String → String → Secret
new_secret name namespace key value = record {
  name = name;
  namespace = namespace;
  labels = ("app.kubernetes.io/managed-by", "scia") ∷ [];
  type = "Opaque";
  data_map = some ((key, value) ∷ []);
}

abbrev pub read_key : String → Option Secret → Option String
read_key key none = none
read_key key (some secret) = lookup key (data_of secret.data_map)

module _ {S : Type 0} (api : SecretsApi S) (s : KubernetesStore) where
  -- The operations on the Secret of a known name.
  abbrev pub get_in : String → String → Op S (Option String)
  get_in key name = api.get s.namespace name >>= λ secret. return (read_key key secret)

  abbrev pub write_key : String → String → String → Option Secret → Op S (Unit {0})
  write_key key value name none = api.create s.namespace (new_secret name s.namespace key value)
  write_key key value name (some secret) =
      api.update s.namespace
        (record secret { data_map = some (insert key value (data_of secret.data_map)) })

  abbrev pub put_in : String → String → String → Op S (Unit {0})
  put_in key value name = api.get s.namespace name >>= write_key key value name

  abbrev pub erase_data : String → Secret → Option Data → Op S (Unit {0})
  erase_data key secret none = return tt
  erase_data key secret (some d) =
      api.update s.namespace (record secret { data_map = some (erase key d) })

  abbrev pub erase_key : String → Option Secret → Op S (Unit {0})
  erase_key key none = return tt
  erase_key key (some secret) = erase_data key secret secret.data_map

  abbrev pub delete_in : String → String → Op S (Unit {0})
  delete_in key name = api.get s.namespace name >>= erase_key key

  -- Get, Put, Delete
  unfoldable pub get : String → String → Op S (Option String)
  get user_id key = lift (secret_name s user_id) >>= get_in key

  unfoldable pub put : String → String → String → Op S (Unit {0})
  put user_id key value = lift (secret_name s user_id) >>= put_in key value

  unfoldable pub delete : String → String → Op S (Unit {0})
  delete user_id key = lift (secret_name s user_id) >>= delete_in key

  abbrev pub kubernetes_store : Store S
  kubernetes_store = record { get = get; put = put; delete = delete }

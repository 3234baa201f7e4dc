-- ===== src/Serviceinfo/Index.antt =====
-- internal/serviceinfo/serviceinfo.go: the services in a secret store, and the index of their ids.
-- encoding/json is a parameter.
use scia.Base.{
  String, List, [], ◌∷◌, ◌++◌, Bool, true, false, not, ◌&&◌, ◌||◌, ◌==◌, contains, Option, none,
  some, Result, ok, err, errorf, str, if◌then◌else◌,
}
use scia.Config.Types.{ServiceConfig}
use scia.Config.Ids.{is_set}
use scia.Config.Platform.{Platform}
use scia.Go.{trim_space, is_some}
use scia.Secrets.Store.{Op, Store, lift, return, ◌>>=◌, ◌>>◌}
use scia.Serviceinfo.Hosts.{host_rule}
use scia.Serviceinfo.Normalize.{normalize, sanitize_for_client}

pub record StoredService : Type 0 where
  pub id : String
  pub service : ServiceConfig

pub record Json : Type 0 where
  pub marshal_ids : List String → String
  pub unmarshal_ids : String → Result (List String)
  pub marshal_service : StoredService → String
  pub unmarshal_service : String → Result StoredService

abbrev pub secret_key : String
secret_key = "_scia_service_config_v1"

abbrev pub index_credential_id : String
index_credential_id = "scia-service-metadata"

abbrev pub index_secret_key : String
index_secret_key = "service_ids_v1"

-- The loop of ListIDs: ids without white space around them, each once.
unfoldable pub distinct_ids : List String → List String → List String
distinct_ids seen [] = []
distinct_ids seen (id ∷ ids) =
    let skipped = distinct_ids seen ids in
    let added = distinct_ids (trim_space id ∷ seen) ids in
    if trim_space id == "" || contains seen (trim_space id) then skipped else trim_space id ∷ added

module _ {S : Type 0} (p : Platform) (json : Json) (store : Store S) where
  abbrev pub ids_of : Option String → Op S (List String)
  ids_of none = return []
  ids_of (some raw) = lift (json.unmarshal_ids raw) >>= λ ids. return (distinct_ids [] ids)

  -- ListIDs
  unfoldable pub list_ids : Op S (List String)
  unfolding distinct_ids
  list_ids = store.get index_credential_id index_secret_key >>= ids_of

  -- AddToIndex
  unfoldable pub add_to_index : String → Op S (Unit {0})
  unfolding list_ids
  add_to_index given =
      let id = trim_space given in
      if id == ""
      then lift (err (errorf "service id is required" []))
      else list_ids >>= λ ids.
          if contains ids id
          then return tt
          else store.put index_credential_id index_secret_key (json.marshal_ids (ids ++ id ∷ []))

  -- Put
  unfoldable pub put : String → ServiceConfig → Op S (Unit {0})
  unfolding add_to_index
  put given service =
      let id = trim_space given in
      if id == ""
      then lift (err (errorf "service id is required" []))
      else lift (normalize p id service) >>= λ normalized.
          store.put id secret_key
            (json.marshal_service (record { id = id; service = sanitize_for_client normalized }))
          >> add_to_index id

  abbrev pub check_id : String → StoredService → Result StoredService
  check_id id stored =
      if is_set stored.id && not (stored.id == id)
      then err (errorf "stored service id %q does not match %q" (str stored.id ∷ str id ∷ []))
      else ok stored

  abbrev pub service_of : String → Option String → Op S (Option ServiceConfig)
  service_of id none = return none
  service_of id (some raw) = lift (json.unmarshal_service raw) >>= λ stored.
      lift (check_id id stored) >>= λ checked.
      lift (normalize p id checked.service) >>= λ normalized. return (some normalized)

  -- Get
  unfoldable pub get : String → Op S (Option ServiceConfig)
  get given =
      let id = trim_space given in
      if id == "" then return none else store.get id secret_key >>= service_of id

  -- The loop of MatchingStoredIDs.
  abbrev pub keep_if : Bool → String → List String → List String
  keep_if true id ids = id ∷ ids
  keep_if false id ids = ids

  abbrev pub matches? : Option ServiceConfig → String → String → Bool
  matches? none host path = false
  matches? (some service) host path = is_some (host_rule service host path)

  unfoldable pub matching_ids : List String → String → String → Op S (List String)
  unfolding get host_rule
  matching_ids [] host path = return []
  matching_ids (id ∷ ids) host path = get id >>= λ service.
      matching_ids ids host path >>= λ rest. return (keep_if (matches? service host path) id rest)

  -- MatchingStoredIDs
  unfoldable pub matching_stored_ids : String → String → Op S (List String)
  unfolding list_ids matching_ids
  matching_stored_ids host path = list_ids >>= λ ids. matching_ids ids host path

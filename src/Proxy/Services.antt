-- ===== src/Proxy/Services.antt =====
-- internal/proxy/server.go and internal/serviceinfo/serviceinfo.go: the services of a request, from the
-- configuration, the secret store and the metadata endpoint. The HTTP client is a parameter.
use Prim.Native.String.{compare}
use Prim.Native.Nat.{Ordering}
use scia.Base.{
  ℕ, String, List, [], ◌∷◌, ◌++◌, Bool, true, false, not, ◌&&◌, ◌||◌, ◌==◌, contains, is_empty,
  Option, none, some, Result, ok, err, errorf, int, if◌then◌else◌, ltb,
}
use scia.Config.Types.{Config, ServicesConfig, ServiceConfig}
use scia.Config.Env.{header_value_from_env}
use scia.Config.Ids.{is_set}
use scia.Config.Platform.{Platform}
use scia.Go.{trim_space, contains_text, is_some}
use scia.Secrets.Store.{Op, Store, lift, return, ◌>>=◌, ◌>>◌}
use scia.Serviceinfo.Hosts.{host_rule, host_matches}
use scia.Serviceinfo.Index.{Json, StoredService, list_ids, get, put, matching_stored_ids}
use scia.Serviceinfo.Normalize.{normalize}

-- sort.Strings
unfoldable pub insert_sorted : String → List String → List String
insert_sorted a [] = a ∷ []
insert_sorted a (b ∷ l) =
    let rest = insert_sorted a l in elim (compare a b) [ Ordering.gt ↦ b ∷ rest | _ ↦ a ∷ b ∷ l ]

unfoldable pub sort_strings : List String → List String
unfolding insert_sorted
sort_strings [] = []
sort_strings (a ∷ l) = insert_sorted a (sort_strings l)

unfoldable pub ids_with_rule : ServicesConfig → String → String → List String
unfolding host_rule
ids_with_rule [] host path = []
ids_with_rule ((id, s) ∷ services) host path =
    let rest = ids_with_rule services host path in
    if is_some (host_rule s host path) then id ∷ rest else rest

-- matchingConfiguredServiceIDs
unfoldable pub matching_configured_service_ids : Config → String → String → List String
unfolding ids_with_rule sort_strings
matching_configured_service_ids cfg host path =
    sort_strings (ids_with_rule cfg.server.services host path)

-- canFetchServiceMetadataList
unfoldable pub can_fetch_service_metadata_list : (String → String) → Config → Bool
unfolding header_value_from_env contains_text
can_fetch_service_metadata_list getenv cfg =
    let url = header_value_from_env getenv cfg.server.oauth.metadata_url in
    is_set url && not (contains_text url "{service}")

-- The stored ids that the configuration has not given.
unfoldable pub without_seen : List String → List String → List String
without_seen seen [] = []
without_seen seen (id ∷ ids) =
    let rest = without_seen seen ids in if contains seen id then rest else id ∷ rest

-- serviceListURL
unfoldable pub service_list_url : Platform → String → Result String
service_list_url p given =
    let url = trim_space given in
    if url == ""
    then err (errorf "metadataUrl is required" [])
    else if contains_text url "{service}"
    then err (errorf "metadataUrl with {service} cannot be used for service list" [])
    else elim (p.parse_url url) [
      | none ↦ err (errorf "%w" [])
      | some u ↦
          if not (u.scheme == "http" || u.scheme == "https")
          then err (errorf "metadataUrl must use http or https scheme" [])
          else if u.host == ""
          then err (errorf "metadataUrl must include a host" [])
          else ok u.text
    ]

-- The answer to a GET: its status, and its body as a list of services where it is one.
pub record Listing : Type 0 where
  pub status : ℕ
  pub services : Result (List StoredService)

unfoldable pub normalize_listing : Platform → List StoredService → Result (List StoredService)
unfolding normalize
normalize_listing p [] = ok []
normalize_listing p (item ∷ items) =
    let id = trim_space item.id in
    let rest = normalize_listing p items in
    if id == ""
    then err (errorf "metadata service id is required" [])
    else elim (normalize p id item.service) [
      | err e ↦ err e
      | ok s ↦ elim rest [
        | err e ↦ err e
        | ok services ↦ ok (record { id = id; service = s } ∷ services)
      ]
    ]

abbrev listed : Platform → Listing → Result (List StoredService)
listed p l =
    if ltb l.status 200 || ltb 299 l.status
    then err (errorf "metadata endpoint returned %s" (int l.status ∷ []))
    else elim l.services [ err e ↦ err e | ok items ↦ normalize_listing p items ]

module _ {S : Type 0} (p : Platform) (json : Json) (fetch : String → String → Op S Listing)
    (store : Store S) where
  -- FetchAll, whose `fetch` takes the endpoint and the bearer token
  unfoldable pub fetch_all : String → String → Op S (List StoredService)
  unfolding service_list_url normalize_listing
  fetch_all url token =
      lift (service_list_url p url) >>= λ endpoint. fetch endpoint token >>= λ l. lift (listed p l)

  unfoldable pub put_all : List StoredService → Op S (Unit {0})
  put_all [] = return tt
  put_all (item ∷ items) = put p json store item.id item.service >> put_all items

  -- fetchAndCacheServiceMetadata
  unfoldable pub fetch_and_cache_service_metadata : Config → Op S (Unit {0})
  unfolding fetch_all put_all
  fetch_and_cache_service_metadata cfg =
      fetch_all (header_value_from_env p.getenv cfg.server.oauth.metadata_url)
        (header_value_from_env p.getenv cfg.server.oauth.metadata_token)
      >>= put_all

  -- serviceIDsForRequest
  abbrev fetch_if_none : Config → String → String → List String → Op S (List String)
  fetch_if_none cfg host path ids =
      if is_empty ids && can_fetch_service_metadata_list p.getenv cfg
      then (fetch_and_cache_service_metadata cfg >>= λ _.
          matching_stored_ids p json store host path >>= λ stored. return (ids ++ stored))
      else return ids

  unfoldable pub service_ids_for_request :
      Config → List String → String → String → Op S (List String)
  unfolding matching_configured_service_ids without_seen fetch_and_cache_service_metadata
  service_ids_for_request cfg explicit host path =
      if not (is_empty explicit)
      then return explicit
      else let configured = matching_configured_service_ids cfg host path in
        matching_stored_ids p json store host path >>= λ stored.
        fetch_if_none cfg host path (configured ++ without_seen configured stored)

  abbrev matches_host : Option ServiceConfig → String → Bool
  matches_host none host = false
  matches_host (some s) host = host_matches s host

  -- The loop over the stored services in shouldMITMForServices.
  unfoldable pub any_stored : List String → String → Op S Bool
  any_stored [] host = return false
  any_stored (id ∷ ids) host = get p json store id >>= λ service.
      if matches_host service host then return true else any_stored ids host

  unfoldable pub any_configured : ServicesConfig → String → Bool
  any_configured [] host = false
  any_configured ((id, s) ∷ services) host = host_matches s host || any_configured services host

  abbrev stored_match : String → Op S Bool
  stored_match host = list_ids p json store >>= λ ids. any_stored ids host

  -- shouldMITMForServices
  unfoldable pub should_mitm_for_services : Config → List String → String → Op S Bool
  unfolding any_stored any_configured fetch_and_cache_service_metadata
  should_mitm_for_services cfg explicit host =
      if not (is_empty explicit) || any_configured cfg.server.services host
      then return true
      else stored_match host >>= λ found.
          if found
          then return true
          else if can_fetch_service_metadata_list p.getenv cfg
          then (fetch_and_cache_service_metadata cfg >>= λ _. stored_match host)
          else return false

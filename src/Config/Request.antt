-- ===== src/Config/Request.antt =====
-- config.go: targets, paths, proxy headers and bearer tokens of a request, and secret references.
pub mod Laws
use Prim.Native.String.{◌++◌}
use scia.Base.{
  String, List, [], ◌∷◌, Bool, true, false, ◌==◌, Option, none, some, Result, ok, err, errorf, str,
  if◌then◌else◌,
}
use scia.Config.Env.{header_value_from_env}
use scia.Config.Ids.{is_set}
use scia.Go.{trim_prefix, clean_rooted, cut}
use scia.Go.Http.{Header, header_get, header_del, Url, is_abs, Request}

-- NormalizePath
unfoldable pub normalize_path : String → String
unfolding clean_rooted trim_prefix
normalize_path value = if value == "" then "/" else clean_rooted (trim_prefix value "/")

-- TargetURL
unfoldable pub target_of : Url → String → Result Url
target_of u host =
    if is_abs u
    then ok (record u { path = normalize_path u.path; raw_path = "" })
    else if host == ""
    then err (errorf "missing host" [])
    else ok (record {
      scheme = "http";
      host = host;
      path = normalize_path u.path;
      raw_path = "";
      raw_query = u.raw_query;
    })

unfoldable pub target_url : Request → Result Url
unfolding target_of normalize_path
target_url r = elim r.url [
  | none ↦ err (errorf "missing request URL" [])
  | some u ↦ target_of u r.host
]

unfoldable pub del_all : List String → Header → Header
unfolding header_del
del_all [] h = h
del_all (name ∷ names) h = del_all names (header_del h name)

abbrev pub proxy_headers : List String
proxy_headers = "Proxy-Authorization" ∷ "Proxy-Connection" ∷ "Connection" ∷ "Keep-Alive" ∷ []

-- CloneRequestWithoutProxyHeaders
unfoldable pub clone_request_without_proxy_headers : Request → Request
unfolding del_all
clone_request_without_proxy_headers r = record r {
  request_uri = "";
  header = del_all proxy_headers r.header;
}

-- AdminToken; `none` is `false`.
unfoldable pub admin_token : (String → String) → String → Option String
unfolding header_value_from_env
admin_token getenv value =
    let token = header_value_from_env getenv value in if is_set token then some token else none

-- IsAuthorizedBearerToken
unfoldable pub is_authorized_bearer_token : Request → String → Bool
unfolding header_get
is_authorized_bearer_token r token =
    if token == "" then false else header_get r.header "Authorization" == ("Bearer " ++ token)

-- SecretRefParts: namespace.provider.key
abbrev pub bad_ref : String → Result (String × String)
bad_ref ref =
    err (errorf "secret ref %q must be formatted as namespace.provider.key" (str ref ∷ []))

unfoldable pub ref_rest : String → String → Option (String × String) → Result (String × String)
ref_rest ref namespace none = bad_ref ref
ref_rest ref namespace (some (provider, key)) =
    if provider == ""
    then bad_ref ref
    else if key == ""
    then bad_ref ref
    else ok (namespace ++ ("." ++ provider), key)

unfoldable pub ref_namespace : String → Option (String × String) → Result (String × String)
unfolding ref_rest cut
ref_namespace ref none = bad_ref ref
ref_namespace ref (some (namespace, rest)) =
    if namespace == "" then bad_ref ref else ref_rest ref namespace (cut rest b'.')

unfoldable pub secret_ref_parts : String → Result (String × String)
unfolding ref_namespace cut
secret_ref_parts ref = ref_namespace ref (cut ref b'.')

-- ===== src/Serviceinfo/Fetch.antt =====
-- internal/serviceinfo/serviceinfo.go: Fetch, the metadata of one service. The client's GET and the
-- decoding of its body are a parameter.
use scia.Base.{
  ℕ, String, [], ◌∷◌, not, ◌&&◌, ◌||◌, ◌==◌, none, some, Result, ok, err, errorf, str, int, refuse,
  ◌>>=◌, ◌>>◌, if◌then◌else◌, ltb, nat_eq,
}
use scia.Config.Ids.{is_set}
use scia.Config.Platform.{Platform}
use scia.Config.Types.{ServiceConfig}
use scia.Go.{trim_space, contains_text, replace_all}
use scia.Secrets.Store.{Op, lift, ◌>>=◌ as bind}
use scia.Serviceinfo.Index.{StoredService}
use scia.Serviceinfo.Normalize.{normalize}

-- The answer to a GET: its status, and its body as a Response where it is one.
pub record Metadata : Type 0 where
  pub status : ℕ
  pub payload : Result StoredService

-- What net/url and the HTTP client give: url.PathEscape, URL.String() of the URL with a segment joined
-- to its path (path.Join), and the GET, with its endpoint and its bearer token.
pub record MetadataClient (S : Type 0) : Type 0 where
  pub path_escape : String → String
  pub join_path : String → String → String
  pub get : String → String → Op S Metadata

-- serviceMetadataURL
abbrev endpoint_of : Platform → (String → String → String) → String → String → Result String
endpoint_of p join_path url escaped = elim (p.parse_url url) [
  | none ↦ err (errorf "%w" [])
  | some u ↦
      if not (u.scheme == "http") && not (u.scheme == "https")
      then err (errorf "metadataUrl must use http or https scheme" [])
      else if u.host == ""
      then err (errorf "metadataUrl must include a host" [])
      else ok (join_path url escaped)
]

-- What Fetch returns of an answer.
unfoldable pub fetched : Platform → String → Metadata → Result ServiceConfig
unfolding normalize
fetched p id m = do
  refuse (nat_eq m.status 404) (errorf "metadata service %q not found" (str id ∷ []))
  refuse (ltb m.status 200 || ltb 299 m.status)
      (errorf "metadata endpoint returned %s" (int m.status ∷ []))
  payload ← m.payload
  refuse (is_set payload.id && not (payload.id == id))
      (errorf "metadata service id %q does not match %q" (str payload.id ∷ str id ∷ []))
  normalize p id payload.service

module _ {S : Type 0} (p : Platform) (client : MetadataClient S) where
  unfoldable pub service_metadata_url : String → String → Result String
  unfolding contains_text replace_all
  service_metadata_url given id =
      let url = trim_space given in
      if url == ""
      then err (errorf "metadataUrl is required" [])
      else if contains_text url "{service}"
      then ok (replace_all url "{service}" (client.path_escape id))
      else endpoint_of p client.join_path url (client.path_escape id)

  -- Fetch
  unfoldable pub fetch : String → String → String → Op S ServiceConfig
  unfolding service_metadata_url fetched
  fetch url token given =
      let id = trim_space given in
      if id == ""
      then lift (err (errorf "service id is required" []))
      else bind (lift (service_metadata_url url id))
          (λ endpoint. bind (client.get endpoint token) (λ m. lift (fetched p id m)))

-- ===== src/Oauth/Scopes.antt =====
-- internal/oauth/server.go: the scopes that a login asks for, and the ones that a frontend shows. The
-- decimal digits of a number (fmt.Sprintf) are a parameter.
use Prim.Native.String.{◌++◌}
use scia.Base.{
  ℕ, suc, ◌+◌, String, List, [], ◌∷◌, ◌++◌ as append, Bool, true, not, ◌&&◌, ◌||◌, ◌==◌, contains,
  is_empty, Option, none, some, Result, ok, err, errorf, str, ◌>>=◌, lookup, insert, if◌then◌else◌,
  nat_eq,
}
use scia.Config.Ids.{is_set}
use scia.Config.Types.{Config, OauthIntegrationScopeConfig, OauthIntegrationMetadataConfig}
use scia.Go.{fields_func, join, trim_space}
use scia.Oauth.Slugs.{slugify_scope_id}
use scia.Serviceinfo.Index.{distinct_ids}

-- firstNonEmpty
unfoldable pub first_non_empty : List String → String
first_non_empty [] = ""
first_non_empty (v ∷ vs) = let rest = first_non_empty vs in if is_set v then v else rest

-- oauthScopeSeparator
unfoldable pub oauth_scope_separator : String → String
oauth_scope_separator provider = if provider == "todoist" then "," else " "

-- splitScopeValues: the loop drops white space, empty values and repetitions, as ListIDs does.
abbrev is_scope_separator : ℕ → Bool
is_scope_separator c = nat_eq c b',' || nat_eq c b' ' || nat_eq c 10 || nat_eq c 9

unfoldable pub split_scope_values : String → List String
unfolding trim_space fields_func distinct_ids
split_scope_values raw =
    if trim_space raw == ""
    then []
    else distinct_ids [] (fields_func is_scope_separator (trim_space raw))

-- oauthIntegrationMetadata
abbrev pub no_metadata : OauthIntegrationMetadataConfig
no_metadata = record {
  name = "";
  icon_url = "";
  description = "";
  released = none;
  setup = [];
  scopes = [];
}

abbrev metadata_or :
    Option OauthIntegrationMetadataConfig
    → OauthIntegrationMetadataConfig
    → OauthIntegrationMetadataConfig
metadata_or none other = other
metadata_or (some m) other = m

unfoldable pub oauth_integration_metadata :
    Config → String → String → OauthIntegrationMetadataConfig
oauth_integration_metadata cfg id provider =
    let integrations = cfg.server.oauth.integrations in
    metadata_or (lookup id integrations) (metadata_or (lookup provider integrations) no_metadata)

-- integrationName
unfoldable pub integration_name : OauthIntegrationMetadataConfig → String → String
integration_name m provider =
    if is_set m.name
    then m.name
    else if provider == "google"
    then "Google"
    else if provider == "notion"
    then "Notion"
    else if provider == "todoist"
    then "Todoist"
    else if provider == "slack"
    then "Slack"
    else if provider == "github"
    then "GitHub"
    else provider

-- integrationReleased
unfoldable pub integration_released : OauthIntegrationMetadataConfig → Bool
integration_released m = elim m.released [ none ↦ true | some b ↦ b ]

-- scopeDefaultEnabled
unfoldable pub scope_default_enabled : OauthIntegrationScopeConfig → String → Bool
unfolding split_scope_values
scope_default_enabled scope configured = elim scope.enabled [
  | none ↦ contains (split_scope_values configured) scope.value
  | some b ↦ b
]

-- selectOAuthScopeGroup: the groups' map with the value selected.
abbrev select_in :
    List (String × String) → String → String → Option String → Result (List (String × String))
select_in groups value group none = ok (insert group value groups)
select_in groups value group (some selected) =
    if not (selected == value)
    then err (errorf "scope group %q can include only one selected scope" (str group ∷ []))
    else ok (insert group value groups)

unfoldable pub select_oauth_scope_group :
    List (String × String) → String → String → Result (List (String × String))
select_oauth_scope_group groups value group =
    if group == "" then ok groups else select_in groups value group (lookup group groups)

pub record AllowedScope : Type 0 where
  pub value : String
  pub group : String

-- What the loops of oauthScopeFromRequest keep.
pub record Selection : Type 0 where
  pub allowed : List (String × AllowedScope)
  pub selected : List String
  pub groups : List (String × String)

abbrev pub empty_selection : Selection
empty_selection = record { allowed = []; selected = []; groups = [] }

-- The second loop: the scopes of the request.
abbrev pub pick :
    String
    → Option AllowedScope
    → String
    → List (String × String)
    → (String → List (String × String) → Result (List String))
    → Result (List String)
pick id none scope groups next =
    err (errorf "scope %q is not allowed for %s" (str scope ∷ str id ∷ []))
pick id (some a) scope groups next =
    select_oauth_scope_group groups a.value a.group >>= λ groups'. next a.value groups'

unfoldable pub pick_requested :
    String
    → List (String × AllowedScope)
    → List (String × String)
    → List String
    → Result (List String)
unfolding select_oauth_scope_group
pick_requested id allowed groups [] = ok []
pick_requested id allowed groups (scope ∷ scopes) =
    pick id (lookup scope allowed) scope groups
      (λ value groups'. pick_requested id allowed groups' scopes >>= λ rest. ok (value ∷ rest))

abbrev pub selected_of : String → List String → String → Result String
selected_of id selected provider =
    if is_empty selected
    then err (errorf "no scopes are enabled for %s" (str id ∷ []))
    else ok (join (oauth_scope_separator provider) selected)

module _ (itoa : ℕ → String) where
  -- integrationScopeID, integrationScopeName
  abbrev slug_or_number : String → ℕ → String
  slug_or_number name i =
      if is_set name && is_set (slugify_scope_id name)
      then slugify_scope_id name
      else "scope-" ++ itoa (i + 1)

  unfoldable pub integration_scope_id : OauthIntegrationScopeConfig → ℕ → String
  unfolding first_non_empty slugify_scope_id
  integration_scope_id scope i =
      if is_set scope.id
      then scope.id
      else slug_or_number (first_non_empty (scope.name ∷ scope.label ∷ scope.id ∷ [])) i

  unfoldable pub integration_scope_name : OauthIntegrationScopeConfig → ℕ → String
  unfolding first_non_empty
  integration_scope_name scope i =
      first_non_empty (scope.name ∷ scope.label ∷ scope.id ∷ ("Scope " ++ itoa (i + 1)) ∷ [])

  -- The first loop: the scopes of the metadata, and the ones that are enabled where the request names
  -- none.
  abbrev pub allow : OauthIntegrationScopeConfig → ℕ → Selection → Selection
  allow scope i l =
      let a : AllowedScope = record { value = scope.value; group = scope.group } in
      record l {
        allowed = insert scope.value a (insert (integration_scope_id scope i) a l.allowed);
      }

  abbrev pub enable : OauthIntegrationScopeConfig → Selection → Result Selection
  enable scope l = select_oauth_scope_group l.groups scope.value scope.group >>= λ groups.
      ok (record l { selected = append l.selected (scope.value ∷ []); groups = groups })

  abbrev pub allow_one :
      Bool → String → OauthIntegrationScopeConfig → ℕ → Selection → Result Selection
  allow_one by_default configured scope i l =
      if scope.value == ""
      then ok l
      else if by_default && scope_default_enabled scope configured
      then enable scope (allow scope i l)
      else ok (allow scope i l)

  unfoldable pub allow_scopes :
      Bool → String → ℕ → List OauthIntegrationScopeConfig → Selection → Result Selection
  unfolding integration_scope_id scope_default_enabled select_oauth_scope_group
  allow_scopes by_default configured i [] l = ok l
  allow_scopes by_default configured i (scope ∷ scopes) l =
      allow_one by_default configured scope i l
      >>= allow_scopes by_default configured (suc i) scopes

  -- oauthScopeFromRequest
  abbrev pub requested_scopes : String → String → Selection → Result (List String)
  requested_scopes id requested l =
      if requested == ""
      then ok l.selected
      else if is_empty (split_scope_values requested)
      then err (errorf "scope must include at least one value" [])
      else pick_requested id l.allowed l.groups (split_scope_values requested)

  abbrev without_metadata : String → String → String → String
  without_metadata requested configured fallback =
      if is_set requested then requested else if is_set configured then configured else fallback

  abbrev pub listed_scope :
      List OauthIntegrationScopeConfig → String → String → String → String → Result String
  listed_scope scopes id provider requested configured =
      allow_scopes (requested == "") configured 0 scopes empty_selection >>= λ l.
      requested_scopes id requested l >>= λ selected. selected_of id selected provider

  unfoldable pub oauth_scope_from_request :
      Config → String → String → String → String → String → Result String
  unfolding oauth_integration_metadata allow_scopes pick_requested split_scope_values
      oauth_scope_separator join
  oauth_scope_from_request cfg id provider requested configured fallback =
      let scopes = (oauth_integration_metadata cfg id provider).scopes in
      if is_empty scopes
      then ok (without_metadata requested configured fallback)
      else listed_scope scopes id provider requested configured

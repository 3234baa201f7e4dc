-- ===== src/Tests/Config.antt =====
-- internal/config/config.go on concrete input.
use scia.Base.{[], ◌∷◌, String, List, true, false, some, ok, ◌≡◌, ◌≢◌, ◌↔◌, refl, All, ◌⊎◌}
use scia.Config.Lookup.{credential_by_id}
use scia.Config.Names.{valid_dynamic_user_id}
use scia.Config.Names.Laws.{IsDnsName, valid_dynamic_user_id_iff}
use scia.Config.Request.{normalize_path, target_url, secret_ref_parts}
use scia.Config.Request.Laws.{normalize_path-IsPlain, target_url_sound, IsRef}
use scia.Config.Validate.Endpoints.{HasEndpoints}
use scia.Config.Validate.Main.{IsValidConfig, validate-IsValid}
use scia.Config.Validate.References.{validate-credential_by_id}
use scia.Go.Http.{Request, Url, is_abs}
use scia.Go.PathLaws.{rooted, IsPlain}
use scia.Go.{is_some}
use scia.Tests.Fixture.{platform, given, cfg, validate-given, request, target}

validate-IsValid_example : IsValidConfig cfg × HasEndpoints platform cfg.server
validate-IsValid_example = validate-IsValid platform given cfg validate-given

validate-credential_by_id_example :
    All (λ r. All (λ id. is_some (credential_by_id cfg id) ≡ true) r.credentials) cfg.rules
validate-credential_by_id_example = validate-credential_by_id platform given cfg validate-given

valid_dynamic_user_id_iff_example : (valid_dynamic_user_id "ann-2" ≡ true) ↔ IsDnsName 63 "ann-2"
valid_dynamic_user_id_iff_example = valid_dynamic_user_id_iff "ann-2"

normalize_path-IsPlain_example :
    (ps : List String) × (normalize_path "/a/../b//c" ≡ rooted ps) × All IsPlain ps
normalize_path-IsPlain_example = normalize_path-IsPlain "/a/../b//c"

target_url-request : target_url request ≡ ok target
unfolding target_url
target_url-request = refl

target_url_sound_example :
    (u : Url) × (request.url ≡ some u)
    × (normalize_path target.path ≡ target.path)
    × (target.path ≡ normalize_path u.path)
    × (target.raw_query ≡ u.raw_query)
    × (((is_abs u ≡ true) × (target.scheme ≡ u.scheme) × (target.host ≡ u.host))
        ⊎ ((is_abs u ≡ false)
            × (target.scheme ≡ "http")
            × (target.host ≡ request.host)
            × (request.host ≢ "")))
target_url_sound_example = target_url_sound request target_url-request

-- A request that carries the client's password for the proxy.
abbrev with_password : Request
with_password = record request {
  header = ("Proxy-Authorization", "Basic x" ∷ []) ∷ ("Accept", "a" ∷ "b" ∷ []) ∷ request.header;
}

ref_parts_run : secret_ref_parts "ann.google.token.x" ≡ ok ("ann.google", "token.x")
unfolding secret_ref_parts
ref_parts_run = refl

-- The parts of a reference, of which the first two have no dot.
parts-IsRef : IsRef "ann.google.token" "ann" "google" "token"
parts-IsRef = record {
  whole = refl;
  namespace_shape = ((refl, (refl, (refl, tt))), λ h. cc);
  provider_shape = ((refl, (refl, (refl, (refl, (refl, (refl, tt)))))), λ h. cc);
  key_set = λ h. cc;
}

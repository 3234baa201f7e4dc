-- ===== src/Config/Inputs.antt =====
-- config.go: the parameter inputs of a generic service.
use scia.Base.{
  ℕ, suc, String, List, [], ◌∷◌, Bool, not, ◌&&◌, ◌||◌, ◌==◌, is_empty, contains, Result, ok, ◌>>◌,
  refuse, guard, errorf, str, int, if◌then◌else◌, for_each_from,
}
use scia.Config.Types.{ServiceConfig, ServiceInputConfig, ServiceHostRule}
use scia.Go.{is_some}

-- ServiceConfig.ParameterService
unfoldable pub parameter_service : ServiceConfig → Bool
parameter_service s = not (is_some s.oauth) && not (is_empty s.inputs)

-- The loop of ServiceConfig.InputSecretKeys; `seen` holds the keys already returned.
secret_keys_from : List String → List ServiceInputConfig → List String
secret_keys_from seen [] = []
secret_keys_from seen (input ∷ inputs) =
    let skipped = secret_keys_from seen inputs in
    let added = secret_keys_from (input.secret_key ∷ seen) inputs in
    if not (input.type == "secret") || input.secret_key == ""
    then skipped
    else if contains seen input.secret_key
    then skipped
    else input.secret_key ∷ added

-- ServiceConfig.InputSecretKeys
unfoldable pub input_secret_keys : ServiceConfig → List String
unfolding secret_keys_from
input_secret_keys s = secret_keys_from [] s.inputs

-- AllowedServiceSecretKey
unfoldable pub allowed_service_secret_key : ServiceConfig → String → Bool
unfolding input_secret_keys
allowed_service_secret_key service key = contains (input_secret_keys service) key

-- The loop over the inputs in ValidateServiceInputs.
check_inputs : String → ℕ → List String → List String → List ServiceInputConfig → Result (Unit {0})
check_inputs service_id i seen_ids seen_keys [] = ok tt
check_inputs service_id i seen_ids seen_keys (input ∷ inputs) = do
  refuse (input.id == "")
      (errorf "server.services[%q].inputs[%d].id is required" (str service_id ∷ int i ∷ []))
  refuse (contains seen_ids input.id) (
      errorf "server.services[%q].inputs[%d].id %q is duplicated"
        (str service_id ∷ int i ∷ str input.id ∷ []))
  guard (input.type == "secret") (
      errorf "server.services[%q].inputs[%d].type %q is not supported"
        (str service_id ∷ int i ∷ str input.type ∷ []))
  refuse (input.secret_key == "") (
      errorf "server.services[%q].inputs[%d].secretKey is required for type %q"
        (str service_id ∷ int i ∷ str input.type ∷ []))
  refuse (contains seen_keys input.secret_key) (
      errorf "server.services[%q].inputs[%d].secretKey %q is duplicated"
        (str service_id ∷ int i ∷ str input.secret_key ∷ []))
  check_inputs service_id (suc i) (input.id ∷ seen_ids) (input.secret_key ∷ seen_keys) inputs

-- The check of one host rule of a service with inputs.
check_host_input : String → ServiceConfig → ℕ → ServiceHostRule → Result (Unit {0})
unfolding allowed_service_secret_key
check_host_input service_id service i host =
    refuse
      (not (host.auth_method == "none") && not (allowed_service_secret_key service "access_token"))
      (errorf "server.services[%q].hosts[%d].authMethod %q requires an input with secretKey %q"
        (str service_id ∷ int i ∷ str host.auth_method ∷ str "access_token" ∷ []))

-- ValidateServiceInputs
unfoldable pub validate_service_inputs : String → ServiceConfig → Result (Unit {0})
unfolding check_inputs check_host_input
validate_service_inputs service_id service = if is_empty service.inputs then ok tt else do
  refuse (is_some service.oauth)
      (errorf "server.services[%q].inputs cannot be combined with oauth" (str service_id ∷ []))
  check_inputs service_id 0 [] [] service.inputs
  for_each_from (check_host_input service_id service) 0 service.hosts

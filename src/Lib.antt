-- ===== src/Lib.antt =====
-- Verification of scia, a proxy between agents and the services that they call: it decides by policy
-- on each request, waits for approvals, and injects credentials that the agents never see.
--
-- Parts, and the files that model them (paths from the root of the repository):
-- - Base, Go: shared helpers, and what scia uses of Go's strings, net, path, net/http and net/url.
--   Text is a list of characters; letters change case in the ASCII range.
-- - Config: internal/config/config.go. Config.Types has the records, Config.Env ExpandEnv,
--   Config.Validate Validate (one definition per block of the source, which composes them in its
--   order), Config.Lookup the lookups, Config.Names the shapes of ids, Config.Request TargetURL,
--   NormalizePath, the proxy headers, the admin token and secret references. A Go map is an
--   association list in the order of one `range` over it. The environment and url.Parse are the
--   parameters of Config.Platform.
-- - Policy: internal/policy/policy.go, Evaluate and its tests.
-- - Approval: internal/approval/manager.go, as a step relation of the goroutines that call Wait and
--   Resolve: an access to the map, a send and a receive are one step each, in any order.
-- - Secrets: internal/secrets. Secrets.Store is the interface, an operation of which passes the state
--   of the world behind it; Secrets.Ref is ref.go; Secrets.Kubernetes is kubernetes.go over an API
--   that is a parameter, with its documented behaviour as IsSecretsApi; Secrets.Cache is the cache of
--   envelope.go, with the time of a call as an argument. Its eviction loop runs on fuel, as many
--   rounds as there are entries; each round removes one, so that this is enough.
-- - Serviceinfo: internal/serviceinfo/serviceinfo.go over a store, with encoding/json a parameter.
-- - Auth: internal/auth/credential.go, the injector. Auth.Types has its state, the cache beside the
--   world that the store and the client act on, and what it takes from outside (the clock, the HTTP
--   client, the encodings, text/template). Auth.Secrets reads and stores secrets, Auth.Tokens asks
--   token endpoints and keeps the cache, Auth.Providers has a module per provider, Auth.Generic the
--   fields of a generic service, Auth.Inject Apply and Auth.Services ApplyServices. While a call waits
--   for a mutex, other calls change the state in a way that is a parameter. Durations wrap around at
--   64 bits. A failed type assertion on a cache entry, which panics, is an error.
-- - Proxy: internal/proxy/server.go. Proxy.Forward is serveForward with its neighbours (the injector,
--   the approvals, the services, the transport) as an interface; Proxy.Targets the tests on targets;
--   Proxy.Services the services of a request; Proxy.Admin the admin interface and Proxy.Tokens its
--   handler that stores a token.
-- - Oauth: internal/oauth/server.go. Oauth.State has the signed states of logins, with JSON, base64 and
--   HMAC as parameters, Oauth.Users the tokens of users without an entry in the configuration, one
--   request at a time,
--   Oauth.Scopes (with Oauth.Slugs) the choice of scopes, Oauth.Clients the providers' clients,
--   Oauth.Start the handlers that send a user to a login page, Oauth.Exchange the requests for tokens and
--   Oauth.Callback the handlers of the five providers to which a user comes back.
-- - Tests: the definitions and theorems on concrete input.
--
-- An error is its format and its arguments, before fmt.Errorf renders it. Contexts and logging are left
-- out. Not modelled: the other handlers of internal/oauth/server.go; the proxy's tunnels, interception
-- and web sockets, internal/proxy/ca.go, the SQL and HTTP stores and cmd/scia, which are input and output.
pub mod Base
pub mod Go
pub mod Config
pub mod Policy
pub mod Secrets
pub mod Serviceinfo
pub mod Approval
pub mod Auth
pub mod Oauth
pub mod Proxy
pub mod Tests

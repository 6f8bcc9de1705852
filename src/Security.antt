-- ===== src/Security.antt =====
-- packages/security: an identity with its roles, and where a request's identity comes from. The
-- verification of a token (PyJWT and the issuer's keys) is an argument; the environment is one too.
use Prim.Native.String.{slice, len}
use openmodelops.Base.{
  String, ◌≡◌, Bool, true, not, ◌||◌, Option, none, some, List, [], ◌∷◌, arith, starts_with, eq_iff,
  if◌then◌else◌, ◌==◌, eq_of_nat, eq_of_string, all, contains, is_empty, http_error, Result, ok,
  err, raise_if,
}

pub record Identity : Type 0 where
  pub subject : String
  pub roles : List String
  pub tenant : String

-- `required_set.issubset(identity.roles)` of `require_roles`
unfoldable pub has_roles : List String → Identity → Bool
has_roles required identity = all (contains identity.roles) required

-- `authorize` of platforms/factory/api.py
unfoldable pub authorize : Identity → String → Result (Unit {0})
authorize identity role =
    raise_if (not (has_roles (role ∷ []) identity)) (http_error 403 "required role missing")

-- The variables that `current_identity` reads.
pub record AuthEnvironment : Type 0 where
  pub auth_mode : Option String
  pub factory_env : Option String
  pub dev_actor : Option String
  pub dev_tenant : Option String
  pub oidc_issuer : Option String
  pub oidc_audience : Option String

-- `os.getenv(name, default)`
abbrev pub getenv : Option String → String → String
getenv none default = default
getenv (some s) default = s

abbrev pub developer_roles : List String
developer_roles =
    "factory-admin" ∷ "gate-evaluator" ∷ "release-approver" ∷ "sre-reader" ∷ "sre-proposer"
    ∷ "sre-approver" ∷ "sre-executor" ∷ "judge-reviewer" ∷ []

abbrev pub is_missing : Option String → Bool
is_missing none = true
is_missing (some s) = is_empty s

-- `authorization.removeprefix("Bearer ")`, of a header that begins so.
abbrev pub bearer_token : Option String → String
bearer_token none = ""
bearer_token (some header) = slice header 7 (len header)

-- `OIDCVerifier(issuer, audience).verify(token)`: `none` is an `AuthenticationError`.
verified : Option Identity → Result Identity
verified none = err (http_error 401 "invalid bearer token")
verified (some identity) = ok identity

unfoldable pub current_identity :
    (String → String → String → Option Identity) → AuthEnvironment → Option String → Result Identity
unfolding verified
current_identity verify env authorization =
    if getenv env.auth_mode "development" == "development"
    then (if getenv env.factory_env "development" == "production"
        then err (http_error 503 "development authentication is disabled in production")
        else ok (record {
          subject = getenv env.dev_actor "local-developer";
          roles = developer_roles;
          tenant = getenv env.dev_tenant "local";
        }))
    else if not (getenv env.auth_mode "development" == "oidc")
    then err (http_error 503 "unsupported authentication mode")
    else if is_missing env.oidc_issuer || is_missing env.oidc_audience
    then err (http_error 503 "OIDC is not configured")
    else if is_missing authorization || not (starts_with (getenv authorization "") "Bearer ")
    then err (http_error 401 "bearer token required")
    else verified (
        verify (getenv env.oidc_issuer "") (getenv env.oidc_audience "")
          (bearer_token authorization))

module _ (verify : String → String → String → Option Identity) (env : AuthEnvironment)
    (authorization : Option String) where
  -- In a production deployment an identity comes only from a verified bearer token: the mode is
  -- `oidc`, and the header is one that the verifier accepted.
  pub production_identity :
      {identity : Identity}
      → env.factory_env ≡ some "production"
      → current_identity verify env authorization ≡ ok identity
      → (env.auth_mode ≡ some "oidc")
        × (verify
              (getenv env.oidc_issuer "")
              (getenv env.oidc_audience "")
              (bearer_token authorization)
            ≡ some identity)
        × (starts_with (getenv authorization "") "Bearer " ≡ true)
  unfolding current_identity
  production_identity p h =
      let mode = getenv env.auth_mode "development" in
      ground (
        arith,
        eq_iff mode "development",
        eq_iff mode "oidc",
        eq_iff (getenv env.factory_env "development") "production",
        eq_iff "development" "oidc",
      )

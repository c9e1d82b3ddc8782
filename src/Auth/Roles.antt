-- ===== src/Auth/Roles.antt =====
-- The role hierarchy and the dependencies that guard endpoints.
use text.Mathlib.Text.{starts_with}
use aegis_soc.Common.{
  ℕ, String, ◌<>◌, Bool, ◌&&◌, Option, none, some, [], ◌∷◌, leb, if◌then◌else◌, truthy, truthy?,
}
use aegis_soc.Common.Dict.{Dict, lookup}
use aegis_soc.Auth.Web.{Response, body, http_error, ◌>>=◌}

pub data Role : Type 0 where
  analyst senior_analyst admin : Role

-- `Role.value`
unfoldable pub role_value : Role → String
role_value Role.analyst = "analyst"
role_value Role.senior_analyst = "senior_analyst"
role_value Role.admin = "admin"

abbrev pub role_hierarchy : Dict ℕ
role_hierarchy = ("analyst", 1) ∷ ("senior_analyst", 2) ∷ ("admin", 3) ∷ []

-- `ROLE_HIERARCHY.get(role, d)`
unfoldable pub rank : String → ℕ → ℕ
unfolding lookup
rank role d = elim (lookup role role_hierarchy) [ none ↦ d | some n ↦ n ]

unfoldable pub role_satisfies : String → String → Bool
unfolding rank
role_satisfies actual_role minimum_role = leb (rank minimum_role 999) (rank actual_role 0)

-- `TokenPayload`; the times `exp` and `iat` are checked by the token library
pub record TokenPayload : Type 0 where
  pub sub : String
  pub username : String
  pub role : String
  pub tenant_id : String

-- the four headers that the dependency reads
pub record Headers : Type 0 where
  pub authorization : Option String
  pub x_aegis_user : Option String
  pub x_aegis_role : Option String
  pub x_aegis_tenant : Option String

-- What is not the program's own: `str.lower`, `s.split(" ", 1)[1]`, and `decode_access_token`,
-- that is the token library with the service's secret and algorithm: `none` where it raises, with
-- the message that it raises.
pub record Tokens : Type 0 where
  pub lower : String → String
  pub after_space : String → String
  pub decode : String → Option TokenPayload
  pub decode_error : String → String

abbrev or_default : Option String → String
or_default none = "default"
or_default (some t) = if truthy t then t else "default"

-- the identity that the gateway has put into the headers
abbrev forwarded : String → String → Option String → TokenPayload
forwarded user role tenant = record {
  sub = user;
  username = user;
  role = role;
  tenant_id = or_default tenant;
}

abbrev text_of : Option String → String
text_of none = ""
text_of (some s) = s

module _ (tokens : Tokens) where
  -- the bearer token's branch
  unfoldable pub bearer_user : Option String → Response TokenPayload
  bearer_user none = http_error 401 "missing_credentials"
  bearer_user (some authorization) =
      if truthy authorization && starts_with (tokens.lower authorization) "bearer "
      then (let token = tokens.after_space authorization in
          elim (tokens.decode token) [
            | some payload ↦ body payload
            | none ↦ http_error 401 ("invalid_token: " <> tokens.decode_error token)
          ])
      else http_error 401 "missing_credentials"

  -- `current_user_dependency`
  unfoldable pub current_user : Headers → Response TokenPayload
  unfolding bearer_user
  current_user h =
      if truthy? h.x_aegis_user && truthy? h.x_aegis_role
      then body (forwarded (text_of h.x_aegis_user) (text_of h.x_aegis_role) h.x_aegis_tenant)
      else bearer_user h.authorization

  -- `require_roles`
  unfoldable pub require_roles : String → Headers → Response TokenPayload
  unfolding current_user role_satisfies
  require_roles minimum_role h = do
    user ← current_user h
    if role_satisfies user.role minimum_role
        then body user
        else http_error 403 ("requires_role>=" <> minimum_role)

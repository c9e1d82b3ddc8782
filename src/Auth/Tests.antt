-- ===== src/Auth/Tests.antt =====
-- The role checks at concrete inputs: a token library with one token.
use aegis_soc.Common.{◌≡◌, ◌⊎◌, ◌&&◌, refl, true, false, none, some, str_eq, truthy?, if◌then◌else◌}
use aegis_soc.Auth.Web.{body}
use aegis_soc.Auth.Roles.{role_satisfies, TokenPayload, Headers, Tokens, require_roles}
use aegis_soc.Auth.Laws.{
  IsKnown, FromToken, FromHeaders, role_satisfies-IsKnown, require_roles_sound,
}

abbrev ana : TokenPayload
ana = record { sub = "ana"; username = "ana"; role = "admin"; tenant_id = "default" }

abbrev tokens : Tokens
tokens = record {
  lower = λ s. if str_eq s "Bearer t" then "bearer t" else s;
  after_space = λ s. "t";
  decode = λ t. if str_eq t "t" then some ana else none;
  decode_error = λ t. "signature";
}

abbrev with_token : Headers
with_token = record {
  authorization = some "Bearer t";
  x_aegis_user = none;
  x_aegis_role = none;
  x_aegis_tenant = none;
}

admin-analyst : role_satisfies "admin" "analyst" ≡ true
unfolding role_satisfies
admin-analyst = refl

role_satisfies-IsKnown_example : IsKnown "admin" × IsKnown "analyst"
role_satisfies-IsKnown_example = role_satisfies-IsKnown "admin" "analyst" admin-analyst

let_in : require_roles tokens "senior_analyst" with_token ≡ body ana
unfolding require_roles
let_in = refl

require_roles_sound_example :
    (role_satisfies ana.role "senior_analyst" ≡ true)
    × (FromHeaders with_token ana
        ⊎ (((truthy? with_token.x_aegis_user && truthy? with_token.x_aegis_role) ≡ false)
            × FromToken tokens with_token.authorization ana))
require_roles_sound_example = require_roles_sound tokens "senior_analyst" with_token ana let_in

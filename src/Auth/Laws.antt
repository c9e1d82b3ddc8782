-- ===== src/Auth/Laws.antt =====
-- What the role checks let through.
use text.Mathlib.Text.{starts_with}
use aegis_soc.Common.{
  ℕ, String, ◌≡◌, ◌⊎◌, inl, inr, refl, true, false, Option, none, some, arith, str_eq_iff, truthy,
  truthy?, Bool-cases, ◌&&◌, ap, ◌∙◌,
}
use aegis_soc.Auth.Web.{Response, body, http_error}
use aegis_soc.Auth.Roles.{
  role_satisfies, rank, TokenPayload, Headers, Tokens, bearer_user, require_roles,
}

abbrev pub IsKnown : String → Type 0
IsKnown s = (s ≡ "analyst") ⊎ (s ≡ "senior_analyst") ⊎ (s ≡ "admin")

-- A user who passes the check for any minimum role, known or not, has a role of the hierarchy, and
-- the minimum is one too: an unknown role passes no check, and nobody passes an unknown minimum.
pub role_satisfies-IsKnown :
    (actual minimum : String)
    → role_satisfies actual minimum ≡ true
    → IsKnown actual × IsKnown minimum
unfolding role_satisfies
role_satisfies-IsKnown actual minimum h = ground (
  arith,
  str_eq_iff "analyst" actual,
  str_eq_iff "senior_analyst" actual,
  str_eq_iff "admin" actual,
  str_eq_iff "analyst" minimum,
  str_eq_iff "senior_analyst" minimum,
  str_eq_iff "admin" minimum,
)

-- Roles are transitive.
pub role_satisfies_trans :
    (a b c : String)
    → role_satisfies a b ≡ true
    → role_satisfies b c ≡ true
    → role_satisfies a c ≡ true
unfolding role_satisfies
role_satisfies_trans a b c h k = ground (arith, rank_bounds b)
  where
    rank_bounds : (s : String) → (rank s 999 ≡ rank s 0) ⊎ ((rank s 0 ≡ 0) × (rank s 999 ≡ 999))
    rank_bounds s = ground arith

truthy?-text :
    (o : Option String) → truthy? o ≡ true → (s : String) × (o ≡ some s) × (truthy s ≡ true)
truthy?-text none h = cc h
truthy?-text (some s) h = (s, refl, h)

Response-cases :
    {A : Type 0} (r : Response A)
    → ((a : A) × (r ≡ body a)) ⊎ ((s : ℕ) × (d : String) × (r ≡ http_error s d))
Response-cases (body a) = inl (a, refl)
Response-cases (http_error s d) = inr (s, d, refl)

-- The user whom an Authorization header proves: one that the token library decodes from its token.
abbrev pub FromToken : Tokens → Option String → TokenPayload → Type 0
FromToken tokens authorization user =
    (a : String) × (authorization ≡ some a)
    × (starts_with (tokens.lower a) "bearer " ≡ true)
    × (tokens.decode (tokens.after_space a) ≡ some user)

-- The user whom the gateway's headers name.
abbrev pub FromHeaders : Headers → TokenPayload → Type 0
FromHeaders h user =
    (truthy user.sub ≡ true)
    × (truthy user.role ≡ true)
    × (h.x_aegis_user ≡ some user.sub)
    × (h.x_aegis_role ≡ some user.role)
    × (user.username ≡ user.sub)

bearer_user-FromToken :
    (tokens : Tokens) (o : Option String) (user : TokenPayload)
    → bearer_user tokens o ≡ body user
    → FromToken tokens o user
unfolding bearer_user
bearer_user-FromToken tokens none user e = cc
bearer_user-FromToken tokens (some a) user e = (a, refl, ground arith, ground arith)

-- A user who gets past `require_roles` has a role that satisfies the minimum. Where the user header
-- and the role header are both there and not empty, they are the user's name and role; else the
-- user is the one that the token library decodes from the bearer token of this request.
pub require_roles_sound :
    (tokens : Tokens) (minimum : String) (h : Headers) (user : TokenPayload)
    → require_roles tokens minimum h ≡ body user
    → (role_satisfies user.role minimum ≡ true)
      × (FromHeaders h user
          ⊎ (((truthy? h.x_aegis_user && truthy? h.x_aegis_role) ≡ false)
              × FromToken tokens h.authorization user))
unfolding require_roles
require_roles_sound tokens minimum h user e =
    elim (Bool-cases (truthy? h.x_aegis_user && truthy? h.x_aegis_role)) [
      | inl named ↦
          let (n, is_n, _) = truthy?-text h.x_aegis_user (ground (arith, named)) in
          let (r, is_r, _) = truthy?-text h.x_aegis_role (ground (arith, named)) in
          (ground (arith, is_n, is_r), inl (ground (arith, is_n, is_r)))
      | inr anonymous ↦ elim (Response-cases (bearer_user tokens h.authorization)) [
        | inl (u, r) ↦
            let same : u ≡ user = ground (arith, r) in
            (
              ground (arith, r),
              inr (anonymous, bearer_user-FromToken tokens h.authorization user (r ∙ ap body same)),
            )
        | inr (s, d, r) ↦ absurd (ground (arith, r))
      ]
    ]

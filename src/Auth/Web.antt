-- ===== src/Auth/Web.antt =====
-- The answer of an HTTP endpoint: a body, or an `HTTPException` with its status and detail.
use aegis_soc.Common.{ℕ, String, Bool, true, false}

pub data Response {ℓ} (A : Type ℓ) : Type ℓ where
  body : A → Response A
  http_error : ℕ → String → Response A

infixl 5 ◌>>=◌
abbrev pub ◌>>=◌ {ℓ κ} : {A : Type ℓ} {B : Type κ} → Response A → (A → Response B) → Response B
body a >>= f = f a
http_error s d >>= f = http_error s d

abbrev pub is_body {ℓ} : {A : Type ℓ} → Response A → Bool
is_body (body _) = true
is_body (http_error _ _) = false

-- ===== src/Approval/Monad.antt =====
-- A repository call: it reads and writes the tables, and may raise. What was written before a
-- raise stays written; undoing it is the business of the transaction around the call.
use aegis_soc.Common.{String, Option, none, some}
use aegis_soc.Approval.Records.{World}

pub data Error : Type 0 where
  -- `ValueError`, with its message
  value_error : String → Error
  -- `AttributeError`: `.get` of something that is no dict
  attribute_error : Error
  -- `IntegrityError`: a primary key that is there already
  integrity_error : Error

pub data Outcome {ℓ} (A : Type ℓ) : Type ℓ where
  ok : A → Outcome A
  raised : Error → Outcome A

abbrev pub App : Type 0 → Type 0
App A = World → Outcome A × World

module _ {A : Type 0} where
  abbrev pub pure : A → App A
  pure a w = (ok a, w)

  abbrev pub raise : Error → App A
  raise e w = (raised e, w)

  abbrev pub gets : (World → A) → App A
  gets f w = (ok (f w), w)

  -- a value that is computed outside the tables and may raise
  abbrev pub lift : Outcome A → App A
  lift o w = (o, w)

abbrev pub modify : (World → World) → App (Unit {0})
modify f w = (ok tt, f w)

infixl 5 ◌>>=◌ ◌>>◌
abbrev pub ◌>>=◌ : {A B : Type 0} → App A → (A → App B) → App B
◌>>=◌ m f w = let (r, w') = m w in elim r [ ok a ↦ f a w' | raised e ↦ raise e w' ]

abbrev pub ◌>>◌ : {A B : Type 0} → App A → App B → App B
m >> k = m >>= λ _. k

-- `if x is None: return None`, then the rest
abbrev pub or_none : {A B : Type 0} → Option A → (A → App (Option B)) → App (Option B)
or_none none f = pure none
or_none (some a) f = f a

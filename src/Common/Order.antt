-- ===== src/Common/Order.antt =====
-- Sorting by a number, stable as Python's `sorted`, and the greatest key.
use Prim.Native.Nat.{ℕ, ◌≤◌, Ordering}
use Prim.Native.String.{String, compare as compare_text}
use mathlib.Core.List.{List, [], ◌∷◌, Perm}
use mathlib.Core.List.Perm
use native.Mathlib.Omega.{arith}
use aegis_soc.Common.Tests.{leb, if◌then◌else◌, Bool-cases}
use aegis_soc.Common.Lists.{All, All-map}
use mathlib.Core.Logic.{inl, inr}

module _ {ℓ} {A : Type ℓ} (key : A → ℕ) where
  -- Puts `a` before the first element whose key is not greater.
  unfoldable pub insert_desc : A → List A → List A
  insert_desc a [] = a ∷ []
  insert_desc a (b ∷ l) = if leb (key b) (key a) then a ∷ b ∷ l else b ∷ insert_desc a l

module _ {ℓ} {A : Type ℓ} (key : A → ℕ) where
  -- `ORDER BY key DESC`: the greatest key first.
  unfoldable pub sort_desc : List A → List A
  sort_desc [] = []
  sort_desc (a ∷ l) = insert_desc key a (sort_desc l)

  abbrev pub IsDescending : List A → Type 0
  IsDescending [] = Unit
  IsDescending (a ∷ l) = All (λ b. key b ≤ key a) l × IsDescending l

  pub insert_desc-perm : (a : A) (l : List A) → Perm (insert_desc key a l) (a ∷ l)
  unfolding insert_desc
  insert_desc-perm a [] = Perm.refl _
  insert_desc-perm a (b ∷ l) = elim (Bool-cases (leb (key b) (key a))) [
    | inl le ↦ rw le (Perm.refl _)
    | inr gt ↦ rw gt (Perm.trans (Perm.cons b (insert_desc-perm a l)) (Perm.swap a b l))
  ]

  pub sort_desc-perm : (l : List A) → Perm (sort_desc l) l
  unfolding sort_desc
  sort_desc-perm [] = Perm.refl []
  sort_desc-perm (a ∷ l) =
      Perm.trans (insert_desc-perm a (sort_desc l)) (Perm.cons a (sort_desc-perm l))

  All-insert_desc :
      (n : ℕ) (a : A) (l : List A)
      → key a ≤ n
      → All (λ b. key b ≤ n) l
      → All (λ b. key b ≤ n) (insert_desc key a l)
  unfolding insert_desc
  All-insert_desc n a [] h hs = (h, tt)
  All-insert_desc n a (b ∷ l) h hs = ground (arith, All-insert_desc n a l h)

  insert_desc-IsDescending :
      (a : A) (l : List A) → IsDescending l → IsDescending (insert_desc key a l)
  unfolding insert_desc
  insert_desc-IsDescending a [] h = (tt, tt)
  insert_desc-IsDescending a (b ∷ l) h = elim (Bool-cases (leb (key b) (key a))) [
    | inl le ↦ rw le (
      (ground arith, All-map (λ c. key c ≤ key b) (λ c. key c ≤ key a) l (λ c p. ground arith) h.0),
      h,
    )
    | inr gt ↦
        rw gt (All-insert_desc (key b) a l (ground arith) h.0, insert_desc-IsDescending a l h.1)
  ]

  pub sort_desc-IsDescending : (l : List A) → IsDescending (sort_desc l)
  unfolding sort_desc
  sort_desc-IsDescending [] = tt
  sort_desc-IsDescending (a ∷ l) =
      insert_desc-IsDescending a (sort_desc l) (sort_desc-IsDescending l)

module _ {ℓ} {A : Type ℓ} (key : A → ℕ) where
  -- Puts `a` before the first element whose key is not smaller.
  unfoldable pub insert_by : A → List A → List A
  insert_by a [] = a ∷ []
  insert_by a (b ∷ l) = if leb (key a) (key b) then a ∷ b ∷ l else b ∷ insert_by a l

  -- `sorted(l, key=key)`
  unfoldable pub sorted : List A → List A
  sorted [] = []
  sorted (a ∷ l) = insert_by a (sorted l)

module _ {ℓ} {A : Type ℓ} (key : A → String) where
  -- Puts `a` before the first element whose text does not come earlier.
  unfoldable pub insert_by_text : A → List A → List A
  insert_by_text a [] = a ∷ []
  insert_by_text a (b ∷ l) = elim (compare_text (key b) (key a)) [
    | Ordering.lt ↦ b ∷ insert_by_text a l
    | _ ↦ a ∷ b ∷ l
  ]

  -- `l.sort(key=key)` on texts
  unfoldable pub sort_by_text : List A → List A
  sort_by_text [] = []
  sort_by_text (a ∷ l) = insert_by_text a (sort_by_text l)

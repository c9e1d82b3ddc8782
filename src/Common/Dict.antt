-- ===== src/Common/Dict.antt =====
-- A Python dict, or a table by its primary key, in insertion order.
use aegis_soc.Common.Texts.{str_eq, str_eq_iff}
use aegis_soc.Common.Tests.{if◌then◌else◌, Option-cases, Bool-cases}
use aegis_soc.Common.Lists.{all, length}
use Prim.Native.String.{String}
use mathlib.Core.Path.{◌≡◌, refl, sym}
use mathlib.Core.Logic.{inl, inr}
use mathlib.Core.Bool.{Bool, true, false, ◌||◌}
use mathlib.Core.Option.{Option, none, some}
use mathlib.Core.List.{List, [], ◌∷◌, ◌++◌, map}
use native.Mathlib.Omega.{arith}

abbrev pub Dict {ℓ} : Type ℓ → Type ℓ
Dict V = List (String × V)

module _ {ℓ} {V : Type ℓ} where
  -- `d.get(k)`
  unfoldable pub lookup : String → Dict V → Option V
  lookup k [] = none
  lookup k ((j, v) ∷ d) = if str_eq j k then some v else lookup k d

  -- `d[k] = v`
  unfoldable pub insert : String → V → Dict V → Dict V
  insert k v [] = (k, v) ∷ []
  insert k v ((j, w) ∷ d) = if str_eq j k then (k, v) ∷ d else (j, w) ∷ insert k v d

  -- `k in d`
  abbrev pub has_key : String → Dict V → Bool
  has_key k d = elim (lookup k d) [ none ↦ false | some _ ↦ true ]

  -- `d.values()`
  abbrev pub values : Dict V → List V
  values = map (λ e. e.1)

  pub lookup-insert :
      (k j : String) (v : V) (d : Dict V)
      → lookup j (insert k v d) ≡ (if str_eq k j then some v else lookup j d)
  unfolding lookup insert
  lookup-insert k j v [] = refl
  lookup-insert k j v ((i, w) ∷ d) =
      ground (arith, str_eq_iff k j, str_eq_iff i k, str_eq_iff i j, lookup-insert k j v d)

  pub lookup-insert_self : (k : String) (v : V) (d : Dict V) → lookup k (insert k v d) ≡ some v
  lookup-insert_self k v d = ground (arith, lookup-insert k k v d, str_eq_iff k k)

  -- A new key goes to the end.
  pub insert_new :
      (k : String) (v : V) (d : Dict V) → lookup k d ≡ none → insert k v d ≡ d ++ ((k, v) ∷ [])
  unfolding lookup insert
  insert_new k v [] h = refl
  insert_new k v ((j, w) ∷ d) h = ground (arith, insert_new k v d)

  -- What a lookup finds passes a test that every entry passes.
  pub lookup-all :
      (p : V → Bool) (k : String) (v : V) (d : Dict V)
      → all (λ e. p e.1) d ≡ true
      → lookup k d ≡ some v
      → p v ≡ true
  unfolding lookup
  lookup-all p k v [] h e = cc
  lookup-all p k v ((j, w) ∷ d) h e = ground (arith, lookup-all p k v d)

  -- The same, of a test of the keys as well.
  pub lookup-all_entries :
      (p : String × V → Bool) (k : String) (v : V) (d : Dict V)
      → all p d ≡ true
      → lookup k d ≡ some v
      → p (k, v) ≡ true
  unfolding lookup
  lookup-all_entries p k v [] h e = cc
  lookup-all_entries p k v ((j, w) ∷ d) h e = elim (Bool-cases (str_eq j k)) [
    | inl same ↦
        let same_key : j ≡ k = (str_eq_iff j k).0 same in
        let same_value : w ≡ v = ground (arith, same) in
        rw (sym same_key, sym same_value) (ground (arith, h))
    | inr other ↦ ground (arith, lookup-all_entries p k v d)
  ]

  -- `d[k] = g(d[k])`, where `k` is a key
  unfoldable pub adjust : String → (V → V) → Dict V → Dict V
  adjust k g d = elim (lookup k d) [ none ↦ d | some v ↦ insert k (g v) d ]

  abbrev pub map_some : (V → V) → Option V → Option V
  map_some g none = none
  map_some g (some v) = some (g v)

  pub lookup-adjust :
      (k j : String) (g : V → V) (d : Dict V)
      → lookup j (adjust k g d) ≡ (if str_eq k j then map_some g (lookup j d) else lookup j d)
  unfolding adjust
  lookup-adjust k j g d = elim (Option-cases (lookup k d)) [
    | inl absent ↦ ground (arith, absent, str_eq_iff k j)
    | inr (v, found) ↦ ground (arith, found, lookup-insert k j (g v) d, str_eq_iff k j)
  ]

  pub has_key-adjust :
      (k j : String) (g : V → V) (d : Dict V) → has_key j (adjust k g d) ≡ has_key j d
  has_key-adjust k j g d = ground (arith, lookup-adjust k j g d)

  pub length-values : (d : Dict V) → length (values d) ≡ length d
  length-values [] = refl
  length-values (e ∷ d) = omega (arith, length-values d)

  pub all-insert :
      (p : String × V → Bool) (k : String) (v : V) (d : Dict V)
      → p (k, v) ≡ true
      → all p d ≡ true
      → all p (insert k v d) ≡ true
  unfolding insert
  all-insert p k v [] h hs = ground (arith, h)
  all-insert p k v ((j, w) ∷ d) h hs = ground (arith, h, hs, all-insert p k v d)

  pub has_key-insert :
      (k j : String) (v : V) (d : Dict V) → has_key j (insert k v d) ≡ (str_eq k j || has_key j d)
  has_key-insert k j v d = ground (arith, lookup-insert k j v d)

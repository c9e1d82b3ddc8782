-- ===== src/Common/Sets.antt =====
-- Sets of texts, as lists: without repetition, in the order of the first occurrence, or sorted.
use Prim.Native.String.{String, compare as compare_text}
use Prim.Native.Nat.{Ordering}
use mathlib.Core.Path.{◌≡◌, refl, ap, ◌∙◌}
use mathlib.Core.Bool.{◌||◌}
use mathlib.Core.List.{List, [], ◌∷◌, ◌++◌}
use native.Mathlib.Omega.{arith}
use aegis_soc.Common.Tests.{if◌then◌else◌}
use aegis_soc.Common.Texts.{str_eq, str_eq_iff, contains}

-- a text put into a sorted list without repetition
unfoldable pub insert_text : String → List String → List String
insert_text s [] = s ∷ []
insert_text s (t ∷ l) = elim (compare_text s t) [
  | Ordering.lt ↦ s ∷ t ∷ l
  | Ordering.eq ↦ t ∷ l
  | Ordering.gt ↦ t ∷ insert_text s l
]

-- `sorted(set(l))`
unfoldable pub sorted_set : List String → List String
unfolding insert_text
sorted_set [] = []
sorted_set (s ∷ l) = insert_text s (sorted_set l)

contains-insert_text :
    (s x : String) (l : List String) → contains (insert_text s l) x ≡ (str_eq s x || contains l x)
unfolding insert_text
contains-insert_text s x [] = refl
contains-insert_text s x (t ∷ l) = ground (arith, contains-insert_text s x l, str_eq_iff s t)

pub contains-sorted_set : (x : String) (l : List String) → contains (sorted_set l) x ≡ contains l x
unfolding sorted_set
contains-sorted_set x [] = refl
contains-sorted_set x (s ∷ l) =
    contains-insert_text s x (sorted_set l) ∙ ap (λ b. str_eq s x || b) (contains-sorted_set x l)

pub contains-append :
    (x : String) (l m : List String) → contains (l ++ m) x ≡ (contains l x || contains m x)
contains-append x [] m = refl
contains-append x (s ∷ l) m = ground (arith, contains-append x l m)

-- `s.add(x)` of a set in the order of insertion
unfoldable pub add_to : List String → String → List String
add_to s x = if contains s x then s else s ++ (x ∷ [])

-- `s | t`
unfoldable pub union : List String → List String → List String
unfolding add_to
union s [] = s
union s (x ∷ t) = union (add_to s x) t

pub contains-add_to :
    (s : List String) (x y : String) → contains (add_to s x) y ≡ (contains s y || str_eq x y)
unfolding add_to
contains-add_to s x y = ground (arith, contains-append y s (x ∷ []), str_eq_iff x y)

pub contains-union :
    (s t : List String) (y : String) → contains (union s t) y ≡ (contains s y || contains t y)
unfolding union
contains-union s [] y = ground arith
contains-union s (x ∷ t) y = ground (arith, contains-union (add_to s x) t y, contains-add_to s x y)

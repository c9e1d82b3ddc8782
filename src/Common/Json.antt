-- ===== src/Common/Json.antt =====
-- JSON values, as in a Python `dict[str, Any]`. Lists of values and of entries are data types of
-- the block.
use Prim.Native.Nat.{ℕ, Ordering}
use Prim.Native.String.{String, compare as compare_text}
use mathlib.Core.Bool.{Bool}
use mathlib.Core.Option.{Option, none, some}
use aegis_soc.Common.Tests.{if◌then◌else◌}
use aegis_soc.Common.Texts.{str_eq}

mutual
  pub data Value : Type 0 where
    null : Value
    bool : Bool → Value
    num : ℕ → Value
    str : String → Value
    arr : Items → Value
    obj : Fields → Value

  pub data Fields : Type 0 where
    end : Fields
    field : String → Value → Fields → Fields

  pub data Items : Type 0 where
    no_items : Items
    item : Value → Items → Items

-- an entry put among sorted ones
unfoldable pub insert_field : String → Value → Fields → Fields
insert_field k v end = field k v end
insert_field k v (field j w fs) = elim (compare_text k j) [
  | Ordering.lt ↦ field k v (field j w fs)
  | Ordering.eq ↦ field k v (field j w fs)
  | Ordering.gt ↦ field j w (insert_field k v fs)
]

-- The same value with the entries of every dict in the order of their keys, as `json.dumps` writes
-- them with `sort_keys=True`.
mutual
  unfolding insert_field

  pub sort_value : Value → Value
  sort_value null = null
  sort_value (bool b) = bool b
  sort_value (num n) = num n
  sort_value (str s) = str s
  sort_value (arr l) = arr (sort_items l)
  sort_value (obj d) = obj (sort_fields d)

  pub sort_fields : Fields → Fields
  sort_fields end = end
  sort_fields (field k v fs) = insert_field k (sort_value v) (sort_fields fs)

  pub sort_items : Items → Items
  sort_items no_items = no_items
  sort_items (item v l) = item (sort_value v) (sort_items l)

-- `d.get(k)`, where a key that stands twice counts once
unfoldable pub get : String → Fields → Option Value
get k end = none
get k (field j v fs) = if str_eq j k then some v else get k fs

-- `d.get(k, v)`
abbrev pub get_or : String → Value → Fields → Value
get_or k v fs = elim (get k fs) [ none ↦ v | some w ↦ w ]

abbrev pub opt_str : Option String → Value
opt_str none = null
opt_str (some s) = str s

-- `d[k] = v`
unfoldable pub put : String → Value → Fields → Fields
put k v end = field k v end
put k v (field j w fs) = if str_eq j k then field k v fs else field j w (put k v fs)

-- `d.update(e)`, and `{**d, **e}`
unfoldable pub update : Fields → Fields → Fields
unfolding put
update d end = d
update d (field k v e) = update (put k v d) e

-- ===== src/Messaging/Bus.antt =====
-- The file-backed event bus (packages/common/aegis_common/kafka/bus.py). A topic is a file of
-- lines; a group's offset is the text of another file.
pub mod Delivery
use aegis_soc.Common.{
  ℕ, suc, ◌+◌, ◌-◌, String, ◌<>◌, Bool, true, false, Option, none, some, List, [], ◌∷◌, ◌++◌,
  if◌then◌else◌, ltb, leb, length,
}
use aegis_soc.Common.Dict.{Dict, lookup, insert}

-- a line of a topic's file: blank, no JSON text, or the JSON text of a record
pub data Line (R : Type 0) : Type 0 where
  blank : Line R
  invalid : Line R
  json : R → Line R

-- the files under the base directory: the topics, and the offsets by `topic__group`; `none` is a
-- text that `int` refuses
pub record EventBus (R : Type 0) : Type 0 where
  pub topics : Dict (List (Line R))
  pub offsets : Dict (Option ℕ)

-- the name that `_offset_path` gives the file
abbrev pub offset_path : (topic group : String) → String
offset_path topic group = topic <> "__" <> group

module _ {R : Type 0} where
  abbrev pub lines_of : Option (List (Line R)) → List (Line R)
  lines_of none = []
  lines_of (some ls) = ls

  -- `publish`, of the record that is made of key, value and time
  unfoldable pub publish : String → R → EventBus R → EventBus R
  unfolding lookup insert
  publish topic record_ bus = record bus {
    topics = insert topic (lines_of (lookup topic bus.topics) ++ (json record_ ∷ [])) bus.topics;
  }

  -- `_read_offset`
  unfoldable pub read_offset : (topic group : String) → EventBus R → ℕ
  unfolding lookup
  read_offset topic group bus = elim (lookup (offset_path topic group) bus.offsets) [
    | none ↦ 0
    | some text ↦ elim text [ none ↦ 0 | some n ↦ n ]
  ]

  -- `_write_offset`
  unfoldable pub write_offset : (topic group : String) → ℕ → EventBus R → EventBus R
  unfolding insert
  write_offset topic group offset bus = record bus {
    offsets = insert (offset_path topic group) (some offset) bus.offsets;
  }

  -- the loop of `poll`, at line `i`; `none` is the exception of `json_loads`
  unfoldable pub scan : (offset max_records i : ℕ) → List R → List (Line R) → Option (List R)
  scan offset max_records i records [] = some records
  scan offset max_records i records (line ∷ lines) =
      if ltb i offset then scan offset max_records (suc i) records lines else elim line [
        | blank ↦ scan offset max_records (suc i) records lines
        | invalid ↦ none
        | json r ↦
            if leb max_records (length (records ++ (r ∷ [])))
            then some (records ++ (r ∷ []))
            else scan offset max_records (suc i) (records ++ (r ∷ [])) lines
      ]

  -- `not records`
  abbrev pub is_empty : List R → Bool
  is_empty [] = true
  is_empty (_ ∷ _) = false

  -- `poll`; `none` is an exception
  unfoldable pub poll : (topic group : String) → ℕ → EventBus R → Option (List R × EventBus R)
  unfolding read_offset write_offset scan
  poll topic group max_records bus = elim (lookup topic bus.topics) [
    | none ↦ some ([], bus)
    | some lines ↦ elim (scan (read_offset topic group bus) max_records 0 [] lines) [
      | none ↦ none
      | some records ↦
          let new_offset = read_offset topic group bus + length records in
          some (records, if is_empty records then bus else write_offset topic group new_offset bus)
    ]
  ]

  -- `sum(1 for line in fh if line.strip())`
  unfoldable pub count_lines : List (Line R) → ℕ
  count_lines [] = 0
  count_lines (line ∷ lines) = elim line [ blank ↦ count_lines lines | _ ↦ suc (count_lines lines) ]

  -- `lag`
  unfoldable pub lag : (topic group : String) → EventBus R → ℕ
  unfolding read_offset count_lines
  lag topic group bus = elim (lookup topic bus.topics) [
    | none ↦ 0
    | some lines ↦ count_lines lines - read_offset topic group bus
  ]

-- ===== src/Messaging/Bus/Delivery.antt =====
-- A group that polls reads the records of a topic in order, without loss and without repetition.
use mathlib.Core.List.{append-nil}
use aegis_soc.Common.{
  ℕ, zero, suc, ◌+◌, ◌-◌, ◌≤◌, min, String, ◌≡◌, refl, sym, ap, ◌∙◌, Option, none, some, List, [],
  ◌∷◌, ◌++◌, arith, if◌then◌else◌, length, length-append, map, take, drop,
}
use aegis_soc.Common.Dict.{lookup, lookup-insert_self}
use aegis_soc.Messaging.Bus.{
  json, EventBus, read_offset, write_offset, offset_path, scan, is_empty, poll, count_lines, lag,
}

module _ {R : Type 0} where
  append_step : (acc : List R) (r : R) (l : List R) → (acc ++ (r ∷ [])) ++ l ≡ acc ++ (r ∷ l)
  append_step [] r l = refl
  append_step (a ∷ acc) r l = ap (λ x. a ∷ x) (append_step acc r l)

  -- From the offset on, records are collected until there are `m` of them.
  scan-take :
      (offset m i n : ℕ) (acc rs : List R)
      → offset ≤ i
      → m ≡ suc n + length acc
      → scan offset m i acc (map json rs) ≡ some (acc ++ take (suc n) rs)
  unfolding scan
  scan-take offset m i n acc [] h e = ap some (sym (append-nil acc))
  scan-take offset m i zero acc (r ∷ rs) h e = ground (arith, length-append acc (r ∷ []))
  scan-take offset m i (suc n) acc (r ∷ rs) h e = ground (
    arith,
    length-append acc (r ∷ []),
    append_step acc r (take (suc n) rs),
    scan-take offset m (suc i) n (acc ++ (r ∷ [])) rs,
  )

  -- The records before the offset are skipped.
  scan-skip :
      (offset m i k : ℕ) (rs : List R)
      → offset ≡ i + k
      → scan offset m i [] (map json rs) ≡ scan offset m (i + k) [] (map json (drop k rs))
  unfolding scan
  scan-skip offset m i zero rs e = ap (λ j. scan offset m j [] (map json rs)) (omega arith)
  scan-skip offset m i (suc k) [] e = refl
  scan-skip offset m i (suc k) (r ∷ rs) e = ground (arith, scan-skip offset m (suc i) k rs)

  drop-nil : (n : ℕ) → ◌≡◌ {A = List R} (drop {A = R} n []) []
  drop-nil zero = refl
  drop-nil (suc n) = refl

  drop-drop : (a b : ℕ) (l : List R) → drop (a + b) l ≡ drop b (drop a l)
  drop-drop zero b l = ap (λ n. drop n l) (omega arith)
  drop-drop (suc a) b [] = drop-nil (suc a + b) ∙ sym (drop-nil b)
  drop-drop (suc a) b (r ∷ l) =
      let shift : suc a + b ≡ suc (a + b) = omega arith in
      ap (λ n. drop n (r ∷ l)) shift ∙ drop-drop a b l

  -- A batch and what is left after it.
  take-drop-length : (n : ℕ) (l : List R) → take n l ++ drop (length (take n l)) l ≡ l
  take-drop-length zero l = refl
  take-drop-length (suc n) [] = refl
  take-drop-length (suc n) (r ∷ l) = ap (λ x. r ∷ x) (take-drop-length n l)

  -- The topic's file holds these records and no other line.
  abbrev pub Holds : String → List R → EventBus R → Type 0
  Holds topic rs bus = lookup topic bus.topics ≡ some (map json rs)

  -- the bus after a poll that returned `batch`
  abbrev moved : (topic group : String) → List R → EventBus R → EventBus R
  moved topic group batch bus =
      if is_empty batch
      then bus
      else write_offset topic group (read_offset topic group bus + length batch) bus

  moved-topics :
      (topic group : String) (batch : List R) (bus : EventBus R)
      → (moved topic group batch bus).topics ≡ bus.topics
  unfolding write_offset
  moved-topics topic group [] bus = refl
  moved-topics topic group (r ∷ batch) bus = refl

  moved-offset :
      (topic group : String) (batch : List R) (bus : EventBus R)
      → read_offset topic group (moved topic group batch bus)
        ≡ read_offset topic group bus + length batch
  unfolding write_offset read_offset
  moved-offset topic group [] bus = omega arith
  moved-offset topic group (r ∷ batch) bus =
      rw
        (
          read_offset,
          lookup-insert_self (offset_path topic group)
              (some (read_offset topic group bus + length (r ∷ batch))) bus.offsets,
        )
        refl

  -- A poll, of a topic whose file holds records and no other line and with `max_records` at least
  -- one, returns the next records after the group's offset, up to `max_records` of them, moves the
  -- offset past them, and leaves the topics alone.
  pub poll-next :
      (topic group : String) (m : ℕ) (rs : List R) (bus : EventBus R)
      → Holds topic rs bus
      → 1 ≤ m
      → let batch = take m (drop (read_offset topic group bus) rs) in
        (after : EventBus R) × (poll topic group m bus ≡ some (batch, after))
        × (after.topics ≡ bus.topics)
        × (read_offset topic group after ≡ read_offset topic group bus + length batch)
  unfolding poll
  poll-next topic group zero rs bus holds h = absurd (omega arith)
  poll-next topic group (suc n) rs bus holds h =
      let offset = read_offset topic group bus in
      let batch = take (suc n) (drop offset rs) in
      let scanned : scan offset (suc n) 0 [] (map json rs) ≡ some batch =
        scan-skip offset (suc n) 0 offset rs (omega arith)
        ∙ scan-take offset (suc n) (0 + offset) n [] (drop offset rs) (omega arith) (omega arith) in
      (
        moved topic group batch bus,
        rw (poll, holds, scanned) refl,
        moved-topics topic group batch bus,
        moved-offset topic group batch bus,
      )

  -- what `n` polls return together
  unfoldable pub drain : ℕ → (topic group : String) → ℕ → EventBus R → Option (List R × EventBus R)
  drain zero topic group m bus = some ([], bus)
  drain (suc n) topic group m bus = elim (poll topic group m bus) [
    | none ↦ none
    | some (batch, after) ↦ elim (drain n topic group m after) [
      | none ↦ none
      | some (later, final) ↦ some (batch ++ later, final)
    ]
  ]

  count_lines-json : (rs : List R) → count_lines (map json rs) ≡ length rs
  unfolding count_lines
  count_lines-json [] = refl
  count_lines-json (r ∷ rs) = ap suc (count_lines-json rs)

  length-drop : (n : ℕ) (l : List R) → length (drop n l) ≡ length l - n
  length-drop zero l = omega arith
  length-drop (suc n) [] = omega arith
  length-drop (suc n) (r ∷ l) = omega (arith, length-drop n l)

  length-take : (n : ℕ) (l : List R) → length (take n l) ≡ min n (length l)
  length-take zero l = omega arith
  length-take (suc n) [] = omega arith
  length-take (suc n) (r ∷ l) = omega (arith, length-take n l)

  nil_of_length : (l : List R) → length l ≤ 0 → l ≡ []
  nil_of_length [] h = refl
  nil_of_length (r ∷ l) h = absurd (omega arith)

  no_lag :
      (topic group : String) (rs : List R) (bus : EventBus R)
      → Holds topic rs bus
      → length (drop (read_offset topic group bus) rs) ≤ 0
      → lag topic group bus ≡ 0
  unfolding lag
  no_lag topic group rs bus holds few =
      rw (lag, holds, count_lines-json rs)
        (omega (arith, few, length-drop (read_offset topic group bus) rs))

  -- Of a topic whose file holds records and no other line, with batches of at least one: as many
  -- polls as there are unread records, or more, return exactly those, in order, without loss or
  -- repetition; then the group has no lag.
  pub drain-all :
      (n : ℕ) (topic group : String) (m : ℕ) (rs : List R) (bus : EventBus R)
      → Holds topic rs bus
      → 1 ≤ m
      → length (drop (read_offset topic group bus) rs) ≤ n
      → (after : EventBus R) × (drain n topic group m bus
          ≡ some (drop (read_offset topic group bus) rs, after))
        × (lag topic group after ≡ 0)
  unfolding drain lag
  drain-all zero topic group m rs bus holds h few =
      let l = drop (read_offset topic group bus) rs in
      (
        bus,
        ap (λ x. some (x, bus)) (sym (nil_of_length l few)),
        no_lag topic group rs bus holds few,
      )
  drain-all (suc n) topic group m rs bus holds h few =
      let (after, polled, topics, offset) = poll-next topic group m rs bus holds h in
      let l = drop (read_offset topic group bus) rs in
      let rest : drop (read_offset topic group after) rs ≡ drop (length (take m l)) l =
        ap (λ k. drop k rs) offset
        ∙ drop-drop (read_offset topic group bus) (length (take m l)) rs in
      let fewer : length (drop (read_offset topic group after) rs) ≤ n =
        rw (rest, length-drop (length (take m l)) l, length-take m l) (omega (arith, few, h)) in
      let (final, drained, done) =
        drain-all n topic group m rs after (ap (lookup topic) topics ∙ holds) h fewer in
      (final, rw (drain, polled, drained, rest, take-drop-length m l) refl, done)

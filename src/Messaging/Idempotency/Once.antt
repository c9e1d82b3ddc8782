-- ===== src/Messaging/Idempotency/Once.antt =====
-- A key is handled once, until it expires.
use aegis_soc.Common.{
  ℕ, ◌+◌, ◌≤◌, String, ◌≡◌, refl, ap, ◌∙◌, inl, inr, Bool, true, not, Option, none, some, List, [],
  ◌∷◌, ◌++◌, arith, if◌then◌else◌, ltb, str_eq, str_eq_iff, keep, Bool-cases, Option-cases,
}
use aegis_soc.Common.Dict.{Dict, lookup}
use aegis_soc.Messaging.Idempotency.{IdempotencyStore, seen_before, cleanup_expired}

-- What is done to the store: a message with a key arrives, or expired keys are deleted.
pub data Call : Type 0 where
  message : ℕ → String → Call
  cleanup : ℕ → Call

-- The messages that are handled, each with its time: those whose key was not seen before.
unfoldable pub handled : List Call → IdempotencyStore → List (String × ℕ)
unfolding seen_before cleanup_expired
handled [] store = []
handled (Call.message now key ∷ calls) store =
    let later = handled calls (seen_before now key store).1 in
    if (seen_before now key store).0 then later else (key, now) ∷ later
handled (Call.cleanup now ∷ calls) store = handled calls (cleanup_expired now store).1

abbrev pub time_of : Call → ℕ
time_of (Call.message now key) = now
time_of (Call.cleanup now) = now

-- All times are between `first` and `last`.
abbrev pub Between : (first last : ℕ) → List Call → Type 0
Between first last [] = Unit
Between first last (c ∷ calls) = (first ≤ time_of c) × (time_of c ≤ last) × Between first last calls

-- how many of the handled messages have the key
abbrev pub times_handled : String → List (String × ℕ) → ℕ
times_handled k [] = 0
times_handled k ((j, _) ∷ l) = (if str_eq j k then 1 else 0) + times_handled k l

pub lookup-append :
    (k j : String) (n : ℕ) (d : Dict ℕ)
    → lookup k (d ++ ((j, n) ∷ [])) ≡ (elim (lookup k d) as (λ _. Option ℕ) [
      | some v ↦ some v
      | none ↦ if str_eq j k then some n else none
    ])
unfolding lookup
lookup-append k j n [] = refl
lookup-append k j n ((i, m) ∷ d) = ground (arith, lookup-append k j n d)

lookup-keep :
    (k : String) (n : ℕ) (p : ℕ → Bool) (d : Dict ℕ)
    → p n ≡ true
    → lookup k d ≡ some n
    → lookup k (keep (λ e. p e.1) d) ≡ some n
unfolding lookup
lookup-keep k n p [] h e = cc
lookup-keep k n p ((j, m) ∷ d) h e = elim (Bool-cases (str_eq j k)) [
  | inl same ↦
      let value : m ≡ n = ground (arith, same) in
      let kept : p m ≡ true = rw value h in rw (kept, same) (ap some value)
  | inr other ↦ elim (Bool-cases (p m)) [
    | inl kept ↦ rw (kept, other) (lookup-keep k n p d h (ground (arith, other)))
    | inr gone ↦ rw gone (lookup-keep k n p d h (ground (arith, other)))
  ]
]

-- A key that was seen at `n` is not handled before it expires.
seen-not_handled :
    (k : String) (n first last : ℕ) (calls : List Call) (store : IdempotencyStore)
    → lookup k store.seen_keys ≡ some n
    → Between first last calls
    → last ≤ n + store.ttl_seconds
    → times_handled k (handled calls store) ≡ 0
unfolding handled seen_before cleanup_expired
seen-not_handled k n first last [] store e o h = refl
seen-not_handled k n first last (Call.message now key ∷ calls) store e o h =
    elim (Option-cases (lookup key store.seen_keys)) [
      | inl absent ↦
          let later =
            seen-not_handled k n first last calls
              (record store { seen_keys = store.seen_keys ++ ((key, now) ∷ []) })
              (lookup-append k key now store.seen_keys ∙ ground (arith, e)) o.2 h in
          ground (arith, absent, later, str_eq_iff key k)
      | inr (m, found) ↦ ground (arith, found, seen-not_handled k n first last calls store e o.2 h)
    ]
seen-not_handled k n first last (Call.cleanup now ∷ calls) store e o h =
    let unexpired : not (ltb (n + store.ttl_seconds) now) ≡ true = ground (arith, o, h) in
    seen-not_handled k n first last calls (cleanup_expired now store).1
      (lookup-keep k n (λ t. not (ltb (t + store.ttl_seconds) now)) store.seen_keys unexpired e) o.2
      h

-- Whatever the store holds at first: of the messages with one key that arrive over a time that is
-- no longer than `ttl_seconds`, at most one is handled, however often expired keys are deleted in
-- between.
pub handled_once :
    (k : String) (first last : ℕ) (calls : List Call) (store : IdempotencyStore)
    → Between first last calls
    → last ≤ first + store.ttl_seconds
    → times_handled k (handled calls store) ≤ 1
unfolding handled seen_before cleanup_expired
handled_once k first last [] store o h = omega arith
handled_once k first last (Call.message now key ∷ calls) store o h =
    elim (Option-cases (lookup key store.seen_keys)) [
      | inl absent ↦
          let after = record store { seen_keys = store.seen_keys ++ ((key, now) ∷ []) } in
          elim (Bool-cases (str_eq key k)) [
            | inl same ↦
                let key_absent : lookup k store.seen_keys ≡ none =
                  rw (← (str_eq_iff key k).0 same) absent in
                let seen : lookup k after.seen_keys ≡ some now =
                  lookup-append k key now store.seen_keys ∙ ground (arith, key_absent, same) in
                let later =
                  seen-not_handled k now first last calls after seen o.2 (omega (arith, o.0, h)) in
                ground (arith, absent, later)
            | inr other ↦ ground (arith, absent, other, handled_once k first last calls after o.2 h)
          ]
      | inr (m, found) ↦ ground (arith, found, handled_once k first last calls store o.2 h)
    ]
handled_once k first last (Call.cleanup now ∷ calls) store o h =
    handled_once k first last calls (cleanup_expired now store).1 o.2 h

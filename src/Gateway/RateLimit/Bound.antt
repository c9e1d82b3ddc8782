-- ===== src/Gateway/RateLimit/Bound.antt =====
-- No window of time holds more accepted calls than the limit.
use aegis_soc.Common.{
  ℕ, ◌+◌, ◌≤◌, String, ◌≡◌, refl, inl, inr, false, ◌&&◌, List, [], ◌∷◌, ◌++◌, arith, if◌then◌else◌,
  leb, length, str_eq, str_eq_iff, Bool-cases,
}
use aegis_soc.Common.Dict.{Dict, lookup, insert, lookup-insert}
use aegis_soc.Gateway.RateLimit.{RateLimiter, window_of, prune, allow}

-- how many of these times lie between `t` and `t + w`, both included
abbrev pub within : (w t : ℕ) → List ℕ → ℕ
within w t [] = 0
within w t (a ∷ l) = (if leb t a && leb a (t + w) then 1 else 0) + within w t l

within-append : (w t : ℕ) (l m : List ℕ) → within w t (l ++ m) ≡ within w t l + within w t m
within-append w t [] m = ground arith
within-append w t (a ∷ l) m = ground (arith, within-append w t l m)

within-length : (w t : ℕ) (l : List ℕ) → within w t l ≤ length l
within-length w t [] = ground arith
within-length w t (a ∷ l) = ground (arith, within-length w t l)

-- What is pruned at `now` lies in no window that reaches `now`.
within-prune : (w t now : ℕ) (l : List ℕ) → now ≤ t + w → within w t (prune w now l) ≡ within w t l
unfolding prune
within-prune w t now [] h = refl
within-prune w t now (a ∷ l) h = ground (arith, within-prune w t now l)

-- The accepted calls of a key, in order.
abbrev pub times_of : String → List (String × ℕ) → List ℕ
times_of k [] = []
times_of k ((j, now) ∷ log) = if str_eq j k then now ∷ times_of k log else times_of k log

times_of-append :
    (k : String) (l m : List (String × ℕ)) → times_of k (l ++ m) ≡ times_of k l ++ times_of k m
times_of-append k [] m = refl
times_of-append k (c ∷ l) m = ground (arith, times_of-append k l m)

-- One call, with the log of the accepted ones.
abbrev pub call : String × ℕ → RateLimiter × List (String × ℕ) → RateLimiter × List (String × ℕ)
call (key, now) (limiter, log) = (
  (allow now key limiter).1,
  if (allow now key limiter).0.0 then log ++ ((key, now) ∷ []) else log,
)

unfoldable pub serve :
    List (String × ℕ) → RateLimiter × List (String × ℕ) → RateLimiter × List (String × ℕ)
serve [] s = s
serve (c ∷ calls) s = serve calls (call c s)

-- The clock does not run backwards.
abbrev pub IsMonotone : ℕ → List (String × ℕ) → Type 0
IsMonotone last [] = Unit
IsMonotone last ((key, now) ∷ calls) = (last ≤ now) × IsMonotone now calls

-- Every window respects the limit, and one that reaches the last call is seen in the deque.
record IsBounded (m w last : ℕ) (s : RateLimiter × List (String × ℕ)) : Type 0 where
  max_requests : s.0.max_requests ≡ m
  window_seconds : s.0.window_seconds ≡ w
  bound : (k : String) (t : ℕ) → within w t (times_of k s.1) ≤ m
  seen :
      (k : String) (t : ℕ)
      → last ≤ t + w
      → within w t (times_of k s.1) ≤ within w t (window_of k s.0.hits)

window_of-insert :
    (k j : String) (v : List ℕ) (hits : Dict (List ℕ))
    → window_of j (insert k v hits) ≡ (if str_eq k j then v else window_of j hits)
unfolding window_of
window_of-insert k j v hits = ground (arith, lookup-insert k j v hits)

-- The log and the pruned window of the call's key.
seen_pruned :
    (m w last now : ℕ) (key : String) (limiter : RateLimiter) (log : List (String × ℕ)) (t : ℕ)
    → last ≤ now
    → IsBounded m w last (limiter, log)
    → now ≤ t + w
    → within w t (times_of key log)
      ≤ within w t (prune limiter.window_seconds now (window_of key limiter.hits))
seen_pruned m w last now key limiter log t later h reach =
    let past : last ≤ t + w = omega arith in
    rw h.window_seconds
      (ground (arith, h.seen key t past, within-prune w t now (window_of key limiter.hits) reach))

-- one of the two ways in which a call ends
refused-IsBounded :
    (m w last now : ℕ) (key : String) (limiter : RateLimiter) (log : List (String × ℕ))
    → last ≤ now
    → IsBounded m w last (limiter, log)
    → let window = prune limiter.window_seconds now (window_of key limiter.hits) in
      IsBounded m w now (record limiter { hits = insert key window limiter.hits }, log)
refused-IsBounded m w last now key limiter log later h = record {
  max_requests = h.max_requests;
  window_seconds = h.window_seconds;
  bound = h.bound;
  seen = λ k t reach.
      let window = prune limiter.window_seconds now (window_of key limiter.hits) in
      let past : last ≤ t + w = omega arith in
      elim (Bool-cases (str_eq key k)) [
        | inl same ↦
            rw (window_of-insert key k window limiter.hits, same, ← (str_eq_iff key k).0 same)
              (seen_pruned m w last now key limiter log t later h reach)
        | inr other ↦ rw (window_of-insert key k window limiter.hits, other) (h.seen k t past)
      ];
}

within-log :
    (w t now : ℕ) (k key : String) (log : List (String × ℕ))
    → within w t (times_of k (log ++ ((key, now) ∷ [])))
      ≡ within w t (times_of k log)
        + (if str_eq key k && (leb t now && leb now (t + w)) then 1 else 0)
within-log w t now k key log = ground (
  arith,
  times_of-append k log ((key, now) ∷ []),
  within-append w t (times_of k log) (times_of k ((key, now) ∷ [])),
)

accepted-bound :
    (m w last now : ℕ) (key : String) (limiter : RateLimiter) (log : List (String × ℕ)) (k : String)
    (t : ℕ)
    → last ≤ now
    → IsBounded m w last (limiter, log)
    → leb m (length (prune limiter.window_seconds now (window_of key limiter.hits))) ≡ false
    → within w t (times_of k (log ++ ((key, now) ∷ []))) ≤ m
accepted-bound m w last now key limiter log k t later h room =
    elim (Bool-cases (str_eq key k && (leb t now && leb now (t + w)))) [
      | inl hit ↦
          let reach : now ≤ t + w = ground (arith, hit) in
          let same : key ≡ k = ground (arith, hit, str_eq_iff key k) in
          let window = prune limiter.window_seconds now (window_of key limiter.hits) in
          let old = seen_pruned m w last now key limiter log t later h reach in
          rw (within-log w t now k key log, hit, ← same)
            (ground (arith, old, within-length w t window, room))
      | inr other ↦ rw (within-log w t now k key log, other) (omega (arith, h.bound k t))
    ]

accepted-IsBounded :
    (m w last now : ℕ) (key : String) (limiter : RateLimiter) (log : List (String × ℕ))
    → last ≤ now
    → IsBounded m w last (limiter, log)
    → let window = prune limiter.window_seconds now (window_of key limiter.hits) in
      leb m (length window) ≡ false
      → IsBounded m w now (
        record limiter { hits = insert key (window ++ (now ∷ [])) limiter.hits },
        log ++ ((key, now) ∷ []),
      )
accepted-IsBounded m w last now key limiter log later h room = record {
  max_requests = h.max_requests;
  window_seconds = h.window_seconds;
  bound = λ k t. accepted-bound m w last now key limiter log k t later h room;
  seen = λ k t reach.
      let window = prune limiter.window_seconds now (window_of key limiter.hits) in
      let past : last ≤ t + w = omega arith in
      elim (Bool-cases (str_eq key k)) [
        | inl same ↦
            let old = seen_pruned m w last now key limiter log t later h reach in
            rw
              (
                window_of-insert key k (window ++ (now ∷ [])) limiter.hits,
                same,
                within-log w t now k key log,
                within-append w t window (now ∷ []),
                ← (str_eq_iff key k).0 same,
              )
              (ground (arith, old))
        | inr other ↦
            rw
              (
                window_of-insert key k (window ++ (now ∷ [])) limiter.hits,
                other,
                within-log w t now k key log,
              )
              (ground (arith, other, h.seen k t past))
      ];
}

call-IsBounded :
    (m w last now : ℕ) (key : String) (s : RateLimiter × List (String × ℕ))
    → last ≤ now
    → IsBounded m w last s
    → IsBounded m w now (call (key, now) s)
unfolding allow
call-IsBounded m w last now key (limiter, log) later h =
    let window = prune limiter.window_seconds now (window_of key limiter.hits) in
    elim (Bool-cases (leb limiter.max_requests (length window))) [
      | inl full ↦ rw full (refused-IsBounded m w last now key limiter log later h)
      | inr room ↦
          rw room
            (accepted-IsBounded m w last now key limiter log later h (rw h.max_requests at room))
    ]

serve-IsBounded :
    (m w last : ℕ) (calls : List (String × ℕ)) (s : RateLimiter × List (String × ℕ))
    → IsMonotone last calls
    → IsBounded m w last s
    → (k : String) (t : ℕ) → within w t (times_of k (serve calls s).1) ≤ m
unfolding serve
serve-IsBounded m w last [] s o h k t = h.bound k t
serve-IsBounded m w last ((key, now) ∷ calls) s o h k t =
    serve-IsBounded m w now calls (call (key, now) s) o.1 (call-IsBounded m w last now key s o.0 h)
      k t

-- a limiter that has served no call
abbrev pub fresh : (max_requests window_seconds : ℕ) → RateLimiter
fresh max_requests window_seconds = record {
  max_requests = max_requests;
  window_seconds = window_seconds;
  hits = [];
}

-- From a fresh limiter, whatever calls are served on a clock that does not run backwards: of each
-- key, no interval of `window_seconds` holds more than `max_requests` accepted calls.
pub serve-bounded :
    (m w : ℕ) (calls : List (String × ℕ)) (k : String) (t : ℕ)
    → IsMonotone 0 calls
    → within w t (times_of k (serve calls (fresh m w, [])).1) ≤ m
unfolding window_of lookup
serve-bounded m w calls k t o =
    serve-IsBounded m w 0 calls (fresh m w, []) o
      (record {
        max_requests = refl;
        window_seconds = refl;
        bound = λ k t. ground arith;
        seen = λ k t past. ground arith;
      })
      k t

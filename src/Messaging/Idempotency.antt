-- ===== src/Messaging/Idempotency.antt =====
-- The idempotency store (packages/common/aegis_common/idempotency.py): the table `seen_keys`.
-- Times are numbers of seconds.
pub mod Once
use aegis_soc.Common.{
  ℕ, suc, ◌+◌, ◌-◌, String, Bool, true, false, not, Option, none, some, List, [], ◌∷◌, ◌++◌,
  if◌then◌else◌, ltb, length, keep,
}
use aegis_soc.Common.Dict.{Dict, lookup, has_key}

-- `IdempotencyStore`
pub record IdempotencyStore : Type 0 where
  pub ttl_seconds : ℕ
  pub seen_keys : Dict ℕ

-- `seen_before`
unfoldable pub seen_before : ℕ → String → IdempotencyStore → Bool × IdempotencyStore
unfolding lookup
seen_before now key store = elim (lookup key store.seen_keys) [
  | some _ ↦ (true, store)
  | none ↦ (false, record store { seen_keys = store.seen_keys ++ ((key, now) ∷ []) })
]

-- `cleanup_expired`, where `cutoff` is `now - ttl_seconds`
unfoldable pub cleanup_expired : ℕ → IdempotencyStore → ℕ × IdempotencyStore
cleanup_expired now store =
    let kept = keep (λ e. not (ltb (e.1 + store.ttl_seconds) now)) store.seen_keys in
    (length store.seen_keys - length kept, record store { seen_keys = kept })

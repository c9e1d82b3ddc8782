-- ===== src/Detection/Correlation/InOrder.antt =====
-- On events in the order of time, a window holds exactly the recent events.
use aegis_soc.Common.{
  ℕ, ◌+◌, ◌≤◌, String, ◌≡◌, refl, inl, inr, Bool, not, Option, some, List, [], ◌∷◌, ◌++◌, arith,
  ltb, keep, All, All-keep, Bool-cases,
}
use aegis_soc.Common.Dict.{Dict, insert, lookup-insert_self}
use aegis_soc.Detection.Correlation.{
  Event, WindowEntry, Correlation, Rule, get_or, window_of, prune, entry_of, judge, key_of,
  evaluate,
}

-- Times do not decrease along the window, and none is after `now`.
abbrev pub IsInOrder : ℕ → List WindowEntry → Type 0
IsInOrder now [] = Unit
IsInOrder now (e ∷ window) =
    (e.timestamp ≤ now) × All (λ d. e.timestamp ≤ d.timestamp) window × IsInOrder now window

-- not older than the window's length
abbrev pub is_recent : (window_seconds now : ℕ) → WindowEntry → Bool
is_recent w now e = not (ltb (e.timestamp + w) now)

recent_kept :
    (w now t : ℕ) (l : List WindowEntry)
    → now ≤ t + w
    → All (λ d. t ≤ d.timestamp) l
    → keep (is_recent w now) l ≡ l
recent_kept w now t [] h a = refl
recent_kept w now t (e ∷ l) h a = ground (arith, recent_kept w now t l h a.1, a.0)

prune-recent :
    (w now : ℕ) (l : List WindowEntry) → IsInOrder now l → prune w now l ≡ keep (is_recent w now) l
unfolding prune
prune-recent w now [] h = refl
prune-recent w now (e ∷ l) h = elim (Bool-cases (ltb (e.timestamp + w) now)) [
  | inl old ↦ ground (arith, old, prune-recent w now l h.2)
  | inr recent ↦
      ground (arith, recent, recent_kept w now e.timestamp l (ground (arith, recent)) h.1)
]

keep-IsInOrder :
    (p : WindowEntry → Bool) (now : ℕ) (l : List WindowEntry)
    → IsInOrder now l
    → IsInOrder now (keep p l)
keep-IsInOrder p now [] h = tt
keep-IsInOrder p now (e ∷ l) h = elim (Bool-cases (p e)) [
  | inl kept ↦
      rw (IsInOrder, kept)
        (h.0, All-keep p (λ d. e.timestamp ≤ d.timestamp) l h.1, keep-IsInOrder p now l h.2)
  | inr gone ↦ rw (IsInOrder, gone) (keep-IsInOrder p now l h.2)
]

append-IsInOrder :
    (last now : ℕ) (l : List WindowEntry) (d : WindowEntry)
    → IsInOrder last l
    → last ≤ now
    → d.timestamp ≡ now
    → IsInOrder now (l ++ (d ∷ []))
append-IsInOrder last now [] d h m e = (omega (arith, e), tt, tt)
append-IsInOrder last now (x ∷ l) d h m e = (
  omega (arith, h.0, m),
  append-All l h.1 (omega (arith, h.0, m, e)),
  append-IsInOrder last now l d h.2 m e,
)
  where
    append-All :
        (m : List WindowEntry)
        → All (λ y. x.timestamp ≤ y.timestamp) m
        → x.timestamp ≤ d.timestamp
        → All (λ y. x.timestamp ≤ y.timestamp) (m ++ (d ∷ []))
    append-All [] a b = (b, tt)
    append-All (y ∷ m) a b = (a.0, append-All m a.1 b)

-- An event of a correlation rule that is not older than the entries of its window, which are in
-- order: the rule's verdict is that on the recent ones of these entries and the event itself; they
-- are what the window holds afterwards, in order again.
pub evaluate_recent :
    (repr : List (Option String) → String) (rule : Rule) (c : Correlation) (event : Event)
    (windows : Dict (List WindowEntry)) (last : ℕ)
    → rule.correlation ≡ some c
    → IsInOrder last (window_of (key_of repr rule c event) windows)
    → last ≤ event.timestamp
    → let key = key_of repr rule c event in
      let recent =
        keep
          (is_recent (get_or 300 c.window_seconds) event.timestamp)
          (window_of key windows ++ (entry_of c event ∷ [])) in
      ((evaluate repr rule event windows).0.0 ≡ (judge c recent).0)
      × (window_of key (evaluate repr rule event windows).1 ≡ recent)
      × IsInOrder event.timestamp recent
unfolding evaluate entry_of
evaluate_recent repr rule c event windows last is h later =
    let key = key_of repr rule c event in
    let w = get_or 300 c.window_seconds in
    let l = window_of key windows ++ (entry_of c event ∷ []) in
    let order =
      append-IsInOrder last event.timestamp (window_of key windows) (entry_of c event) h later
        refl in
    let pruned = prune-recent w event.timestamp l order in
    (
      rw (evaluate, is, pruned) refl,
      rw (evaluate, is, pruned) (stored key (keep (is_recent w event.timestamp) l) windows),
      keep-IsInOrder (is_recent w event.timestamp) event.timestamp l order,
    )
  where
    stored :
        (key : String) (v : List WindowEntry) (ws : Dict (List WindowEntry))
        → window_of key (insert key v ws) ≡ v
    stored key v ws = rw (window_of, lookup-insert_self key v ws) refl

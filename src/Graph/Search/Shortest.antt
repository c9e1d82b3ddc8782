-- ===== src/Graph/Search/Shortest.antt =====
-- The search ends, and what it returns is a shortest path.
use aegis_soc.Common.{
  ℕ, zero, suc, ◌+◌, ◌≤◌, ◌<◌, String, ◌≡◌, refl, sym, inl, inr, true, List, [], ◌∷◌, arith, leb,
  str_eq, str_eq_iff, contains, length, not, length-keep-le, Bool-cases,
}
use mathlib.Core.Path.{subst}
use mathlib.Core.List.{Memᴰ}
use mathlib.Core.List.Memᴰ
use aegis_soc.Graph.Search.{
  Entry, Search, Outcome, found, not_found, out_of_fuel, expand, loop, start,
}
use aegis_soc.Graph.Search.Paths.{IsPath, IsPath-Walk, Walk, here, step}
use aegis_soc.Graph.Search.Scan.{unseen}
use aegis_soc.Graph.Search.Invariant.{len, Inv, start-Inv, expand-Inv, expand-work}

module _ {E : Type 0} (target : E → String) (adjacent : String → List E) (max_depth : ℕ) where
  -- Every node that fewer than `b` edges lead to has left the queue, where all that is queued has
  -- at least `b` edges behind it.
  pub reached :
      (src : String) (Target : String → Type 0) (done : List (Entry E)) (s : Search E) (b : ℕ)
      → Inv target adjacent max_depth src Target done s
      → ((x : Entry E) → Memᴰ x s.queue → b ≤ len x)
      → b ≤ suc max_depth
      → (n : ℕ) (v : String) → Walk target adjacent src n v
      → n < b
      → (x : Entry E) × Memᴰ x done × (x.node ≡ v) × (len x ≤ n)
  reached src Target done s b h late bound n v here less =
      let (x, m, is, zero_long) = h.root in
      elim m [
        | inl d ↦ (x, d, is, omega (arith, zero_long))
        | inr q ↦ absurd (omega (arith, late x q, zero_long))
      ]
  reached src Target done s b h late bound n v (step {n = k} {u = u} e w m) less =
      let (x, d, is, le) = reached src Target done s b h late bound k u w (omega arith) in
      let edge = subst (λ z. Memᴰ e (adjacent z)) (sym is) m in
      let (y, q, at, near) = h.closed x d (omega (arith, le)) e edge in
      elim q [
        | inl d' ↦ (y, d', at, omega (arith, le, near))
        | inr q' ↦ absurd (omega (arith, late y q', le, near))
      ]

  -- No path with fewer than `b` edges leads to a target.
  pub none_shorter :
      (src : String) (Target : String → Type 0) (done : List (Entry E)) (s : Search E) (b : ℕ)
      → Inv target adjacent max_depth src Target done s
      → ((x : Entry E) → Memᴰ x s.queue → b ≤ len x)
      → b ≤ suc max_depth
      → (v : String) → Target v
      → (q : List E) → IsPath target adjacent src q v
      → b ≤ length q
  none_shorter src Target done s b h late bound v is_target q p =
      elim (Bool-cases (leb b (length q))) [
        | inl le ↦ ground (arith, le)
        | inr gt ↦
            let (x, d, is, _) =
              reached src Target done s b h late bound (length q) v
                (IsPath-Walk target adjacent src v q p) (ground (arith, gt)) in
            absurd (h.missed x d (subst Target (sym is) is_target))
      ]

  -- What the search promises of its result.
  abbrev pub IsShortest : String → String → Outcome E → Type 0
  IsShortest src dst (found p) =
      IsPath target adjacent src p dst
      × (length p ≤ max_depth)
      × ((q : List E) → IsPath target adjacent src q dst → length p ≤ length q)
  IsShortest src dst not_found =
      (q : List E) → IsPath target adjacent src q dst → max_depth < length q
  IsShortest src dst out_of_fuel = ⊥

  module _ (ids : List String)
      (known : (u : String) (e : E) → Memᴰ e (adjacent u) → contains ids (target e) ≡ true)
      (src dst : String) where
    loop-IsShortest :
        (fuel : ℕ) (done queue : List (Entry E)) (visited : List String)
        → Inv target adjacent max_depth src
            (λ n. n ≡ dst)
            done
            (record { queue = queue; visited = visited })
        → unseen ids visited + length queue < fuel
        → IsShortest src dst
            (loop target adjacent max_depth dst fuel (record { queue = queue; visited = visited }))
    unfolding loop
    loop-IsShortest zero done queue visited h less = absurd (omega (arith, less))
    loop-IsShortest (suc fuel) done [] visited h less = λ q p. omega (
      arith,
      none_shorter src (λ n. n ≡ dst) done (record { queue = []; visited = visited })
          (suc max_depth) h (λ x m. absurd (Memᴰ.not-nil m)) (omega arith) dst refl q p,
    )
    loop-IsShortest (suc fuel) done (c ∷ rest) visited h less =
        elim (Bool-cases (str_eq c.node dst)) [
          | inl same ↦
              let is = (str_eq_iff c.node dst).0 same in
              rw (loop, same)
                (
                  subst (IsPath target adjacent src c.path) is (h.sound c (inr (Memᴰ.head refl))),
                  h.short c (inr (Memᴰ.head refl)),
                  none_shorter src (λ n. n ≡ dst) done
                      (record { queue = c ∷ rest; visited = visited }) (len c) h
                      (λ x m. elim (Memᴰ.cases_cons m) [
                        | inl at ↦ rw at (omega arith)
                        | inr n ↦ h.ascending.0 x n
                      ])
                      (omega (arith, h.short c (inr (Memᴰ.head refl)))) dst refl,
                )
          | inr other ↦
              let t = expand target adjacent max_depth c rest visited in
              rw (loop, other)
                (loop-IsShortest fuel (c ∷ done) t.queue t.visited
                  (expand-Inv target adjacent max_depth ids known src (λ n. n ≡ dst) c done rest
                    visited h (λ is. ground (arith, other, (str_eq_iff c.node dst).1 is)))
                  (omega
                    (arith, less, expand-work target adjacent max_depth ids known c rest visited)))
        ]

    unseen_bound : (l v : List String) → unseen l v ≤ length l
    unseen_bound l v = length-keep-le (λ x. not (contains v x)) l

    -- The search from a node, with fuel for all ids and the source.
    pub search-IsShortest :
        (fuel : ℕ)
        → suc (length ids) < fuel
        → IsShortest src dst (loop target adjacent max_depth dst fuel (start src))
    search-IsShortest fuel less =
        loop-IsShortest fuel [] (record { node = src; path = [] } ∷ []) (src ∷ [])
          (start-Inv target adjacent max_depth src (λ n. n ≡ dst))
          (omega (arith, less, unseen_bound ids (src ∷ [])))

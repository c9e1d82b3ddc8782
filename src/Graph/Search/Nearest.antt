-- ===== src/Graph/Search/Nearest.antt =====
-- The search for a known-bad node ends, and returns the number of edges to a nearest one.
use aegis_soc.Common.{
  ℕ, zero, suc, ◌+◌, ◌≤◌, ◌<◌, String, ◌≡◌, refl, sym, ap, ◌⊎◌, inl, inr, true, false, List, [],
  ◌∷◌, ◌++◌, map, arith, leb, contains, length, not, length-keep-le, length-append, Bool-cases,
}
use mathlib.Core.Path.{subst}
use mathlib.Core.List.{Memᴰ}
use mathlib.Core.List.Memᴰ
use aegis_soc.Graph.Search.{Entry, Search, offer, scan, expand}
use aegis_soc.Graph.Search.KnownBad.{
  Reached, Frontier, hit, on, Distance, distance, no_path, out_of_fuel, meet, scan_bad, loop_bad,
  start_bad,
}
use aegis_soc.Graph.Search.Paths.{IsPath, IsPath-snoc, IsPath-Walk, Walk, here, step}
use aegis_soc.Graph.Search.Scan.{unseen}
use aegis_soc.Graph.Search.Invariant.{
  len, Either, Inv, start-Inv, expand-Inv, expand-work, expand-origin,
}
use aegis_soc.Graph.Search.Shortest.{reached, none_shorter}

-- An entry without the edges of its path.
abbrev pub forget : {E : Type 0} → Entry E → Reached
forget x = record { node = x.node; dist = len x }

abbrev pub frontier : {E : Type 0} → Search E → Frontier
frontier s = record { queue = map forget s.queue; visited = s.visited }

module _ {E : Type 0} (target : E → String) where
  forget_new :
      (path : List E) (e : E) (queue : List (Entry E))
      → map forget queue ++ (record { node = target e; dist = suc (length path) } ∷ [])
        ≡ map forget (queue ++ (record { node = target e; path = path ++ (e ∷ []) } ∷ []))
  forget_new path e [] =
      ap (λ (n : ℕ). record { node = target e; dist = n } ∷ [])
        (omega (arith, length-append path (e ∷ [])))
  forget_new path e (x ∷ queue) = ap (λ l. forget x ∷ l) (forget_new path e queue)

  meet-offer :
      (path : List E) (e : E) (s : Search E)
      → meet target (length path) e (frontier s) ≡ frontier (offer target path e s)
  unfolding meet offer
  meet-offer path e s = elim (Bool-cases (contains s.visited (target e))) [
    | inl old ↦ rw (meet, offer, old) refl
    | inr new ↦
        rw (meet, offer, new)
          (λ i. record { queue = forget_new path e s.queue i; visited = target e ∷ s.visited })
  ]

  -- No edge leads to a known-bad node, or the scan stops at one.
  scan_bad-scan :
      (bad : List String) (path edges : List E) (s : Search E)
      → ((scan_bad target bad (length path) edges (frontier s)
            ≡ on (frontier (scan target path edges s)))
          × ((e : E) → Memᴰ e edges → contains bad (target e) ≡ false))
        ⊎ ((scan_bad target bad (length path) edges (frontier s) ≡ hit (suc (length path)))
            × ((e : E) × Memᴰ e edges × (contains bad (target e) ≡ true)))
  unfolding scan_bad scan
  scan_bad-scan bad path [] s = inl (refl, λ e m. absurd (Memᴰ.not-nil m))
  scan_bad-scan bad path (e ∷ edges) s = elim (Bool-cases (contains bad (target e))) [
    | inl is_bad ↦ inr (rw (scan_bad, is_bad) refl, (e, Memᴰ.head refl, is_bad))
    | inr fine ↦ elim (scan_bad-scan bad path edges (offer target path e s)) [
      | inl (same, none) ↦ inl (
        rw (scan_bad, fine, meet-offer path e s, scan) same,
        λ d m. elim (Memᴰ.cases_cons m) [ inl is ↦ rw is fine | inr n ↦ none d n ],
      )
      | inr (same, (d, m, is_bad)) ↦
          inr (rw (scan_bad, fine, meet-offer path e s) same, (d, Memᴰ.tail m, is_bad))
    ]
  ]

module _ {E : Type 0} (target : E → String) (adjacent : String → List E) (max_depth : ℕ)
    (bad : List String) where
  -- One turn of the loop: it goes on as the search for a path does, or it returns.
  turn_bad :
      (fuel : ℕ) (c : Entry E) (rest : List (Entry E)) (visited : List String)
      → let s : Search E = record { queue = c ∷ rest; visited = visited } in
        ((loop_bad target adjacent max_depth bad (suc fuel) (frontier s)
            ≡ loop_bad target adjacent max_depth bad fuel
                (frontier (expand target adjacent max_depth c rest visited)))
          × (len c < max_depth
              → (e : E) → Memᴰ e (adjacent c.node)
              → contains bad (target e) ≡ false))
        ⊎ ((loop_bad target adjacent max_depth bad (suc fuel) (frontier s) ≡ distance (suc (len c)))
            × (len c < max_depth)
            × ((e : E) × Memᴰ e (adjacent c.node) × (contains bad (target e) ≡ true)))
  unfolding loop_bad expand
  turn_bad fuel c rest visited = elim (Bool-cases (leb max_depth (len c))) [
    | inl deep ↦ inl (rw (loop_bad, expand, deep) refl, λ less. absurd (ground (arith, deep, less)))
    | inr shallow ↦
        let s : Search E = record { queue = rest; visited = visited } in
        elim (scan_bad-scan target bad c.path (adjacent c.node) s) [
          | inl (same, fine) ↦ inl (rw (loop_bad, expand, shallow, same) refl, λ _. fine)
          | inr (same, edge) ↦
              inr (rw (loop_bad, shallow, same) refl, ground (arith, shallow), edge)
        ]
  ]

  abbrev pub IsBad : String → Type 0
  IsBad v = contains bad v ≡ true

  -- What the search promises of its result.
  abbrev pub IsNearest : String → Distance → Type 0
  IsNearest src (distance n) =
      ((v : String) × (p : List E) × IsBad v × IsPath target adjacent src p v × (length p ≡ n))
      × (n ≤ max_depth)
      × ((v : String) → IsBad v → (q : List E) → IsPath target adjacent src q v → n ≤ length q)
  IsNearest src no_path =
      (v : String) → IsBad v → (q : List E) → IsPath target adjacent src q v → max_depth < length q
  IsNearest src out_of_fuel = ⊥

  module _ (src : String) (done : List (Entry E)) (s : Search E)
      (h : Inv target adjacent max_depth src IsBad done s)
      (avoid : (x : Entry E) → Either x done s.queue → ¬ IsBad x.node) where
    -- Where no entry is bad, a walk to a bad node is an edge longer than what is queued.
    none_within :
        (b n : ℕ) (v : String)
        → b < max_depth
        → ((x : Entry E) → Memᴰ x s.queue → b ≤ len x)
        → IsBad v
        → Walk target adjacent src n v
        → ¬ (n ≤ b)
    none_within b n v bound late is_bad here le =
        let (x, m, is, _) = h.root in avoid x m (subst IsBad (sym is) is_bad)
    none_within b n v bound late is_bad (step {n = k} {u = u} e w m) le =
        let (x, d, is, near) =
          reached target adjacent max_depth src IsBad done s b h late (omega arith) k u w
            (omega (arith, le)) in
        let edge = subst (λ z. Memᴰ e (adjacent z)) (sym is) m in
        let (y, q, at, _) = h.closed x d (omega (arith, near, le)) e edge in
        avoid y q (subst IsBad (sym at) is_bad)

    further :
        (b : ℕ) (v : String) (q : List E)
        → b < max_depth
        → ((x : Entry E) → Memᴰ x s.queue → b ≤ len x)
        → IsBad v
        → IsPath target adjacent src q v
        → suc b ≤ length q
    further b v q bound late is_bad p = elim (Bool-cases (leb (length q) b)) [
      | inl le ↦ absurd (
          none_within b (length q) v bound late is_bad (IsPath-Walk target adjacent src v q p)
            (ground (arith, le)))
      | inr gt ↦ ground (arith, gt)
    ]

  module _ (ids : List String)
      (known : (u : String) (e : E) → Memᴰ e (adjacent u) → contains ids (target e) ≡ true)
      (src : String) where
    late_head :
        (c : Entry E) (done rest : List (Entry E)) (visited : List String)
        → Inv target adjacent max_depth src IsBad done
            (record { queue = c ∷ rest; visited = visited })
        → (x : Entry E) → Memᴰ x (c ∷ rest)
        → len c ≤ len x
    late_head c done rest visited h x m = elim (Memᴰ.cases_cons m) [
      | inl at ↦ rw at (omega arith)
      | inr n ↦ h.ascending.0 x n
    ]

    loop-IsNearest :
        (fuel : ℕ) (done queue : List (Entry E)) (visited : List String)
        → Inv target adjacent max_depth src IsBad done (record { queue = queue; visited = visited })
        → ((x : Entry E) → Either x done queue → ¬ IsBad x.node)
        → unseen ids visited + length queue < fuel
        → IsNearest src (
            loop_bad target adjacent max_depth bad fuel
              (frontier (record { queue = queue; visited = visited })))
    unfolding loop_bad
    loop-IsNearest zero done queue visited h avoid less = absurd (omega (arith, less))
    loop-IsNearest (suc fuel) done [] visited h avoid less = λ v is_bad q p. omega (
      arith,
      none_shorter target adjacent max_depth src IsBad done
          (record { queue = []; visited = visited }) (suc max_depth) h
          (λ x m. absurd (Memᴰ.not-nil m)) (omega arith) v is_bad q p,
    )
    loop-IsNearest (suc fuel) done (c ∷ rest) visited h avoid less =
        elim (turn_bad fuel c rest visited) [
          | inl (same, fine) ↦
              let t = expand target adjacent max_depth c rest visited in
              subst (IsNearest src) (sym same) (
                loop-IsNearest fuel (c ∷ done) t.queue t.visited
                  (expand-Inv target adjacent max_depth ids known src IsBad c done rest visited h
                    (avoid c (inr (Memᴰ.head refl))))
                  (λ x m b.
                    elim (expand-origin target adjacent max_depth ids known c done rest visited x
                      m) [
                        | inl old ↦ avoid x old b
                        | inr (e, k, is, shallow) ↦ absurd (cc (fine shallow e k, subst IsBad is b))
                      ])
                  (omega
                    (arith, less, expand-work target adjacent max_depth ids known c rest visited)))
          | inr (same, shallow, (e, m, is_bad)) ↦
              let s : Search E = record { queue = c ∷ rest; visited = visited } in
              let at_c = h.sound c (inr (Memᴰ.head refl)) in
              subst (IsNearest src) (sym same) (
                (
                  target e,
                  c.path ++ (e ∷ []),
                  is_bad,
                  IsPath-snoc target adjacent src c.node c.path e at_c m,
                  omega (arith, length-append c.path (e ∷ [])),
                ),
                omega (arith, shallow),
                λ v vb q p.
                    further src done s h avoid (len c) v q shallow (late_head c done rest visited h)
                      vb p,
              )
        ]

    -- The search from a node that is not known to be bad.
    pub search-IsNearest :
        (fuel : ℕ)
        → contains bad src ≡ false
        → suc (length ids) < fuel
        → IsNearest src (loop_bad target adjacent max_depth bad fuel (start_bad src))
    search-IsNearest fuel fine less =
        loop-IsNearest fuel [] (record { node = src; path = [] } ∷ []) (src ∷ [])
          (start-Inv target adjacent max_depth src IsBad) only_source
          (omega (arith, less, length-keep-le (λ x. not (contains (src ∷ []) x)) ids))
      where
        only_source :
            (x : Entry E) → Either x [] (record { node = src; path = [] } ∷ []) → ¬ IsBad x.node
        only_source x (inl m) b = Memᴰ.not-nil m
        only_source x (inr m) b =
            cc (fine, ap (λ y. contains bad y.node) (Memᴰ.eq_of_singleton m), b)

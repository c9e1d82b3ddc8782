-- ===== src/Graph/Search/Invariant.antt =====
-- What the loop of the search keeps, of the entries that left the queue and of those in it.
use aegis_soc.Common.{
  ℕ, suc, ◌+◌, ◌≤◌, ◌<◌, String, ◌≡◌, refl, sym, ap, ◌⊎◌, inl, inr, true, List, [], ◌∷◌, ◌++◌,
  arith, leb, str_eq_iff, contains, length, length-append, Bool-cases,
}
use mathlib.Core.Path.{subst}
use mathlib.Core.List.{Memᴰ}
use mathlib.Core.List.Memᴰ
use aegis_soc.Graph.Search.{Entry, Search, expand, start}
use aegis_soc.Graph.Search.Paths.{IsPath, IsPath-snoc}
use aegis_soc.Graph.Search.Scan.{Scanned, Scanned-nil, scan-Scanned, unseen}

module _ {E : Type 0} where
  abbrev pub len : Entry E → ℕ
  len x = length x.path

  -- No path of the queue is longer than one behind it.
  abbrev pub IsAscending : List (Entry E) → Type 0
  IsAscending [] = Unit
  IsAscending (x ∷ l) = ((y : Entry E) → Memᴰ y l → len x ≤ len y) × IsAscending l

  abbrev pub Either : Entry E → List (Entry E) → List (Entry E) → Type 0
  Either x done queue = Memᴰ x done ⊎ Memᴰ x queue

  append-IsAscending :
      (l m : List (Entry E)) (k : ℕ)
      → IsAscending l
      → ((x : Entry E) → Memᴰ x l → len x ≤ k)
      → ((x : Entry E) → Memᴰ x m → len x ≡ k)
      → IsAscending (l ++ m)
  append-IsAscending [] [] k h low same = tt
  append-IsAscending [] (x ∷ m) k h low same = (
    λ y n. omega (arith, same x (Memᴰ.head refl), same y (Memᴰ.tail n)),
    append-IsAscending [] m k tt low (λ y n. same y (Memᴰ.tail n)),
  )
  append-IsAscending (x ∷ l) m k h low same = (
    λ y n. elim (Memᴰ.append_cases l n) [
      | inl old ↦ h.0 y old
      | inr new ↦ omega (arith, low x (Memᴰ.head refl), same y new)
    ],
    append-IsAscending l m k h.1 (λ y n. low y (Memᴰ.tail n)) same,
  )

module _ {E : Type 0} (target : E → String) (adjacent : String → List E) (max_depth : ℕ)
    (src : String) (Target : String → Type 0) where
  -- Every entry's path leads from the source to its node and is not too long; the visited nodes
  -- are those of the entries; the queue is in the order of the paths' lengths, and no entry is
  -- more than an edge longer than one of the queue; what left the queue is no target, and
  -- its neighbours are entries, at most an edge further.
  pub record Inv (done : List (Entry E)) (s : Search E) : Type 0 where
    pub sound : (x : Entry E) → Either x done s.queue → IsPath target adjacent src x.path x.node
    pub short : (x : Entry E) → Either x done s.queue → len x ≤ max_depth
    pub seen :
        (v : String)
        → contains s.visited v ≡ true
        → (x : Entry E) × Either x done s.queue × (x.node ≡ v)
    pub ascending : IsAscending s.queue
    pub close : (x y : Entry E) → Either x done s.queue → Memᴰ y s.queue → len x ≤ suc (len y)
    pub missed : (x : Entry E) → Memᴰ x done → ¬ Target x.node
    pub closed :
        (x : Entry E)
        → Memᴰ x done
        → len x < max_depth
        → (e : E) → Memᴰ e (adjacent x.node)
        → (y : Entry E) × Either y done s.queue × (y.node ≡ target e) × (len y ≤ suc (len x))
    pub root : (x : Entry E) × Either x done s.queue × (x.node ≡ src) × (len x ≡ 0)

  is_root :
      (x : Entry E) → Either x [] (start {E = E} src).queue → x ≡ record { node = src; path = [] }
  is_root x (inl m) = absurd (Memᴰ.not-nil m)
  is_root x (inr m) = Memᴰ.eq_of_singleton m

  pub start-Inv : Inv [] (start src)
  start-Inv = record {
    sound = λ x m. rw (is_root x m) refl;
    short = λ x m. rw (is_root x m) (omega arith);
    seen = λ v h.
        (record { node = src; path = [] }, inr (Memᴰ.head refl), ground (arith, str_eq_iff src v));
    ascending = (λ y m. absurd (Memᴰ.not-nil m), tt);
    close = λ x y m n. rw (is_root x m) (omega arith);
    missed = λ x m. absurd (Memᴰ.not-nil m);
    closed = λ x m. absurd (Memᴰ.not-nil m);
    root = (record { node = src; path = [] }, inr (Memᴰ.head refl), refl, refl);
  }

module _ {E : Type 0} (c : Entry E) (done rest news : List (Entry E)) where
  -- `c` leaves the queue, and `news` are added
  shift : (x : Entry E) → Either x done (c ∷ rest) → Either x (c ∷ done) (rest ++ news)
  shift x (inl m) = inl (Memᴰ.tail m)
  shift x (inr m) = elim (Memᴰ.cases_cons m) [
    | inl is ↦ inl (Memᴰ.head is)
    | inr n ↦ inr (Memᴰ.append_left news n)
  ]

  unshift :
      (x : Entry E) → Either x (c ∷ done) (rest ++ news) → Either x done (c ∷ rest) ⊎ Memᴰ x news
  unshift x (inl m) = elim (Memᴰ.cases_cons m) [
    | inl is ↦ inl (inr (Memᴰ.head is))
    | inr n ↦ inl (inl n)
  ]
  unshift x (inr m) = elim (Memᴰ.append_cases rest m) [
    | inl n ↦ inl (inr (Memᴰ.tail n))
    | inr n ↦ inr n
  ]

module _ {E : Type 0} (target : E → String) (adjacent : String → List E) (max_depth : ℕ)
    (src : String) (Target : String → Type 0) (ids : List String) (c : Entry E)
    (done rest : List (Entry E)) (visited : List String) where
  -- One turn of the loop, where `edges` are scanned: all those of the node, or none where the
  -- node is as deep as the bound.
  turn-Inv :
      (edges : List E) (t : Search E)
      → Inv target adjacent max_depth src Target done
          (record { queue = c ∷ rest; visited = visited })
      → ¬ Target c.node
      → Scanned target ids c.path edges (record { queue = rest; visited = visited }) t
      → ((e : E) → Memᴰ e edges → Memᴰ e (adjacent c.node) × (len c < max_depth))
      → ((e : E) → Memᴰ e (adjacent c.node) → len c < max_depth → Memᴰ e edges)
      → Inv target adjacent max_depth src Target (c ∷ done) t
  turn-Inv edges t h other r some_of all_of = record {
    sound = λ x m. elim (old_or_new x m) [
      | inl o ↦ h.sound x o
      | inr n ↦
          (let (e, k, is) = r.origin x n in
            rw is
              (IsPath-snoc target adjacent src c.node c.path e (h.sound c first) (some_of e k).0))
    ];
    short = λ x m. elim (old_or_new x m) [
      | inl o ↦ h.short x o
      | inr n ↦ omega (arith, new_len x n, new_short x n)
    ];
    seen = new_seen;
    ascending = subst IsAscending (sym r.queued) (
        append-IsAscending rest r.news (suc (len c)) h.ascending.1
          (λ x m. h.close x c (inr (Memᴰ.tail m)) (Memᴰ.head refl)) new_len);
    close = λ x y m n. omega (arith, near x m, not_before y n);
    missed = λ x m. elim (Memᴰ.cases_cons m) [
      | inl is ↦ λ t. other (subst (λ z. Target z.node) is t)
      | inr n ↦ h.missed x n
    ];
    closed = λ x m less e n. elim (Memᴰ.cases_cons m) [
      | inl is ↦ neighbour x is less e n
      | inr k ↦ (let (y, z, is, le) = h.closed x k less e n in (y, keep_entry y z, is, le))
    ];
    root = (let (x, m, is, none) = h.root in (x, keep_entry x m, is, none));
  }
    where
      first : Either c done (c ∷ rest)
      first = inr (Memᴰ.head refl)

      old_or_new :
          (x : Entry E) → Either x (c ∷ done) t.queue → Either x done (c ∷ rest) ⊎ Memᴰ x r.news
      old_or_new x m = unshift c done rest r.news x (subst (Either x (c ∷ done)) r.queued m)

      keep_entry : (x : Entry E) → Either x done (c ∷ rest) → Either x (c ∷ done) t.queue
      keep_entry x m = subst (Either x (c ∷ done)) (sym r.queued) (shift c done rest r.news x m)

      keep_new : (x : Entry E) → Memᴰ x r.news → Either x (c ∷ done) t.queue
      keep_new x m = subst (Either x (c ∷ done)) (sym r.queued) (inr (Memᴰ.append_right rest m))

      new_len : (x : Entry E) → Memᴰ x r.news → len x ≡ suc (len c)
      new_len x m =
          let (e, k, is) = r.origin x m in rw is (omega (arith, length-append c.path (e ∷ [])))

      new_short : (x : Entry E) → Memᴰ x r.news → len c < max_depth
      new_short x m = (let (e, k, is) = r.origin x m in (some_of e k).1)

      near : (x : Entry E) → Either x (c ∷ done) t.queue → len x ≤ suc (len c)
      near x m = elim (old_or_new x m) [
        | inl o ↦ h.close x c o (Memᴰ.head refl)
        | inr n ↦ omega (arith, new_len x n)
      ]

      not_before : (y : Entry E) → Memᴰ y t.queue → len c ≤ len y
      not_before y n = elim (Memᴰ.append_cases rest (subst (Memᴰ y) r.queued n)) [
        | inl o ↦ h.ascending.0 y o
        | inr k ↦ omega (arith, new_len y k)
      ]

      new_seen :
          (v : String)
          → contains t.visited v ≡ true
          → (x : Entry E) × Either x (c ∷ done) t.queue × (x.node ≡ v)
      new_seen v k = elim (r.seen v k) [
        | inl before ↦ (let (x, m, is) = h.seen v before in (x, keep_entry x m, is))
        | inr (x, m, is) ↦ (x, keep_new x m, is)
      ]

      neighbour :
          (x : Entry E)
          → x ≡ c
          → len x < max_depth
          → (e : E) → Memᴰ e (adjacent x.node)
          → (y : Entry E) × Either y (c ∷ done) t.queue
            × (y.node ≡ target e)
            × (len y ≤ suc (len x))
      neighbour x is less e n =
          let edge = subst (λ z. Memᴰ e (adjacent z.node)) is n in
          let hit = r.hits e (all_of e edge (subst (λ z. len z < max_depth) is less)) in
          let (y, m, at) = new_seen (target e) hit in (y, m, at, omega (arith, near y m, ap len is))

module _ {E : Type 0} (target : E → String) (adjacent : String → List E) (max_depth : ℕ)
    (ids : List String)
    (known : (u : String) (e : E) → Memᴰ e (adjacent u) → contains ids (target e) ≡ true) where
  -- One turn of the loop on an entry that is no target.
  pub expand-Inv :
      (src : String) (Target : String → Type 0) (c : Entry E) (done rest : List (Entry E))
      (visited : List String)
      → Inv target adjacent max_depth src Target done
          (record { queue = c ∷ rest; visited = visited })
      → ¬ Target c.node
      → Inv target adjacent max_depth src Target
          (c ∷ done)
          (expand target adjacent max_depth c rest visited)
  unfolding expand
  expand-Inv src Target c done rest visited h other = elim (Bool-cases (leb max_depth (len c))) [
    | inl deep ↦
        rw (expand, deep)
          (turn-Inv target adjacent max_depth src Target ids c done rest visited [] _ h other
            (Scanned-nil target ids c.path _) (λ e m. absurd (Memᴰ.not-nil m))
            (λ e m less. absurd (ground (arith, deep, less))))
    | inr shallow ↦
        rw (expand, shallow)
          (turn-Inv target adjacent max_depth src Target ids c done rest visited (adjacent c.node) _
            h other (scan-Scanned target ids c.path (adjacent c.node) _ (known c.node))
            (λ e m. (m, ground (arith, shallow))) (λ e m less. m))
  ]

  -- It leaves less to do.
  pub expand-work :
      (c : Entry E) (rest : List (Entry E)) (visited : List String)
      → let t = expand target adjacent max_depth c rest visited in
        unseen ids t.visited + length t.queue ≤ unseen ids visited + length rest
  unfolding expand
  expand-work c rest visited = elim (Bool-cases (leb max_depth (len c))) [
    | inl deep ↦ rw (expand, deep) (omega arith)
    | inr shallow ↦
        let s : Search E = record { queue = rest; visited = visited } in
        let r = scan-Scanned target ids c.path (adjacent c.node) s (known c.node) in
        rw (expand, shallow, r.queued) (omega (arith, r.work, length-append rest r.news))
  ]

  -- What is an entry after the turn was one before it, or is where an edge of the node leads.
  pub expand-origin :
      (c : Entry E) (done rest : List (Entry E)) (visited : List String) (x : Entry E)
      → Either x (c ∷ done) (expand target adjacent max_depth c rest visited).queue
      → Either x done (c ∷ rest)
        ⊎ ((e : E) × Memᴰ e (adjacent c.node) × (x.node ≡ target e) × (len c < max_depth))
  unfolding expand
  expand-origin c done rest visited x (inl m) = elim (Memᴰ.cases_cons m) [
    | inl is ↦ inl (inr (Memᴰ.head is))
    | inr n ↦ inl (inl n)
  ]
  expand-origin c done rest visited x (inr m) = elim (Bool-cases (leb max_depth (len c))) [
    | inl deep ↦ inl (inr (Memᴰ.tail (rw (expand, deep) at m)))
    | inr shallow ↦
        let s : Search E = record { queue = rest; visited = visited } in
        let r = scan-Scanned target ids c.path (adjacent c.node) s (known c.node) in
        let in_scan = (rw (expand, shallow, r.queued) at m) in
        elim (Memᴰ.append_cases rest in_scan) [
          | inl n ↦ inl (inr (Memᴰ.tail n))
          | inr n ↦
              let (e, k, is) = r.origin x n in
              inr (e, k, ap (λ y. y.node) is, ground (arith, shallow))
        ]
  ]

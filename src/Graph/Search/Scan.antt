-- ===== src/Graph/Search/Scan.antt =====
-- What scanning the edges of a node adds to a search.
use aegis_soc.Common.{
  ℕ, suc, ◌+◌, ◌≤◌, String, ◌≡◌, refl, sym, ◌∙◌, ◌⊎◌, inl, inr, true, false, not, List, [], ◌∷◌,
  ◌++◌, arith, str_eq, str_eq_iff, contains, length, keep, Bool-cases,
}
use mathlib.Core.List.{Memᴰ, append-nil, append_assoc}
use mathlib.Core.List.Memᴰ
use aegis_soc.Graph.Search.{Entry, Search, offer, scan}

-- the number of `ids` that no search has visited
abbrev pub unseen : List String → List String → ℕ
unseen ids visited = length (keep (λ x. not (contains visited x)) ids)

unseen_le : (ids visited : List String) (t : String) → unseen ids (t ∷ visited) ≤ unseen ids visited
unseen_le [] visited t = omega arith
unseen_le (x ∷ ids) visited t = ground (arith, unseen_le ids visited t)

-- Visiting one of the ids that is not visited yet leaves one less.
unseen_falls :
    (ids visited : List String) (t : String)
    → contains ids t ≡ true
    → contains visited t ≡ false
    → suc (unseen ids (t ∷ visited)) ≤ unseen ids visited
unseen_falls [] visited t member new = cc
unseen_falls (x ∷ ids) visited t member new = elim (Bool-cases (str_eq x t)) [
  | inl same ↦
      let is_t : x ≡ t = (str_eq_iff x t).0 same in
      ground (arith, new, is_t, str_eq_iff t x, unseen_le ids visited t)
  | inr other ↦ ground (arith, other, str_eq_iff t x, str_eq_iff x t, unseen_falls ids visited t)
]

module _ {E : Type 0} (target : E → String) where
  abbrev pub entry : List E → E → Entry E
  entry path e = record { node = target e; path = path ++ (e ∷ []) }

module _ {E : Type 0} (target : E → String) (ids : List String) where
  pub record Scanned (path edges : List E) (s t : Search E) : Type 0 where
    pub news : List (Entry E)
    pub queued : t.queue ≡ s.queue ++ news
    pub origin : (x : Entry E) → Memᴰ x news → (e : E) × Memᴰ e edges × (x ≡ entry target path e)
    pub seen :
        (v : String)
        → contains t.visited v ≡ true
        → (contains s.visited v ≡ true) ⊎ ((x : Entry E) × Memᴰ x news × (x.node ≡ v))
    pub hits : (e : E) → Memᴰ e edges → contains t.visited (target e) ≡ true
    pub grows : (v : String) → contains s.visited v ≡ true → contains t.visited v ≡ true
    pub work : unseen ids t.visited + length news ≤ unseen ids s.visited

module _ {E : Type 0} (target : E → String) (ids : List String) (path : List E) where
  pub Scanned-nil : (s : Search E) → Scanned target ids path [] s s
  Scanned-nil s = record {
    news = [];
    queued = sym (append-nil s.queue);
    origin = λ x m. absurd (Memᴰ.not-nil m);
    seen = λ v h. inl h;
    hits = λ e m. absurd (Memᴰ.not-nil m);
    grows = λ v h. h;
    work = omega arith;
  }

  -- an edge to a visited node
  Scanned-old :
      (e : E) (edges : List E) (s t : Search E)
      → contains s.visited (target e) ≡ true
      → Scanned target ids path edges s t
      → Scanned target ids path (e ∷ edges) s t
  Scanned-old e edges s t old r = record {
    news = r.news;
    queued = r.queued;
    origin = λ x m. (let (d, n, is) = r.origin x m in (d, Memᴰ.tail n, is));
    seen = r.seen;
    hits = λ d m. elim (Memᴰ.cases_cons m) [
      | inl is ↦ rw is (r.grows (target e) old)
      | inr n ↦ r.hits d n
    ];
    grows = r.grows;
    work = r.work;
  }

  -- an edge to a node that is not visited
  Scanned-new :
      (e : E) (edges : List E) (s t : Search E)
      → contains ids (target e) ≡ true
      → contains s.visited (target e) ≡ false
      → Scanned target ids path edges
          (record { queue = s.queue ++ (entry target path e ∷ []); visited = target e ∷ s.visited })
          t
      → Scanned target ids path (e ∷ edges) s t
  Scanned-new e edges s t member new r = record {
    news = entry target path e ∷ r.news;
    queued = r.queued ∙ append_assoc s.queue (entry target path e ∷ []) r.news;
    origin = λ x m. elim (Memᴰ.cases_cons m) [
      | inl is ↦ (e, Memᴰ.head refl, is)
      | inr n ↦ (let (d, n', is) = r.origin x n in (d, Memᴰ.tail n', is))
    ];
    seen = λ v h. elim (r.seen v h) [
      | inl before ↦ elim (Bool-cases (str_eq (target e) v)) [
        | inl same ↦ inr (entry target path e, Memᴰ.head refl, (str_eq_iff (target e) v).0 same)
        | inr other ↦ inl (ground (arith, before, other))
      ]
      | inr (x, m, is) ↦ inr (x, Memᴰ.tail m, is)
    ];
    hits = λ d m. elim (Memᴰ.cases_cons m) [
      | inl is ↦ rw is (r.grows (target e) (ground (arith, str_eq_iff (target e) (target e))))
      | inr n ↦ r.hits d n
    ];
    grows = λ v h. r.grows v (ground (arith, h));
    work = omega (arith, r.work, unseen_falls ids s.visited (target e) member new);
  }

  pub scan-Scanned :
      (edges : List E) (s : Search E)
      → ((e : E) → Memᴰ e edges → contains ids (target e) ≡ true)
      → Scanned target ids path edges s (scan target path edges s)
  unfolding scan offer
  scan-Scanned [] s known = Scanned-nil s
  scan-Scanned (e ∷ edges) s known = elim (Bool-cases (contains s.visited (target e))) [
    | inl old ↦
        rw (scan, offer, old)
          (Scanned-old e edges s _ old (scan-Scanned edges s (λ d m. known d (Memᴰ.tail m))))
    | inr new ↦
        rw (scan, offer, new)
          (Scanned-new e edges s _ (known e (Memᴰ.head refl)) new
            (scan-Scanned edges _ (λ d m. known d (Memᴰ.tail m))))
  ]

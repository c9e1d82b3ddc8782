-- ===== src/Detection/Dedup/Best.antt =====
-- The cluster that a detection joins is the one with the greatest overlap.
use aegis_soc.Common.{
  ℕ, String, ◌≡◌, refl, ◌⊎◌, inl, inr, true, false, Option, none, some, List, [], ◌∷◌, Bool-cases,
}
use mathlib.Core.Path.{subst}
use mathlib.Core.List.{Memᴰ}
use mathlib.Core.List.Memᴰ
use aegis_soc.Common.Dict.{values}
use aegis_soc.Common.Floats.{Floats, IsOrder, ge}
use aegis_soc.Common.Sets.{union}
use aegis_soc.Detection.Dedup.{
  Cluster, Clusters, overlap, overlap_threshold, existing_of, is_skipped, scan_clusters, find_match,
}

module _ (f : Floats) (o : IsOrder f) (now : ℕ) (combined : List String) where
  abbrev pub score : Cluster f → f.Float
  score c = overlap f (existing_of f c) combined

  -- `c` is recent enough, and overlaps enough.
  abbrev pub IsEligible : Cluster f → Type 0
  IsEligible c =
      (is_skipped f now combined c ≡ false) × (ge f (score c) (overlap_threshold f) ≡ true)

  -- The scan of `cs` from the best cluster `b` returns a best one of them.
  record Improved (b : Cluster f) (cs : List (Cluster f)) (r : Option (Cluster f)) : Type 0 where
    winner : Cluster f
    is_winner : r ≡ some winner
    origin : (winner ≡ b) ⊎ Memᴰ winner cs
    fine : IsEligible winner
    top : f.lt (score winner) (score b) ≡ false
    rest : (d : Cluster f) → Memᴰ d cs → IsEligible d → f.lt (score winner) (score d) ≡ false

  -- A cluster that changes nothing.
  passed-Improved :
      (b x : Cluster f) (cs : List (Cluster f)) (r : Option (Cluster f))
      → Improved b cs r
      → (IsEligible x → f.lt (score b) (score x) ≡ false)
      → Improved b (x ∷ cs) r
  passed-Improved b x cs r h worse = record {
    winner = h.winner;
    is_winner = h.is_winner;
    origin = elim h.origin [ inl at ↦ inl at | inr n ↦ inr (Memᴰ.tail n) ];
    fine = h.fine;
    top = h.top;
    rest = λ d m k. elim (Memᴰ.cases_cons m) [
      | inl at ↦
          rw at
            (o.trans_ge (score h.winner) (score b) (score x) h.top (worse (subst IsEligible at k)))
      | inr n ↦ h.rest d n k
    ];
  }

  better-Improved :
      (b x : Cluster f) (cs : List (Cluster f)) (r : Option (Cluster f))
      → Improved x cs r
      → f.lt (score b) (score x) ≡ true
      → Improved b (x ∷ cs) r
  better-Improved b x cs r h better = record {
    winner = h.winner;
    is_winner = h.is_winner;
    origin = inr (elim h.origin [ inl at ↦ Memᴰ.head at | inr n ↦ Memᴰ.tail n ]);
    fine = h.fine;
    top =
        o.trans_ge (score h.winner) (score x) (score b) h.top (o.asymm (score b) (score x) better);
    rest = λ d m k. elim (Memᴰ.cases_cons m) [ inl at ↦ rw at h.top | inr n ↦ h.rest d n k ];
  }

  scan-Improved :
      (b : Cluster f) (cs : List (Cluster f))
      → IsEligible b
      → Improved b cs (scan_clusters f now combined cs (some b) (score b))
  unfolding scan_clusters
  scan-Improved b [] ok = record {
    winner = b;
    is_winner = refl;
    origin = inl refl;
    fine = ok;
    top = o.irrefl (score b);
    rest = λ d m. absurd (Memᴰ.not-nil m);
  }
  scan-Improved b (x ∷ cs) ok = elim (Bool-cases (is_skipped f now combined x)) [
    | inl skipped ↦
        rw (scan_clusters, skipped)
          (passed-Improved b x cs _ (scan-Improved b cs ok) (λ k. absurd (cc (skipped, k.0))))
    | inr recent ↦ elim (Bool-cases (ge f (score x) (overlap_threshold f))) [
      | inr low ↦
          rw (scan_clusters, recent, low)
            (passed-Improved b x cs _ (scan-Improved b cs ok) (λ k. absurd (cc (low, k.1))))
      | inl high ↦ elim (Bool-cases (f.lt (score b) (score x))) [
        | inl better ↦
            rw (scan_clusters, recent, high, better)
              (better-Improved b x cs _ (scan-Improved x cs (recent, high)) better)
        | inr worse ↦
            rw (scan_clusters, recent, high, worse)
              (passed-Improved b x cs _ (scan-Improved b cs ok) (λ k. worse))
      ]
    ]
  ]

  -- A scan of `cs` without a best cluster that returns `r` has found one as good as `d`.
  abbrev Finds : Cluster f → List (Cluster f) → Option (Cluster f) → Type 0
  Finds d cs r =
      (c : Cluster f) × (r ≡ some c) × Memᴰ c cs × IsEligible c × (f.lt (score c) (score d) ≡ false)

  passed-Finds :
      (d x : Cluster f) (cs : List (Cluster f)) (r : Option (Cluster f))
      → Memᴰ d (x ∷ cs)
      → ¬ (d ≡ x)
      → (Memᴰ d cs → Finds d cs r)
      → Finds d (x ∷ cs) r
  passed-Finds d x cs r m other later = elim (Memᴰ.cases_cons m) [
    | inl at ↦ absurd (other at)
    | inr n ↦ let (c, is, k, fine, top) = later n in (c, is, Memᴰ.tail k, fine, top)
  ]

  scan-Finds :
      (d : Cluster f) (cs : List (Cluster f))
      → Memᴰ d cs
      → IsEligible d
      → f.lt (f.milli 0) (score d) ≡ true
      → Finds d cs (scan_clusters f now combined cs none (f.milli 0))
  unfolding scan_clusters
  scan-Finds d [] m ok overlaps = absurd (Memᴰ.not-nil m)
  scan-Finds d (x ∷ cs) m ok overlaps = elim (Bool-cases (is_skipped f now combined x)) [
    | inl skipped ↦
        rw (scan_clusters, skipped)
          (passed-Finds d x cs _ m (λ at. cc ((subst IsEligible at ok).0, skipped))
            (λ n. scan-Finds d cs n ok overlaps))
    | inr recent ↦ elim (Bool-cases (ge f (score x) (overlap_threshold f))) [
      | inr low ↦
          rw (scan_clusters, recent, low)
            (passed-Finds d x cs _ m (λ at. cc ((subst IsEligible at ok).1, low))
              (λ n. scan-Finds d cs n ok overlaps))
      | inl high ↦ elim (Bool-cases (f.lt (f.milli 0) (score x))) [
        | inr zero_score ↦
            rw (scan_clusters, recent, high, zero_score)
              (passed-Finds d x cs _ m
                (λ at. cc (subst (λ c. f.lt (f.milli 0) (score c) ≡ true) at overlaps, zero_score))
                (λ n. scan-Finds d cs n ok overlaps))
        | inl positive ↦
            let h = scan-Improved x cs (recent, high) in
            rw (scan_clusters, recent, high, positive)
              (
                h.winner,
                h.is_winner,
                elim h.origin [ inl at ↦ Memᴰ.head at | inr n ↦ Memᴰ.tail n ],
                h.fine,
                elim (Memᴰ.cases_cons m) [ inl at ↦ rw at h.top | inr n ↦ h.rest d n ok ],
              )
      ]
    ]
  ]

module _ (f : Floats) (o : IsOrder f) where
  -- Where floats are ordered as those without NaN are, and some cluster was updated within the
  -- window and overlaps the detection's entities and techniques by the threshold and by more than
  -- nothing: `_find_match` returns a cluster of the store that was updated within the window and
  -- overlaps by the threshold, and no such cluster overlaps more.
  pub find_match-best :
      (now : ℕ) (entity_ids technique_ids : List String) (clusters : Clusters f) (d : Cluster f)
      → Memᴰ d (values clusters)
      → IsEligible f o now (union entity_ids technique_ids) d
      → f.lt (f.milli 0) (score f o now (union entity_ids technique_ids) d) ≡ true
      → (c : Cluster f) × (find_match f entity_ids technique_ids now clusters ≡ some c)
        × Memᴰ c (values clusters)
        × IsEligible f o now (union entity_ids technique_ids) c
        × (f.lt
              (score f o now (union entity_ids technique_ids) c)
              (score f o now (union entity_ids technique_ids) d)
            ≡ false)
  unfolding find_match
  find_match-best now entity_ids technique_ids clusters d m ok overlaps =
      scan-Finds f o now (union entity_ids technique_ids) d (values clusters) m ok overlaps

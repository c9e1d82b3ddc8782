-- ===== src/Detection/Dedup/Growth.antt =====
-- Assigning a detection loses nothing of the clusters there are.
use aegis_soc.Common.{
  ℕ, String, ◌≡◌, refl, sym, ap, ◌∙◌, ◌⊎◌, inl, inr, false, ◌||◌, ◌&&◌, Option, none, some, List,
  [], ◌∷◌, arith, str_eq, str_eq_iff, contains, Bool-cases, Option-cases,
}
use mathlib.Core.Path.{subst}
use mathlib.Core.List.{Memᴰ}
use mathlib.Core.List.Memᴰ
use aegis_soc.Common.Dict.{
  lookup, insert, has_key, values, lookup-insert, lookup-insert_self, has_key-insert,
}
use aegis_soc.Common.Floats.{Floats, IsOrder, ge}
use aegis_soc.Common.Sets.{union, contains-union}
use aegis_soc.Schema.Events.{Alert}
use aegis_soc.Detection.Dedup.{
  Cluster, Clusters, Request, overlap, overlap_threshold, existing_of, is_skipped, scan_clusters,
  find_match, set_of, merged_ids, new_alert, new_cluster, merged_alert, merged_cluster, assign,
  get_alert,
}

module _ {f : Floats} where
  -- Every cluster stands under its id, once.
  abbrev pub IsKeyed : Clusters f → Type 0
  IsKeyed [] = Unit
  IsKeyed ((k, c) ∷ cs) = (k ≡ c.cluster_id) × (has_key k cs ≡ false) × IsKeyed cs

  insert-IsKeyed :
      (c : Cluster f) (cs : Clusters f) → IsKeyed cs → IsKeyed (insert c.cluster_id c cs)
  unfolding insert lookup
  insert-IsKeyed c [] h = (refl, refl, tt)
  insert-IsKeyed c ((j, d) ∷ cs) h = elim (Bool-cases (str_eq j c.cluster_id)) [
    | inl same ↦
        rw same
          (refl, subst (λ k. has_key k cs ≡ false) ((str_eq_iff j c.cluster_id).0 same) h.1, h.2)
    | inr other ↦ rw other (
      h.0,
      ground (
        arith,
        other,
        h.1,
        has_key-insert c.cluster_id j c cs,
        str_eq_iff c.cluster_id j,
        str_eq_iff j c.cluster_id,
      ),
      insert-IsKeyed c cs h.2,
    )
  ]

  lookup-member :
      (c : Cluster f) (cs : Clusters f)
      → IsKeyed cs
      → Memᴰ c (values cs)
      → lookup c.cluster_id cs ≡ some c
  unfolding lookup
  lookup-member c [] h m = absurd (Memᴰ.not-nil m)
  lookup-member c ((j, d) ∷ cs) h m = elim (Memᴰ.cases_cons m) [
    | inl at ↦
        let is_key = (str_eq_iff j c.cluster_id).1 (h.0 ∙ ap (λ x. x.cluster_id) (sym at)) in
        rw is_key (ap some (sym at))
    | inr n ↦
        let found = lookup-member c cs h.2 n in
        elim (Bool-cases (str_eq j c.cluster_id)) [
          | inl same ↦
              let absent =
                subst (λ k. has_key k cs ≡ false) ((str_eq_iff j c.cluster_id).0 same) h.1 in
              absurd (ground (arith, absent, found))
          | inr other ↦ rw other found
        ]
  ]

module _ (f : Floats) where
  scan-member :
      (now : ℕ) (combined : List String) (cs : List (Cluster f)) (best : Option (Cluster f))
      (s : f.Float) (c : Cluster f)
      → scan_clusters f now combined cs best s ≡ some c
      → (best ≡ some c) ⊎ Memᴰ c cs
  unfolding scan_clusters
  scan-member now combined [] best s c h = inl h
  scan-member now combined (x ∷ cs) best s c h = elim (Bool-cases (is_skipped f now combined x)) [
    | inl skipped ↦ later (scan-member now combined cs best s c (rw (scan_clusters, skipped) at h))
    | inr recent ↦
        elim (Bool-cases (ge f (overlap f (existing_of f x) combined) (overlap_threshold f))) [
          | inr low ↦
              later (scan-member now combined cs best s c (rw (scan_clusters, recent, low) at h))
          | inl high ↦ elim (Bool-cases (f.lt s (overlap f (existing_of f x) combined))) [
            | inr worse ↦ later (
                scan-member now combined cs best s c (rw (scan_clusters, recent, high, worse) at h))
            | inl better ↦
                elim (scan-member now combined cs (some x) (overlap f (existing_of f x) combined) c
                  (rw (scan_clusters, recent, high, better) at h)) [
                    | inl at ↦ inr (Memᴰ.head (sym (some_injective at)))
                    | inr m ↦ inr (Memᴰ.tail m)
                  ]
          ]
        ]
  ]
    where
      later : (best ≡ some c) ⊎ Memᴰ c cs → (best ≡ some c) ⊎ Memᴰ c (x ∷ cs)
      later (inl at) = inl at
      later (inr m) = inr (Memᴰ.tail m)

      some_injective : some x ≡ some c → x ≡ c
      some_injective at = cc at

  find_match-member :
      (now : ℕ) (entity_ids technique_ids : List String) (cs : Clusters f) (c : Cluster f)
      → find_match f entity_ids technique_ids now cs ≡ some c
      → Memᴰ c (values cs)
  unfolding find_match
  find_match-member now entity_ids technique_ids cs c h =
      elim (scan-member now (union entity_ids technique_ids) (values cs) none (f.milli 0) c h) [
        | inl at ↦ cc at
        | inr m ↦ m
      ]

  -- the entities and the score of an alert do not shrink when a request is merged into it
  abbrev pub Keeps : String → Cluster f → Cluster f → Type 0
  Keeps x c d =
      ((contains c.alert.entity_ids x && contains d.alert.entity_ids x)
        ≡ contains c.alert.entity_ids x)
      × (f.lt d.alert.risk.calibrated_score c.alert.risk.calibrated_score ≡ false)

module _ (f : Floats) (o : IsOrder f) (order : List String → List String) (x : String)
    (same : (l : List String) → contains (order l) x ≡ contains l x) where
  contains-merged_ids :
      (l m : List String) → contains (merged_ids f order l m) x ≡ (contains l x || contains m x)
  unfolding set_of
  contains-merged_ids l m =
      ground
        (arith, same (union (set_of l) m), contains-union (set_of l) m x, contains-union [] l x)

  merged-Keeps :
      (now : ℕ) (req : Request f) (c : Cluster f) → Keeps f x c (merged_cluster f order now req c)
  unfolding merged_cluster merged_alert
  merged-Keeps now req c = (
    ground (arith, contains-merged_ids c.alert.entity_ids req.entity_ids),
    elim (Bool-cases (f.lt c.alert.risk.calibrated_score req.risk.calibrated_score)) [
      | inl worse ↦
          rw (merged_cluster, merged_alert, worse)
            (o.asymm c.alert.risk.calibrated_score req.risk.calibrated_score worse)
      | inr better ↦
          rw (merged_cluster, merged_alert, better) (o.irrefl c.alert.risk.calibrated_score)
    ],
  )

  -- what `assign` promises of its result
  abbrev pub Assigned : Request f → Clusters f → Alert f → Clusters f → Type 0
  Assigned req clusters alert after =
      IsKeyed after
      × ((k : String) (c : Cluster f)
          → lookup k clusters ≡ some c
          → (d : Cluster f) × (lookup k after ≡ some d) × Keeps f x c d)
      × ((i : String) × (get_alert f i after ≡ some alert))
      × ((contains req.entity_ids x && contains alert.entity_ids x) ≡ contains req.entity_ids x)

  get_alert-insert :
      (d : Cluster f) (clusters : Clusters f)
      → get_alert f d.cluster_id (insert d.cluster_id d clusters) ≡ some d.alert
  unfolding get_alert
  get_alert-insert d clusters = rw (get_alert, lookup-insert_self d.cluster_id d clusters) refl

  Assigned-new :
      (alert_id cluster_id : String) (now : ℕ) (req : Request f) (clusters : Clusters f)
      → IsKeyed clusters
      → has_key cluster_id clusters ≡ false
      → let n = new_cluster f alert_id cluster_id now req in
        Assigned req clusters n.alert (insert cluster_id n clusters)
  unfolding new_cluster new_alert
  Assigned-new alert_id cluster_id now req clusters keyed fresh =
      let n = new_cluster f alert_id cluster_id now req in
      (
        insert-IsKeyed n clusters keyed,
        λ k c found. (
          c,
          elim (Bool-cases (str_eq cluster_id k)) [
            | inl is ↦
                let absent =
                  subst (λ i. has_key i clusters ≡ false) ((str_eq_iff cluster_id k).0 is) fresh in
                absurd (ground (arith, absent, found))
            | inr other ↦ rw (lookup-insert cluster_id k n clusters, other) found
          ],
          (ground arith, o.irrefl c.alert.risk.calibrated_score),
        ),
        (cluster_id, get_alert-insert n clusters),
        ground arith,
      )

  Assigned-merged :
      (now : ℕ) (req : Request f) (clusters : Clusters f) (m : Cluster f)
      → IsKeyed clusters
      → Memᴰ m (values clusters)
      → let d = merged_cluster f order now req m in
        Assigned req clusters d.alert (insert m.cluster_id d clusters)
  unfolding merged_cluster merged_alert
  Assigned-merged now req clusters m keyed member =
      let d = merged_cluster f order now req m in
      (
        insert-IsKeyed d clusters keyed,
        λ k c found. elim (Bool-cases (str_eq m.cluster_id k)) [
          | inl is ↦
              let at_m = lookup-member m clusters keyed member in
              let at_k =
                subst (λ i. lookup i clusters ≡ some m) ((str_eq_iff m.cluster_id k).0 is) at_m in
              let is_c : m ≡ c = cc (at_k, found) in
              (
                d,
                rw (lookup-insert m.cluster_id k d clusters, is) refl,
                subst (λ y. Keeps f x y d) is_c (merged-Keeps now req m),
              )
          | inr other ↦ (
            c,
            rw (lookup-insert m.cluster_id k d clusters, other) found,
            (ground arith, o.irrefl c.alert.risk.calibrated_score),
          )
        ],
        (m.cluster_id, get_alert-insert d clusters),
        ground (arith, contains-merged_ids m.alert.entity_ids req.entity_ids),
      )

  pub assign-Assigned :
      (alert_id cluster_id : String) (now : ℕ) (req : Request f) (clusters : Clusters f)
      → IsKeyed clusters
      → has_key cluster_id clusters ≡ false
      → let (alert, after) = assign f order alert_id cluster_id now req clusters in
        Assigned req clusters alert after
  unfolding assign
  assign-Assigned alert_id cluster_id now req clusters keyed fresh =
      let match = find_match f (set_of req.entity_ids) (set_of req.technique_ids) now clusters in
      elim (Option-cases match) [
        | inl nothing ↦
            rw (assign, nothing) (Assigned-new alert_id cluster_id now req clusters keyed fresh)
        | inr (m, hit) ↦
            let member =
              find_match-member f now (set_of req.entity_ids) (set_of req.technique_ids) clusters m
                hit in
            rw (assign, hit) (Assigned-merged now req clusters m keyed member)
      ]

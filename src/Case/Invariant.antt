-- ===== src/Case/Invariant.antt =====
-- The invariant of the table of cases: distinct keys, rows under their own keys with valid statuses,
-- and one case to a cluster.
pub mod Upkeep
use mathlib.Core.Path.{subst}
use aegis_soc.Common.{
  ℕ, suc, ◌+◌, ◌≤◌, String, ◌≡◌, ◌⊎◌, refl, sym, ap, ◌∙◌, inl, inr, Bool, true, false, not, Option,
  none, some, List, [], ◌∷◌, ◌++◌, arith, if◌then◌else◌, str_eq, str_eq_iff, truthy, length, keep,
  contains, Bool-cases, Option-cases,
}
use aegis_soc.Common.Dict.{Dict, lookup, insert, values, lookup-insert}
use aegis_soc.Common.Floats.{Floats}
use aegis_soc.Auth.Web.{Response, body, http_error}
use aegis_soc.Auth.Roles.{TokenPayload}
use aegis_soc.Case.Records.{Case, Alert, Tables, CreateCaseRequest, FeedbackRequest}
use aegis_soc.Case.Repository.{
  valid_statuses, create_case as repo_create, requested_case, opened_case, add_case, save_case,
  in_cluster, cluster_cases, get_case_by_cluster, with_status, with_assignee, with_feedback,
  update_status, assign_case, record_feedback,
}
use aegis_soc.Case.Merge.{merged, case_of_cluster, land, upsert_case_from_alert}

module _ {ℓ} {V : Type ℓ} where
  abbrev pub IsDistinct : Dict V → Type ℓ
  IsDistinct [] = Unit
  IsDistinct ((k, v) ∷ d) = (lookup k d ≡ none) × IsDistinct d

  insert-IsDistinct : (k : String) (v : V) (d : Dict V) → IsDistinct d → IsDistinct (insert k v d)
  unfolding insert lookup
  insert-IsDistinct k v [] h = (refl, tt)
  insert-IsDistinct k v ((j, w) ∷ d) h = elim (Bool-cases (str_eq j k)) [
    | inl same ↦ rw (same, ← (str_eq_iff j k).0 same) (h.0, h.1)
    | inr other ↦ rw other (
      ground (arith, lookup-insert k j v d, h.0, other, str_eq_iff j k, str_eq_iff k j),
      insert-IsDistinct k v d h.1,
    )
  ]

  -- the number of rows that pass a test
  abbrev pub count : (V → Bool) → Dict V → ℕ
  count p d = length (keep p (values d))

  count-insert :
      (p : V → Bool) (k : String) (v w : V) (d : Dict V)
      → lookup k d ≡ some v
      → p v ≡ p w
      → count p (insert k w d) ≡ count p d
  unfolding insert lookup
  count-insert p k v w [] e h = cc
  count-insert p k v w ((j, x) ∷ d) e h = ground (arith, count-insert p k v w d)

  count-insert_new :
      (p : V → Bool) (k : String) (w : V) (d : Dict V)
      → lookup k d ≡ none
      → count p (insert k w d) ≡ count p d + (if p w then 1 else 0)
  unfolding insert lookup
  count-insert_new p k w [] e = ground arith
  count-insert_new p k w ((j, x) ∷ d) e = ground (arith, count-insert_new p k w d)

  -- A row that passes a test stands in the table.
  pub first-lookup :
      (p : V → Bool) (v : V) (rest : List V) (d : Dict V)
      → IsDistinct d
      → keep p (values d) ≡ v ∷ rest
      → (k : String) × (lookup k d ≡ some v)
  unfolding lookup
  first-lookup p v rest [] h e = cc
  first-lookup p v rest ((j, w) ∷ d) h e = elim (Bool-cases (p w)) [
    | inl hit ↦ (j, ground (arith, e, hit, str_eq_iff j j))
    | inr miss ↦
        let (k, found) = first-lookup p v rest d h.1 (ground (arith, e, miss)) in
        (k, ground (arith, found, h.0, str_eq_iff j k))
  ]

pub some-same : (d s : String) (o : Option String) → o ≡ some d → o ≡ some s → d ≡ s
some-same d s none p q = cc
some-same d s (some x) p q = cc

-- A row under its own key, with a valid status.
pub record IsRow {f : Floats} (k : String) (c : Case f) : Type 0 where
  pub key : c.case_id ≡ k
  pub status : contains valid_statuses c.status ≡ true

-- The invariant of the table of cases.
pub record IsWell {f : Floats} (cases : Dict (Case f)) : Type 0 where
  pub distinct : IsDistinct cases
  pub row : (k : String) (c : Case f) → lookup k cases ≡ some c → IsRow k c
  pub unique : (s : String) → truthy s ≡ true → count (in_cluster f s) cases ≤ 1

module _ {f : Floats} where
  insert-row :
      (k : String) (new : Case f) (cases : Dict (Case f))
      → IsRow k new
      → IsWell cases
      → (j : String) (c : Case f) → lookup j (insert k new cases) ≡ some c
      → IsRow j c
  insert-row k new cases r h j c e = elim (Bool-cases (str_eq k j)) [
    | inl same ↦
        let it : new ≡ c = ground (arith, lookup-insert k j new cases, same, e) in
        rw (← it, ← (str_eq_iff k j).0 same) r
    | inr other ↦ h.row j c (sym (lookup-insert k j new cases ∙ ground (arith, other)) ∙ e)
  ]

  -- A row is changed, and keeps its cluster.
  pub change-IsWell :
      (k : String) (old new : Case f) (cases : Dict (Case f))
      → lookup k cases ≡ some old
      → IsRow k new
      → new.cluster_id ≡ old.cluster_id
      → IsWell cases
      → IsWell (insert k new cases)
  change-IsWell k old new cases e r same h = record {
    distinct = insert-IsDistinct k new cases h.distinct;
    row = insert-row k new cases r h;
    unique = λ s t.
        rw (count-insert (in_cluster f s) k old new cases e (ap (in_cluster_id s) (sym same)))
          (h.unique s t);
  }
    where
      in_cluster_id : String → Option String → Bool
      in_cluster_id s o = elim o [ none ↦ false | some d ↦ str_eq d s ]

  -- A row is added, of a cluster that had none.
  pub add-IsWell :
      (k : String) (new : Case f) (cases : Dict (Case f))
      → lookup k cases ≡ none
      → IsRow k new
      → ((s : String)
          → truthy s ≡ true
          → in_cluster f s new ≡ true
          → count (in_cluster f s) cases ≡ 0)
      → IsWell cases
      → IsWell (insert k new cases)
  add-IsWell k new cases e r own h = record {
    distinct = insert-IsDistinct k new cases h.distinct;
    row = insert-row k new cases r h;
    unique = λ s t. elim (Bool-cases (in_cluster f s new)) [
      | inl hit ↦
          rw (count-insert_new (in_cluster f s) k new cases e, hit, own s t hit) (omega arith)
      | inr miss ↦
          rw (count-insert_new (in_cluster f s) k new cases e, miss) (omega (arith, h.unique s t))
    ];
  }

  -- what a save of a changed row asks
  pub save-IsWell :
      (k : String) (c new : Case f) (t : Tables f)
      → lookup k t.cases ≡ some c
      → new.case_id ≡ c.case_id
      → new.cluster_id ≡ c.cluster_id
      → contains valid_statuses new.status ≡ true
      → IsWell t.cases
      → IsWell (save_case f new t).cases
  unfolding save_case
  save-IsWell k c new t e id cluster status h =
      let key : new.case_id ≡ k = id ∙ (h.row k c e).key in
      subst (λ j. IsWell (insert j new t.cases)) (sym key)
        (change-IsWell k c new t.cases e (record { key = key; status = status }) cluster h)

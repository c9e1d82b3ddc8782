-- ===== src/Detection/Pipeline/Alerts.antt =====
-- What one event does to the alerts.
use aegis_soc.Common.{
  ℕ, String, ◌≡◌, refl, inl, inr, false, ◌&&◌, Option, none, some, List, [], ◌∷◌, map, contains,
  arith, Bool-cases, Option-cases,
}
use mathlib.Core.Path.{subst}
use aegis_soc.Common.Dict.{lookup, has_key}
use aegis_soc.Common.Floats.{Floats, IsOrder}
use aegis_soc.Schema.Events.{CanonicalEvent, DetectionHit, Alert}
use aegis_soc.Graph.Store.{File}
use aegis_soc.Detection.Dedup.{Cluster, Clusters, assign, get_alert}
use aegis_soc.Detection.Dedup.Growth.{IsKeyed, Keeps, assign-Assigned}
use aegis_soc.Detection.GraphFeatures.{compute_graph_features}
use aegis_soc.Detection.Temporal.{observe}
use aegis_soc.Detection.Pipeline.{
  State, World, run_rules, risk_of, request_of, raises_alert, conclude, process_event,
}

module _ (f : Floats) (o : IsOrder f) (w : World f) (x : String)
    (same : (l : List String) → contains (w.order l) x ≡ contains l x) where
  -- the clusters after an event, of those before it
  abbrev KeepsAll : Clusters f → Clusters f → Type 0
  KeepsAll before after =
      IsKeyed after
      × ((k : String) (c : Cluster f)
          → lookup k before ≡ some c
          → (d : Cluster f) × (lookup k after ≡ some d) × Keeps f x c d)

  unchanged-KeepsAll : (clusters : Clusters f) → IsKeyed clusters → KeepsAll clusters clusters
  unchanged-KeepsAll clusters keyed =
      (keyed, λ k c found. (c, found, (ground arith, o.irrefl c.alert.risk.calibrated_score)))

  -- an alert that is stored and has the event's entities
  abbrev IsStored : CanonicalEvent f → Option (Alert f) → Clusters f → Type 0
  IsStored event alert clusters =
      (a : Alert f) × (alert ≡ some a)
      × ((i : String) × (get_alert f i clusters ≡ some a))
      × ((contains (map (λ e. e.id) event.entities) x && contains a.entity_ids x)
          ≡ contains (map (λ e. e.id) event.entities) x)

  module _ (alert_id cluster_id : String) (now : ℕ) (graph : File f)
      (event : CanonicalEvent f) where
    conclude-KeepsAll :
        (hits : List (DetectionHit f)) (state : State f)
        → IsKeyed state.clusters
        → has_key cluster_id state.clusters ≡ false
        → let (alert, after) = conclude f w alert_id cluster_id now graph event hits state in
          KeepsAll state.clusters after.clusters
    unfolding conclude
    conclude-KeepsAll hits state keyed fresh =
        let (temporal, tracker) = observe f event state.tracker in
        let features =
          compute_graph_features f w.indicators w.runtime.strings w.order graph event in
        let (risk, reasons) =
          risk_of f w hits event features temporal.distinct_techniques_window
            temporal.event_count_window in
        let req = request_of f w hits event features risk reasons in
        let stored =
          assign-Assigned f o w.order x same alert_id cluster_id now req state.clusters keyed
            fresh in
        elim (Bool-cases (raises_alert f w hits risk)) [
          | inl raised ↦ rw (conclude, raised) (stored.0, stored.1)
          | inr quiet ↦ rw (conclude, quiet) (unchanged-KeepsAll state.clusters keyed)
        ]

    conclude-IsStored :
        (h : DetectionHit f) (hits : List (DetectionHit f)) (state : State f)
        → IsKeyed state.clusters
        → has_key cluster_id state.clusters ≡ false
        → let (alert, after) = conclude f w alert_id cluster_id now graph event (h ∷ hits) state in
          IsStored event alert after.clusters
    unfolding conclude request_of
    conclude-IsStored h hits state keyed fresh =
        let (temporal, tracker) = observe f event state.tracker in
        let features =
          compute_graph_features f w.indicators w.runtime.strings w.order graph event in
        let (risk, reasons) =
          risk_of f w (h ∷ hits) event features temporal.distinct_techniques_window
            temporal.event_count_window in
        let req = request_of f w (h ∷ hits) event features risk reasons in
        let stored =
          assign-Assigned f o w.order x same alert_id cluster_id now req state.clusters keyed
            fresh in
        ((assign f w.order alert_id cluster_id now req state.clusters).0, refl, stored.2, stored.3)

    module _ (uuid : ℕ → String) (state : State f) (keyed : IsKeyed state.clusters)
        (fresh : has_key cluster_id state.clusters ≡ false) where
      -- what holds of a result with hits
      HasAlert : Option (List (DetectionHit f) × Option (Alert f)) × State f → Type 0
      HasAlert (none, after) = Unit
      HasAlert (some ([], alert), after) = Unit
      HasAlert (some (h ∷ hits, alert), after) = IsStored event alert after.clusters

      -- Where every cluster stands under its id, the id for a new one is fresh, the order in which
      -- Python lists a set does not change what is in it, and floats are ordered as those without
      -- NaN are: after `process_event`, an exception included, every cluster stands under its id, a
      -- cluster `c` is there still, and its alert has the entities that it had and a calibrated
      -- score that is not less.
      pub process_event-Keeps :
          (k : String) (c : Cluster f)
          → lookup k state.clusters ≡ some c
          → let after = (process_event f w uuid alert_id cluster_id now graph event state).1 in
            IsKeyed after.clusters
            × ((d : Cluster f) × (lookup k after.clusters ≡ some d) × Keeps f x c d)
      unfolding process_event
      process_event-Keeps k c found =
          let (result, windows) = run_rules f w uuid 0 state.rules event state.windows in
          let ruled : State f = record state { windows = windows } in
          elim (Option-cases result) [
            | inl raised ↦
                let (form, kept) = unchanged-KeepsAll state.clusters keyed in
                rw (process_event, raised) (form, kept k c found)
            | inr (hits, is) ↦
                let (form, kept) = conclude-KeepsAll hits ruled keyed fresh in
                rw (process_event, is) (form, kept k c found)
          ]

      with_hits :
          (hits : List (DetectionHit f)) (ruled : State f)
          → IsKeyed ruled.clusters
          → has_key cluster_id ruled.clusters ≡ false
          → let (alert, after) = conclude f w alert_id cluster_id now graph event hits ruled in
            HasAlert (some (hits, alert), after)
      unfolding HasAlert
      with_hits [] ruled form new = tt
      with_hits (h ∷ hits) ruled form new = conclude-IsStored h hits ruled form new

      process_event-HasAlert :
          HasAlert (process_event f w uuid alert_id cluster_id now graph event state)
      unfolding process_event HasAlert
      process_event-HasAlert =
          let (result, windows) = run_rules f w uuid 0 state.rules event state.windows in
          let ruled : State f = record state { windows = windows } in
          elim (Option-cases result) [
            | inl raised ↦ rw (HasAlert, process_event, raised) tt
            | inr (hits, is) ↦ rw (HasAlert, process_event, is) (with_hits hits ruled keyed fresh)
          ]

      -- Where every cluster stands under its id, the id for a new one is fresh, the order in which
      -- Python lists a set does not change what is in it, floats are ordered as those without NaN
      -- are, a rule hits and no exception is raised: `process_event` returns an alert, it is that of
      -- a cluster of the store, and it has the entities of the event.
      pub process_event-alerts :
          (h : DetectionHit f) (hits : List (DetectionHit f)) (alert : Option (Alert f))
          (after : State f)
          → process_event f w uuid alert_id cluster_id now graph event state
            ≡ (some (h ∷ hits, alert), after)
          → IsStored event alert after.clusters
      unfolding HasAlert
      process_event-alerts h hits alert after run = subst HasAlert run process_event-HasAlert

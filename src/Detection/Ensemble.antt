-- ===== src/Detection/Ensemble.antt =====
-- The scores (services/detection/detection_core/ensemble.py, ml_scorer.py, heuristics.py and
-- temporal.py). `max` and `min` return their first argument unless another is beyond it.
use aegis_soc.Common.{
  ℕ, String, ◌<>◌, Bool, true, false, not, ◌||◌, ◌&&◌, Option, none, some, List, [], ◌∷◌, ◌++◌, map,
  if◌then◌else◌, ltb, truthy, any, keep, take, occurs, length,
}
use aegis_soc.Common.Floats.{Floats, ge, fmin, fmax, of_int}
use aegis_soc.Common.Json.{str, get_or}
use aegis_soc.Common.Strings.{Strings}
use aegis_soc.Policy.Taxonomy.{Severity, informational, low, medium, high, critical}
use aegis_soc.Schema.{severity_value}
use aegis_soc.Schema.Events.{CanonicalEvent, RiskScores}

module _ (f : Floats) where
  -- `SEVERITY_WEIGHT`
  unfoldable pub severity_weight : Severity → f.Float
  severity_weight informational = f.milli 100
  severity_weight low = f.milli 300
  severity_weight medium = f.milli 550
  severity_weight high = f.milli 800
  severity_weight critical = f.milli 1000

  -- `max(first, *rest)`
  unfoldable pub max_of : f.Float → List f.Float → f.Float
  max_of a [] = a
  max_of a (b ∷ l) = max_of (fmax f a b) l

  unfoldable pub rule_score_from_hits : List Severity → f.Float
  unfolding severity_weight max_of
  rule_score_from_hits [] = f.milli 0
  rule_score_from_hits (s ∷ l) = f.round3 (max_of (severity_weight s) (map severity_weight l))

  -- `h.get("confidence", 0.5)`
  abbrev pub confidence_of : Option f.Float → f.Float
  confidence_of none = f.milli 500
  confidence_of (some c) = c

  -- the hits by their `confidence`
  unfoldable pub intel_score_from_matches : List (Option f.Float) → f.Float
  unfolding max_of
  intel_score_from_matches [] = f.milli 0
  intel_score_from_matches (h ∷ l) = f.round3 (
      fmin f (f.milli 1000) (
        f.add (max_of (confidence_of h) (map confidence_of l))
          (f.mul (f.milli 50) (of_int f (length l)))))

  -- the weighted sum, and what a benign context makes of it
  unfoldable pub ensemble_of :
      (rule_score heuristic_score graph_score intel_score ml_score : f.Float) → Bool → f.Float
  ensemble_of rule_score heuristic_score graph_score intel_score ml_score benign_context =
      let ensemble =
        f.add
          (f.add
            (f.add (f.add (f.mul (f.milli 350) rule_score) (f.mul (f.milli 150) heuristic_score))
              (f.mul (f.milli 200) graph_score))
            (f.mul (f.milli 150) intel_score))
          (f.mul (f.milli 150) ml_score) in
      let lowered =
        if benign_context && f.lt intel_score (f.milli 100)
        then fmin f (f.mul ensemble (f.milli 450)) (f.milli 350)
        else ensemble in
      f.round4 (fmin f lowered (f.milli 1000))

  -- `round(1 / (1 + math.exp(-6 * (ensemble - 0.5))), 4)`
  unfoldable pub calibrate : f.Float → f.Float
  calibrate ensemble = f.round4 (
      f.div (of_int f 1)
        (f.add (of_int f 1) (f.exp (f.mul (f.neg (of_int f 6)) (f.sub ensemble (f.milli 500))))))

  unfoldable pub combine :
      (rule_score heuristic_score graph_score intel_score ml_score : f.Float) → Bool → RiskScores f
  unfolding ensemble_of calibrate
  combine rule_score heuristic_score graph_score intel_score ml_score benign_context =
      let ensemble =
        ensemble_of rule_score heuristic_score graph_score intel_score ml_score benign_context in
      record {
        rule_score = rule_score;
        heuristic_score = heuristic_score;
        graph_score = graph_score;
        intel_score = intel_score;
        ml_score = ml_score;
        ensemble_score = ensemble;
        calibrated_score = calibrate ensemble;
      }

  unfoldable pub severity_from_score : f.Float → Severity
  severity_from_score score =
      if ge f score (f.milli 850)
      then critical
      else if ge f score (f.milli 650)
      then high
      else if ge f score (f.milli 400)
      then medium
      else if ge f score (f.milli 200)
      then low
      else informational

  -- `np.dot` of two vectors
  unfoldable pub dot : List f.Float → List f.Float → f.Float
  dot (a ∷ l) (b ∷ m) = f.add (f.mul a b) (dot l m)
  dot _ _ = f.milli 0

  -- `_W_SELF` and `_W_NEIGHBOR`
  abbrev pub w_self : List f.Float
  w_self =
      f.milli 900
      ∷ f.milli 600
      ∷ f.milli 700
      ∷ f.milli 800
      ∷ f.milli 1000
      ∷ f.milli 500
      ∷ f.milli 400
      ∷ []

  abbrev pub w_neighbor : List f.Float
  w_neighbor =
      f.milli 500
      ∷ f.milli 400
      ∷ f.milli 500
      ∷ f.milli 600
      ∷ f.milli 700
      ∷ f.milli 300
      ∷ f.milli 200
      ∷ []

  -- `min(n / d, 1.0)`
  abbrev pub norm : ℕ → ℕ → f.Float
  norm n d = fmin f (f.div (of_int f n) (of_int f d)) (f.milli 1000)

  -- `0.0` without a path, else `max(0.0, 1.0 - n / 4.0)`
  abbrev pub path_norm : Option ℕ → f.Float
  path_norm none = f.milli 0
  path_norm (some n) = fmax f (f.milli 0) (f.sub (f.milli 1000) (f.div (of_int f n) (of_int f 4)))

  unfoldable pub build_feature_vector :
      (asset_criticality : f.Float)
      → (degree : ℕ) → (rare_edge_score : f.Float) → (path_length : Option ℕ)
      → (intel_hit_count distinct_techniques_window event_count_window : ℕ) → List f.Float
  build_feature_vector criticality degree rare path_length intel techniques events =
      criticality
      ∷ norm degree 20
      ∷ rare
      ∷ path_norm path_length
      ∷ norm intel 3
      ∷ norm techniques 5
      ∷ norm events 20
      ∷ []

  unfoldable pub sigmoid : f.Float → f.Float
  sigmoid x = f.div (f.milli 1000) (f.add (f.milli 1000) (f.exp (f.neg x)))

  -- `score` without neighbour features, as `score_from_features` calls it
  unfoldable pub ml_score : List f.Float → f.Float
  unfolding dot sigmoid
  ml_score self_features =
      let neighbor = map (λ x. f.mul x (f.milli 600)) self_features in
      f.round4 (
        sigmoid (
          f.add (f.add (dot w_self self_features) (dot w_neighbor neighbor))
            (f.neg (f.milli 1200))))

-- `SUSPICIOUS_PROCESS_HINTS` and `BENIGN_ADMIN_HINTS`
abbrev pub suspicious_process_hints : List String
suspicious_process_hints =
    "mimikatz" ∷ "procdump" ∷ "psexec" ∷ "wmic /node" ∷ "certutil -urlcache" ∷ "-enc "
    ∷ "-encodedcommand" ∷ "frombase64string" ∷ "sekurlsa" ∷ []

abbrev pub benign_admin_hints : List String
benign_admin_hints =
    "svc-sccm" ∷ "taskeng.exe" ∷ "sccm" ∷ "patch-compliance" ∷ "patch_compliance"
    ∷ "invoke-sccmpatch" ∷ "monthly-patch" ∷ "change-managed" ∷ "softwarecenter" ∷ []

-- `sep.join(l)`
unfoldable pub join : String → List String → String
join sep [] = ""
join sep (s ∷ []) = s
join sep (s ∷ t ∷ l) = s <> sep <> join sep (t ∷ l)

-- `hour in OFF_HOURS`
unfoldable pub is_off_hours : ℕ → Bool
is_off_hours hour = ltb hour 6 || ltb 21 hour

abbrev pub is_severe : Severity → Bool
is_severe high = true
is_severe critical = true
is_severe _ = false

module _ (f : Floats) (s : Strings) where
  -- the texts of `haystack` that are not empty
  unfoldable pub haystack_of : CanonicalEvent f → String
  unfolding join
  haystack_of event =
      let opt : Option String → List String = λ o. (elim o [ none ↦ [] | some t ↦ t ∷ [] ]) in
      let all_ : List String =
        opt event.command_line
        ++ (opt event.file_path
            ++ (opt event.url
                ++ (opt event.user
                    ++ (opt event.parent_process
                        ++ (opt event.process
                            ++ (join " " event.tags
                                ∷ s.text_of (get_or "note" (str "") event.raw)
                                ∷ s.text_of (get_or "ParentImage" (str "") event.raw)
                                ∷ [])))))) in
      join " " (map s.lower (keep truthy all_))

  -- a part of the score, and its reasons
  abbrev pub Part : Type 0
  Part = f.Float × List String

  abbrev pub adds : Bool → f.Float → String → Part → Part
  adds test amount reason (score, reasons) =
      if test then (f.add score amount, reasons ++ (reason ∷ [])) else (score, reasons)

  -- the hour of the event's timestamp is the argument `hour`
  unfoldable pub heuristic_score : (hour : ℕ) → CanonicalEvent f → Part
  unfolding is_off_hours haystack_of join severity_value
  heuristic_score hour event =
      let haystack = haystack_of event in
      let has_intel : Bool = elim event.intel_matches [ [] ↦ false | _ ∷ _ ↦ true ] in
      let (score, reasons) =
        adds has_intel (f.mul (f.milli 50) (of_int f (length event.intel_matches)))
          "threat_intel_corroboration"
          (adds (is_severe event.severity) (f.milli 250)
            ("native_severity_" <> severity_value event.severity)
            (adds (ge f event.asset_criticality (f.milli 800)) (f.milli 200)
              "high_criticality_asset"
              (adds (any (λ h. occurs h haystack) suspicious_process_hints) (f.milli 350)
                "suspicious_command_pattern"
                (adds (is_off_hours hour) (f.milli 150) "off_hours_activity" (f.milli 0, []))))) in
      let benign_hits = keep (λ h. occurs h haystack) benign_admin_hints in
      let has_benign : Bool = elim benign_hits [ [] ↦ false | _ ∷ _ ↦ true ] in
      if has_benign && not has_intel
      then (
        f.round3 (fmin f (fmax f (f.milli 0) (f.sub score (f.milli 450))) (f.milli 1000)),
        reasons ++ (("benign_admin_context:" <> join "," (take 3 benign_hits)) ∷ []),
      )
      else (f.round3 (fmin f score (f.milli 1000)), reasons)

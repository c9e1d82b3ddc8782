-- ===== src/Policy/Objectives.antt =====
-- Which objective a set of techniques points to
-- (services/response_policy/policy_core/objectives.py). The technique map is the data file that
-- the service loads: the tactic of each technique.
use aegis_soc.Common.{
  ℕ, ◌≤◌, suc, String, ◌≡◌, inl, inr, refl, true, none, some, List, [], ◌∷◌, arith, map, contains,
  if◌then◌else◌, str_eq, str_eq_iff, Bool-cases, Option-cases,
}
use aegis_soc.Common.Dict.{Dict, lookup, lookup-all}
use aegis_soc.Common.Floats.{Floats}

-- `TACTIC_TO_OBJECTIVE`
abbrev pub tactic_to_objective : Dict String
tactic_to_objective =
    ("impact", "ransomware")
    ∷ ("credential-access", "credential_access")
    ∷ ("lateral-movement", "lateral_movement")
    ∷ ("initial-access", "phishing")
    ∷ ("command-and-control", "c2_beacon")
    ∷ ("discovery", "recon")
    ∷ ("collection", "recon")
    ∷ ("persistence", "credential_access")
    ∷ ("privilege-escalation", "credential_access")
    ∷ ("defense-evasion", "recon")
    ∷ ("execution", "recon")
    ∷ []

-- `OBJECTIVE_PRIORITY`
abbrev pub objective_priority : List String
objective_priority =
    "ransomware" ∷ "credential_access" ∷ "lateral_movement" ∷ "c2_beacon" ∷ "phishing" ∷ "recon"
    ∷ "benign" ∷ []

-- `TACTIC_TO_OBJECTIVE.get(tactic, "recon")`, where a technique that is not in the map has the
-- tactic `None`
unfoldable pub objective_of : Dict String → String → String
unfolding lookup
objective_of tmap tid = elim (lookup tid tmap) [
  | none ↦ "recon"
  | some tactic ↦ elim (lookup tactic tactic_to_objective) [ none ↦ "recon" | some o ↦ o ]
]

-- the loop over `OBJECTIVE_PRIORITY`
unfoldable pub first_in : List String → List String → String
first_in candidates [] = "recon"
first_in candidates (o ∷ rest) = if contains candidates o then o else first_in candidates rest

module _ (f : Floats) where
  unfoldable pub infer_objective : Dict String → List String → f.Float → String
  unfolding objective_of first_in
  infer_objective tmap [] risk_score = if f.lt risk_score (f.milli 300) then "benign" else "recon"
  infer_objective tmap (t ∷ ts) risk_score =
      first_in (map (objective_of tmap) (t ∷ ts)) objective_priority

-- the place of an objective in the order of urgency; what is not in the order comes last
abbrev pub urgency_in : List String → String → ℕ
urgency_in [] o = 0
urgency_in (x ∷ l) o = if str_eq x o then 0 else suc (urgency_in l o)

abbrev pub urgency : String → ℕ
urgency = urgency_in objective_priority

first_in-least :
    (candidates order : List String) (x : String)
    → contains candidates x ≡ true
    → contains order x ≡ true
    → (contains candidates (first_in candidates order) ≡ true)
      × (urgency_in order (first_in candidates order) ≤ urgency_in order x)
unfolding first_in
first_in-least candidates [] x c o = cc
first_in-least candidates (y ∷ order) x c o = elim (Bool-cases (contains candidates y)) [
  | inl here ↦ rw here (here, ground (arith, str_eq_iff y y))
  | inr not_here ↦
      let x_later : contains order x ≡ true = ground (arith, str_eq_iff y x) in
      let (found, least) = first_in-least candidates order x c x_later in
      rw not_here
        (found, ground (arith, least, str_eq_iff y x, str_eq_iff y (first_in candidates order)))
]

objective_of-known :
    (tmap : Dict String) (t : String) → contains objective_priority (objective_of tmap t) ≡ true
unfolding objective_of
objective_of-known tmap t = elim (Option-cases (lookup t tmap)) [
  | inl unmapped ↦ rw (unmapped, objective_of) refl
  | inr (tactic, e) ↦ elim (Option-cases (lookup tactic tactic_to_objective)) [
    | inl unknown ↦ rw (e, objective_of, unknown) refl
    | inr (o, found) ↦
        rw (e, objective_of, found)
          (lookup-all (contains objective_priority) tactic o tactic_to_objective refl found)
  ]
]

contains-map :
    (g : String → String) (t : String) (ts : List String)
    → contains ts t ≡ true
    → contains (map g ts) (g t) ≡ true
contains-map g t [] h = cc
contains-map g t (s ∷ ts) h = elim (Bool-cases (str_eq s t)) [
  | inl same ↦ rw ((str_eq_iff s t).0 same) (ground (arith, str_eq_iff (g t) (g t)))
  | inr other ↦ ground (arith, contains-map g t ts, other)
]

-- With techniques, the inferred objective is that of one of them, and none of them points to a
-- more urgent one; the risk score plays no part.
pub infer_objective-most_urgent :
    (f : Floats) (tmap : Dict String) (ts : List String) (risk_score : f.Float) (t : String)
    → contains ts t ≡ true
    → (contains (map (objective_of tmap) ts) (infer_objective f tmap ts risk_score) ≡ true)
      × (urgency (infer_objective f tmap ts risk_score) ≤ urgency (objective_of tmap t))
unfolding infer_objective
infer_objective-most_urgent f tmap [] risk_score t h = cc
infer_objective-most_urgent f tmap (s ∷ ts) risk_score t h =
    first_in-least (map (objective_of tmap) (s ∷ ts)) objective_priority (objective_of tmap t)
      (contains-map (objective_of tmap) t (s ∷ ts) h) (objective_of-known tmap t)

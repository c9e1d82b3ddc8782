-- ===== src/Policy/Bandit/Process.antt =====
-- The bandit of the process and the files that it is kept in (the functions at the end of
-- services/response_policy/policy_core/bandit.py).
pub mod Start
use aegis_soc.Common.{ℕ, String, Bool, Option, none, some, List, [], ◌∷◌, if◌then◌else◌, all, ◌==◌}
use aegis_soc.Common.Dict.{Dict, lookup, insert, values}
use aegis_soc.Common.Floats.{Floats}
use aegis_soc.Policy.Bandit.{
  ◌>>=◌, Vec, Mat, Bandit, Run, Episode, arms, new_bandit, warm_start, and_then,
}

module _ (f : Floats) where
  -- the dict of `bandit_state.json`, each key of which may be missing
  pub record Saved : Type 0 where
    pub a_mat : Option (Dict (Mat f))
    pub b_vec : Option (Dict (Vec f))
    pub pulls : Option (Dict ℕ)

  -- The directory of the policy: each file, if it is there, with what it parses as, if it does; and
  -- whether the state can be written. Of the state the model knows matrices, vectors and natural
  -- counts, and of the log episodes with all five keys.
  pub record Files : Type 0 where
    pub bandit_state : Option (Option Saved)
    pub feedback_log : Option (Option (List (Episode f)))
    pub writable : Bool

  -- `_bandit`, and the files
  pub record Process : Type 0 where
    pub global : Option (Bandit f)
    pub files : Files

  abbrev or_empty {ℓ} : {V : Type ℓ} → Option (Dict V) → Dict V
  or_empty none = []
  or_empty (some d) = d

  abbrev or_zero : Option ℕ → ℕ
  or_zero none = 0
  or_zero (some n) = n

  -- the body of the loop of `load_or_new`; `none` is the `KeyError` of `b`
  unfoldable pub load_arm : Saved → String → Bandit f → Run f (Unit {0})
  unfolding lookup insert
  load_arm state arm bandit = elim (lookup arm (or_empty state.a_mat)) [
    | none ↦ (some tt, bandit)
    | some a ↦
        let with_a : Bandit f = record bandit { a_mat = insert arm a bandit.a_mat } in
        elim (state.b_vec >>= lookup arm) [
          | none ↦ (none, with_a)
          | some b ↦ (
            some tt,
            record with_a {
              b_vec = insert arm b bandit.b_vec;
              pulls = insert arm (or_zero (lookup arm (or_empty state.pulls))) bandit.pulls;
            },
          )
        ]
  ]

  unfoldable pub load_arms : Saved → List String → Bandit f → Run f (Unit {0})
  unfolding load_arm
  load_arms state [] bandit = (some tt, bandit)
  load_arms state (arm ∷ rest) bandit =
      and_then f (load_arm state arm bandit) (λ done after. load_arms state rest after)

  -- `load_or_new`: an exception is caught, and what was loaded before it stays
  unfoldable pub load_or_new : Files → Bandit f
  unfolding load_arms new_bandit arms
  load_or_new files = elim files.bandit_state [
    | none ↦ new_bandit f
    | some unreadable ↦ elim unreadable [
      | none ↦ new_bandit f
      | some state ↦ (load_arms state arms (new_bandit f)).1
    ]
  ]

  -- `{arm: d[arm] for arm in ARMS}`
  unfoldable pub over_keys {ℓ} : {V : Type ℓ} → Dict V → List String → Option (Dict V)
  unfolding lookup
  over_keys d [] = some []
  over_keys d (arm ∷ rest) = do
    v ← lookup arm d
    others ← over_keys d rest
    some ((arm, v) ∷ others)

  -- `save`; a state that cannot be written raises
  unfoldable pub save : Bandit f → Files → Option Files
  unfolding over_keys arms
  save bandit files = do
    a ← over_keys bandit.a_mat arms
    b ← over_keys bandit.b_vec arms
    if files.writable
        then some (record files {
          bandit_state =
              some (some (record { a_mat = some a; b_vec = some b; pulls = some bandit.pulls }));
        })
        else none

  -- `load_feedback_log`
  unfoldable pub load_feedback_log : Files → Option (List (Episode f))
  load_feedback_log files = elim files.feedback_log [ none ↦ some [] | some log ↦ log ]

  -- the save of a bandit that has been warm-started, after `_bandit` is set to it
  abbrev pub started : Process → Run f ℕ → Option (Bandit f) × Process
  started p (none, bandit) = (none, record p { global = some bandit })
  started p (some n, bandit) = elim (save bandit p.files) [
    | none ↦ (none, record p { global = some bandit })
    | some files ↦ (some bandit, record p { global = some bandit; files = files })
  ]

  -- the start of a bandit that has learned nothing
  unfoldable pub start_bandit : Bandit f → Process → Option (Bandit f) × Process
  unfolding load_feedback_log warm_start save
  start_bandit bandit p = elim (load_feedback_log p.files) [
    | none ↦ (none, record p { global = some bandit })
    | some episodes ↦ started p (warm_start f bandit episodes)
  ]

  -- `get_bandit`; an exception leaves `_bandit` as it is then
  unfoldable pub get_bandit : Process → Option (Bandit f) × Process
  unfolding load_or_new start_bandit
  get_bandit p = elim p.global [
    | some bandit ↦ (some bandit, p)
    | none ↦
        let bandit = load_or_new p.files in
        if all (λ count. count == 0) (values bandit.pulls)
        then start_bandit bandit p
        else (some bandit, record p { global = some bandit })
  ]

  -- `persist_bandit`
  unfoldable pub persist_bandit : Process → Option Process
  unfolding save
  persist_bandit p = elim p.global [
    | none ↦ some p
    | some bandit ↦ save bandit p.files >>= λ files. some (record p { files = files })
  ]

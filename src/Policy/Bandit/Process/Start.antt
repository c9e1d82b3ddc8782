-- ===== src/Policy/Bandit/Process/Start.antt =====
-- The first start of the bandit.
use aegis_soc.Common.{
  ℕ, String, ◌≡◌, refl, ◌∙◌, true, none, some, List, [], ◌∷◌, arith, str_eq_iff, contains,
}
use aegis_soc.Common.Dict.{Dict, lookup, has_key}
use aegis_soc.Common.Floats.{Floats}
use aegis_soc.Policy.Bandit.{Bandit, Episode, arms, new_bandit, warm_start, feature_dim}
use aegis_soc.Policy.Bandit.Learning.{
  IsShaped, about, count_of, warm_start-counts, new_bandit-IsShaped, new_bandit-arms,
}
use aegis_soc.Policy.Bandit.Process.{
  Process, Files, over_keys, save, started, start_bandit, load_or_new, load_feedback_log,
  get_bandit,
}

module _ (f : Floats) where
  over_keys-returns {ℓ} :
      {V : Type ℓ} (d : Dict V) (l : List String)
      → ((j : String) → contains l j ≡ true → (v : V) × (lookup j d ≡ some v))
      → (e : Dict V) × (over_keys f d l ≡ some e)
  unfolding over_keys
  over_keys-returns d [] has = ([], refl)
  over_keys-returns d (arm ∷ l) has =
      let (v, is) = has arm (ground (arith, str_eq_iff arm arm)) in
      let (e, rest) = over_keys-returns d l (λ j h. has j (ground (arith, h))) in
      rw (over_keys, is, rest) (_, refl)

  -- A bandit that has all the arms can be saved.
  save-returns :
      (bandit : Bandit f) (files : Files f)
      → IsShaped f (feature_dim f) bandit
      → ((j : String) → contains arms j ≡ true → has_key j bandit.a_mat ≡ true)
      → files.writable ≡ true
      → (saved : Files f) × (save f bandit files ≡ some saved)
  unfolding save
  save-returns bandit files shaped has writable =
      let (a, is_a) =
        over_keys-returns bandit.a_mat arms
          (λ j h. let ((m, is, _), _, _) = shaped j (has j h) in (m, is)) in
      let (b, is_b) =
        over_keys-returns bandit.b_vec arms
          (λ j h. let (_, (v, is, _), _) = shaped j (has j h) in (v, is)) in
      rw (save, is_a, is_b, writable) (_, refl)

  unlearned : (arm : String) → count_of (lookup arm (new_bandit f).pulls) ≡ 0
  unfolding new_bandit lookup arms
  unlearned arm = ground arith

  nothing_saved : (files : Files f) → files.bandit_state ≡ none → load_or_new f files ≡ new_bandit f
  unfolding load_or_new
  nothing_saved files no_state = rw (load_or_new, no_state) refl

  runs :
      (p : Process f) (eps : List (Episode f)) (bandit : Bandit f) (files : Files f) (n : ℕ)
      → p.global ≡ none
      → p.files.bandit_state ≡ none
      → load_feedback_log f p.files ≡ some eps
      → warm_start f (new_bandit f) eps ≡ (some n, bandit)
      → save f bandit p.files ≡ some files
      → get_bandit f p ≡ (some bandit, record p { global = some bandit; files = files })
  unfolding get_bandit start_bandit new_bandit arms
  runs p eps bandit files n no_bandit no_state log learned saved =
      rw
        (
          get_bandit,
          no_bandit,
          nothing_saved p.files no_state,
          start_bandit,
          log,
          nothing_saved p.files no_state,
          learned,
          started,
          saved,
        )
        refl

  -- Let a process have no bandit yet and find no saved state, a feedback log that can be read or
  -- none, and a directory that can be written. Then `get_bandit` returns a bandit and keeps it, so
  -- that the next call returns the same one; its matrices, vectors and counts are of the context's
  -- size; it has all the arms; and the count of each is the number of logged episodes about it.
  pub get_bandit-starts :
      (p : Process f) (eps : List (Episode f))
      → p.global ≡ none
      → p.files.bandit_state ≡ none
      → load_feedback_log f p.files ≡ some eps
      → p.files.writable ≡ true
      → (bandit : Bandit f) × (process : Process f) × (get_bandit f p ≡ (some bandit, process))
        × (get_bandit f process ≡ (some bandit, process))
        × IsShaped f (feature_dim f) bandit
        × ((arm : String)
            → contains arms arm ≡ true
            → (has_key arm bandit.a_mat ≡ true)
              × (count_of (lookup arm bandit.pulls) ≡ about arm eps))
  unfolding get_bandit
  get_bandit-starts p eps no_bandit no_state log writable =
      let (bandit, learned, shaped, same, pulls) =
        warm_start-counts f (new_bandit f) eps (new_bandit-IsShaped f) in
      let has = λ (j : String) (h : contains arms j ≡ true). same j ∙ (new_bandit-arms f j ∙ h) in
      let (files, saved) = save-returns bandit p.files shaped has writable in
      (
        bandit,
        record p { global = some bandit; files = files },
        runs p eps bandit files _ no_bandit no_state log learned saved,
        refl,
        shaped,
        λ arm h. (has arm h, omega (arith, pulls arm (new_bandit-arms f arm ∙ h), unlearned arm)),
      )

-- ===== src/Graph/Search/Paths.antt =====
-- Paths along a table of adjacency.
use aegis_soc.Common.{ℕ, suc, ◌+◌, String, ◌≡◌, refl, sym, List, [], ◌∷◌, ◌++◌, arith, length}
use mathlib.Core.Path.{subst}
use mathlib.Core.List.{Memᴰ}

module _ {E : Type 0} (target : E → String) (adjacent : String → List E) where
  -- Each edge of the list stands among those of the node that the edges before it lead to.
  abbrev pub IsPath : String → List E → String → Type 0
  IsPath u [] v = u ≡ v
  IsPath u (e ∷ p) v = Memᴰ e (adjacent u) × IsPath (target e) p v

  -- the walks from `src`, by their number of edges
  pub data Walk (src : String) : ℕ → String → Type 0 where
    here : Walk src 0 src
    step :
        {n : ℕ} {u : String} (e : E)
        → Walk src n u
        → Memᴰ e (adjacent u)
        → Walk src (suc n) (target e)

  pub IsPath-snoc :
      (u v : String) (p : List E) (e : E)
      → IsPath u p v
      → Memᴰ e (adjacent v)
      → IsPath u (p ++ (e ∷ [])) (target e)
  IsPath-snoc u v [] e h m = (subst (λ w. Memᴰ e (adjacent w)) (sym h) m, refl)
  IsPath-snoc u v (d ∷ p) e h m = (h.0, IsPath-snoc (target d) v p e h.1 m)

  extend :
      (src u v : String) (n : ℕ) (p : List E)
      → Walk src n u
      → IsPath u p v
      → Walk src (n + length p) v
  extend src u v n [] w h = subst (λ m. Walk src m v) (omega arith) (subst (Walk src n) h w)
  extend src u v n (e ∷ p) w h =
      subst (λ m. Walk src m v) (omega arith) (extend src (target e) v (suc n) p (step e w h.0) h.1)

  pub IsPath-Walk : (u v : String) (p : List E) → IsPath u p v → Walk u (length p) v
  IsPath-Walk u v p h = subst (λ m. Walk u m v) (omega arith) (extend u u v 0 p here h)

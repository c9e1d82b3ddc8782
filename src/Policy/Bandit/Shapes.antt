-- ===== src/Policy/Bandit/Shapes.antt =====
-- Operations on vectors and matrices of fitting shapes raise nothing.
use aegis_soc.Common.{
  ℕ, suc, zero, String, ◌≡◌, refl, Bool, true, false, Option, some, List, [], ◌∷◌, arith, map,
  length, all, ◌==◌,
}
use aegis_soc.Common.Dict.{lookup}
use aegis_soc.Common.Floats.{Floats}
use aegis_soc.Policy.Bandit.{
  Vec, Mat, Bandit, dot, mat_vec, outer, add_vec, add_mat, zeros, sum_rows, width, vec_mat, score,
}

pub length-map {ℓ κ} :
    {A : Type ℓ} {B : Type κ} (g : A → B) (l : List A) → length (map g l) ≡ length l
length-map g [] = refl
length-map g (x ∷ l) = omega (arith, length-map g l)

module _ (f : Floats) where
  -- a matrix of `n` rows, each of length `n`
  abbrev pub rows_of : ℕ → Mat f → Bool
  rows_of n m = all (λ row. length row == n) m

  abbrev pub IsSquare : ℕ → Mat f → Type 0
  IsSquare n m = (length m ≡ n) × (rows_of n m ≡ true)

  dot-returns : (x y : Vec f) → length x ≡ length y → (s : f.Float) × (dot f x y ≡ some s)
  unfolding dot
  dot-returns [] [] h = (_, refl)
  dot-returns [] (y ∷ ys) h = absurd (omega arith)
  dot-returns (x ∷ xs) [] h = absurd (omega arith)
  dot-returns (x ∷ xs) (y ∷ ys) h =
      let (s, e) = dot-returns xs ys (omega arith) in rw (dot, e) (_, refl)

  mat_vec-returns :
      (m : Mat f) (y : Vec f)
      → rows_of (length y) m ≡ true
      → (v : Vec f) × (mat_vec f m y ≡ some v) × (length v ≡ length m)
  unfolding mat_vec
  mat_vec-returns [] y h = ([], refl, refl)
  mat_vec-returns (row ∷ m) y h =
      let (s, e) = dot-returns row y (ground arith) in
      let (v, r, n) = mat_vec-returns m y (ground arith) in
      rw (mat_vec, e, r) (s ∷ v, refl, omega (arith, n))

  pub add_vec-returns :
      (x y : Vec f)
      → length x ≡ length y
      → (v : Vec f) × (add_vec f x y ≡ some v) × (length v ≡ length x)
  unfolding add_vec
  add_vec-returns [] [] h = ([], refl, refl)
  add_vec-returns [] (y ∷ ys) h = absurd (omega arith)
  add_vec-returns (x ∷ xs) [] h = absurd (omega arith)
  add_vec-returns (x ∷ xs) (y ∷ ys) h =
      let (v, e, n) = add_vec-returns xs ys (omega arith) in
      rw (add_vec, e) (f.add x y ∷ v, refl, omega (arith, n))

  pub add_mat-returns :
      (k : ℕ) (m n : Mat f)
      → length m ≡ length n
      → rows_of k m ≡ true
      → rows_of k n ≡ true
      → (s : Mat f) × (add_mat f m n ≡ some s) × (length s ≡ length m) × (rows_of k s ≡ true)
  unfolding add_mat
  add_mat-returns k [] [] h a b = ([], refl, refl, refl)
  add_mat-returns k [] (s ∷ n) h a b = absurd (omega arith)
  add_mat-returns k (r ∷ m) [] h a b = absurd (omega arith)
  add_mat-returns k (r ∷ m) (s ∷ n) h a b =
      let (v, e, len) = add_vec-returns r s (ground arith) in
      let (rest, e', l, all_) = add_mat-returns k m n (omega arith) (ground arith) (ground arith) in
      rw (add_mat, e, e') (v ∷ rest, refl, omega (arith, l), ground (arith, len, all_))

  length-zeros : (n : ℕ) → length (zeros f n) ≡ n
  unfolding zeros
  length-zeros zero = refl
  length-zeros (suc n) = omega (arith, length-zeros n)

  sum_rows-returns :
      (n : ℕ) (x : Vec f) (m : Mat f)
      → length x ≡ length m
      → rows_of n m ≡ true
      → (v : Vec f) × (sum_rows f n x m ≡ some v) × (length v ≡ n)
  unfolding sum_rows
  sum_rows-returns n [] [] h all_ = (zeros f n, refl, length-zeros n)
  sum_rows-returns n [] (r ∷ m) h all_ = absurd (omega arith)
  sum_rows-returns n (x ∷ xs) [] h all_ = absurd (omega arith)
  sum_rows-returns n (x ∷ xs) (r ∷ m) h all_ =
      let (rest, e, l) = sum_rows-returns n xs m (omega arith) (ground arith) in
      let scaled = map (f.mul x) r in
      let (v, is, k) = add_vec-returns scaled rest (ground (arith, length-map (f.mul x) r, l)) in
      rw (sum_rows, e, is) (v, refl, ground (arith, k, length-map (f.mul x) r))

  width-square : (n : ℕ) (m : Mat f) → IsSquare n m → width f m ≡ n
  width-square n [] square = square.0
  width-square n (row ∷ m) square = ground (arith, square.1)

  vec_mat-returns :
      (n : ℕ) (x : Vec f) (m : Mat f)
      → length x ≡ n
      → IsSquare n m
      → (v : Vec f) × (vec_mat f x m ≡ some v) × (length v ≡ n)
  unfolding vec_mat
  vec_mat-returns n x m h square =
      rw (vec_mat, width-square n m square)
        (sum_rows-returns n x m (omega (arith, square.0)) square.1)

  pub outer-IsSquare : (x : Vec f) → IsSquare (length x) (outer f x x)
  unfolding outer
  outer-IsSquare x = (length-map (λ a. map (f.mul a) x) x, rows x)
    where
      rows : (y : Vec f) → rows_of (length x) (map (λ a. map (f.mul a) x) y) ≡ true
      rows [] = refl
      rows (a ∷ y) = ground (arith, rows y, length-map (f.mul a) x)

  -- What `score` needs of an arm: a matrix with a square inverse, and a vector, of the length `n`.
  abbrev pub CanScore : (Mat f → Option (Mat f)) → Bandit f → ℕ → String → Type 0
  CanScore inv bandit n arm =
      (a : Mat f) × (a_inv : Mat f) × (b : Vec f) × (lookup arm bandit.a_mat ≡ some a)
      × (inv a ≡ some a_inv)
      × (lookup arm bandit.b_vec ≡ some b)
      × IsSquare n a_inv
      × (length b ≡ n)

  pub score-returns :
      (inv : Mat f → Option (Mat f)) (bandit : Bandit f) (arm : String) (x : Vec f) (explore : Bool)
      → CanScore inv bandit (length x) arm
      → (s : f.Float) × (score f inv bandit arm x explore ≡ some s)
  unfolding score
  score-returns inv bandit arm x explore (a, a_inv, b, is_a, is_inv, is_b, square, len) =
      let (theta, e, n) = mat_vec-returns a_inv b (ground (arith, len, square)) in
      let (mean, is_mean) = dot-returns theta x (omega (arith, n, square.0)) in
      let (left, is_left, k) = vec_mat-returns (length x) x a_inv refl square in
      let (s, is_square) = dot-returns left x k in
      elim explore as (λ e. (t : f.Float) × (score f inv bandit arm x e ≡ some t)) [
        | true ↦ rw (score, is_a, is_inv, is_b, e, is_mean, is_left, is_square) (_, refl)
        | false ↦ rw (score, is_a, is_inv, is_b, e, is_mean) (mean, refl)
      ]

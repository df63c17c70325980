-- ===== src/Arrays/Cells.antt =====
-- Writes at lists of places: they commute, cancel in pairs, and change one entry for each
-- occurrence of its place.
use hyper_graph_streaming_cc.Prelude.{
  ℕ, zero, suc, ◌+◌, ◌<◌, bit_xor, ◌≡◌, refl, ap, ◌∙◌, sym, List, [], ◌∷◌, ◌++◌, length, get_or,
  length-set, arith, ◌==◌, if◌then◌else◌, Bool-cases, inl, inr,
}
use hyper_graph_streaming_cc.Bits.{xor_right_comm, xor_cancel, xor_assoc, bit_xor-zero}
use hyper_graph_streaming_cc.Arrays.{xor_at, xor_cells}

xor_at_comm : (xs : List ℕ) (i j v w : ℕ) → xor_at (xor_at xs i v) j w ≡ xor_at (xor_at xs j w) i v
xor_at_comm [] i j v w = refl
xor_at_comm (x ∷ xs) zero zero v w = ap (λ t. t ∷ xs) (xor_right_comm x v w)
xor_at_comm (x ∷ xs) zero (suc j) v w = refl
xor_at_comm (x ∷ xs) (suc i) zero v w = refl
xor_at_comm (x ∷ xs) (suc i) (suc j) v w = ap (λ t. x ∷ t) (xor_at_comm xs i j v w)

xor_at_cancel : (xs : List ℕ) (i v : ℕ) → xor_at (xor_at xs i v) i v ≡ xs
xor_at_cancel [] i v = refl
xor_at_cancel (x ∷ xs) zero v = ap (λ t. t ∷ xs) (xor_cancel x v)
xor_at_cancel (x ∷ xs) (suc i) v = ap (λ t. x ∷ t) (xor_at_cancel xs i v)

pub length-xor_cells : (is : List ℕ) (v : ℕ) (xs : List ℕ) → length (xor_cells is v xs) ≡ length xs
unfolding xor_cells
length-xor_cells [] v xs = refl
length-xor_cells (i ∷ is) v xs = length-xor_cells is v (xor_at xs i v) ∙ length-set xs i _

xor_cells-xor_at :
    (is : List ℕ) (v : ℕ) (xs : List ℕ) (j w : ℕ)
    → xor_cells is v (xor_at xs j w) ≡ xor_at (xor_cells is v xs) j w
unfolding xor_cells
xor_cells-xor_at [] v xs j w = refl
xor_cells-xor_at (i ∷ is) v xs j w =
    ap (xor_cells is v) (xor_at_comm xs j i w v) ∙ xor_cells-xor_at is v (xor_at xs i v) j w

-- Two batches of writes may change places.
pub xor_cells_comm :
    (is js : List ℕ) (v w : ℕ) (xs : List ℕ)
    → xor_cells is v (xor_cells js w xs) ≡ xor_cells js w (xor_cells is v xs)
unfolding xor_cells
xor_cells_comm is [] v w xs = refl
xor_cells_comm is (j ∷ js) v w xs =
    xor_cells_comm is js v w (xor_at xs j w) ∙ ap (xor_cells js w) (xor_cells-xor_at is v xs j w)

-- A batch of writes undoes itself.
pub xor_cells_cancel : (is : List ℕ) (v : ℕ) (xs : List ℕ) → xor_cells is v (xor_cells is v xs) ≡ xs
unfolding xor_cells
xor_cells_cancel [] v xs = refl
xor_cells_cancel (i ∷ is) v xs =
    ap (xor_cells is v) (sym (xor_cells-xor_at is v (xor_at xs i v) i v))
    ∙ xor_cells_cancel is v (xor_at (xor_at xs i v) i v)
    ∙ xor_at_cancel xs i v

pub xor_cells-append :
    (is js : List ℕ) (v : ℕ) (xs : List ℕ)
    → xor_cells (is ++ js) v xs ≡ xor_cells js v (xor_cells is v xs)
unfolding xor_cells
xor_cells-append [] js v xs = refl
xor_cells-append (i ∷ is) js v xs = xor_cells-append is js v (xor_at xs i v)

-- How often a place stands in a list of places.
unfoldable pub count : ℕ → List ℕ → ℕ
count k [] = 0
count k (i ∷ is) = let rest = count k is in if i == k then suc rest else rest

pub count-append : (k : ℕ) (is js : List ℕ) → count k (is ++ js) ≡ count k is + count k js
unfolding count
count-append k [] js = omega arith
count-append k (i ∷ is) js = ground (arith, count-append k is js)

-- `v` taken `m` times, by exclusive or.
unfoldable pub times : ℕ → ℕ → ℕ
times zero v = 0
times (suc m) v = bit_xor v (times m v)

get_or-xor_at :
    (i v : ℕ) (xs : List ℕ) (k : ℕ)
    → k < length xs
    → get_or (xor_at xs i v) k 0 ≡ (if i == k then bit_xor (get_or xs k 0) v else get_or xs k 0)
get_or-xor_at i v [] k h = absurd (omega arith)
get_or-xor_at zero v (x ∷ xs) zero h = refl
get_or-xor_at zero v (x ∷ xs) (suc k) h = ground arith
get_or-xor_at (suc i) v (x ∷ xs) zero h = ground arith
get_or-xor_at (suc i) v (x ∷ xs) (suc k) h = ground (arith, get_or-xor_at i v xs k (omega arith))

-- The entry at `k` takes `v` once for each write at `k`.
pub get_or-xor_cells :
    (is : List ℕ) (v : ℕ) (xs : List ℕ) (k : ℕ)
    → k < length xs
    → get_or (xor_cells is v xs) k 0 ≡ bit_xor (get_or xs k 0) (times (count k is) v)
unfolding xor_cells count times
get_or-xor_cells [] v xs k h = sym (bit_xor-zero (get_or xs k 0))
get_or-xor_cells (i ∷ is) v xs k h =
    let later = get_or-xor_cells is v (xor_at xs i v) k (rw length-set h) in
    let now = get_or-xor_at i v xs k h in
    elim (Bool-cases (i == k)) [
      | inl e ↦
          later
          ∙ ap (λ t. bit_xor t (times (count k is) v)) (rw e at now)
          ∙ rw e (xor_assoc (get_or xs k 0) v (times (count k is) v))
      | inr e ↦ later ∙ rw e (ap (λ t. bit_xor t (times (count k is) v)) (rw e at now))
    ]

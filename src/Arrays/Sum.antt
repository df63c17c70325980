-- ===== src/Arrays/Sum.antt =====
-- The exclusive or of two arrays, entry by entry, and the loop that computes it in place.
use hyper_graph_streaming_cc.Prelude.{
  ℕ, zero, suc, ◌+◌, ◌≤◌, ◌<◌, bit_xor, ◌≡◌, refl, ap, ap₂, ◌∙◌, sym, List, [], ◌∷◌, length, get_or,
  get_or-set, get_or_ext, get_or-out, length-set, replicate, arith, leb, ltb, ◌&&◌, if◌then◌else◌,
}
use hyper_graph_streaming_cc.Bits.{xor_comm, xor_assoc, xor_self, bit_xor-zero}
use hyper_graph_streaming_cc.Arrays.{xor_at, xor_cells, xor_range}

-- Where `ys` is shorter it reads as 0.
unfoldable pub xor_arrays : List ℕ → List ℕ → List ℕ
xor_arrays [] ys = []
xor_arrays (x ∷ xs) [] = x ∷ xs
xor_arrays (x ∷ xs) (y ∷ ys) = bit_xor x y ∷ xor_arrays xs ys

pub length-xor_arrays : (xs ys : List ℕ) → length (xor_arrays xs ys) ≡ length xs
unfolding xor_arrays
length-xor_arrays [] ys = refl
length-xor_arrays (x ∷ xs) [] = refl
length-xor_arrays (x ∷ xs) (y ∷ ys) = ap suc (length-xor_arrays xs ys)

pub get_or-xor_arrays :
    (xs ys : List ℕ) (k : ℕ)
    → k < length xs
    → get_or (xor_arrays xs ys) k 0 ≡ bit_xor (get_or xs k 0) (get_or ys k 0)
unfolding xor_arrays
get_or-xor_arrays [] ys k h = absurd (omega arith)
get_or-xor_arrays (x ∷ xs) [] k h = sym (bit_xor-zero (get_or (x ∷ xs) k 0))
get_or-xor_arrays (x ∷ xs) (y ∷ ys) zero h = refl
get_or-xor_arrays (x ∷ xs) (y ∷ ys) (suc k) h = get_or-xor_arrays xs ys k (omega arith)

length-xor_range : (left i : ℕ) (xs ys : List ℕ) → length (xor_range left i xs ys) ≡ length xs
unfolding xor_range
length-xor_range zero i xs ys = refl
length-xor_range (suc left) i xs ys =
    length-xor_range left (i + 1) (xor_at xs i (get_or ys i 0)) ys ∙ length-set xs i _

get_or-xor_range :
    (left i : ℕ) (xs ys : List ℕ) (k : ℕ)
    → i + left ≤ length xs
    → get_or (xor_range left i xs ys) k 0 ≡ (
        if leb i k && ltb k (i + left)
        then bit_xor (get_or xs k 0) (get_or ys k 0)
        else get_or xs k 0)
unfolding xor_range
get_or-xor_range zero i xs ys k h = ground arith
get_or-xor_range (suc left) i xs ys k h = ground (
  arith,
  get_or-xor_range left (i + 1) (xor_at xs i (get_or ys i 0)) ys k,
  length-set xs i (bit_xor (get_or xs i 0) (get_or ys i 0)),
  get_or-set xs i k (bit_xor (get_or xs i 0) (get_or ys i 0)) 0,
)

-- The loop over all entries computes the sum of the arrays.
pub xor_range-eq-xor_arrays :
    (n : ℕ) (xs ys : List ℕ) → length xs ≡ n → xor_range n 0 xs ys ≡ xor_arrays xs ys
xor_range-eq-xor_arrays n xs ys e =
    get_or_ext 0 _ _ (length-xor_range n 0 xs ys ∙ sym (length-xor_arrays xs ys)) (λ k. ground (
      arith,
      get_or-xor_range n 0 xs ys k,
      get_or-xor_arrays xs ys k,
      get_or-out (xor_arrays xs ys) k 0,
      get_or-out xs k 0,
      length-xor_arrays xs ys,
    ))

pub xor_arrays_comm : (xs ys : List ℕ) → length xs ≡ length ys → xor_arrays xs ys ≡ xor_arrays ys xs
unfolding xor_arrays
xor_arrays_comm [] [] e = refl
xor_arrays_comm [] (y ∷ ys) e = absurd (omega arith)
xor_arrays_comm (x ∷ xs) [] e = absurd (omega arith)
xor_arrays_comm (x ∷ xs) (y ∷ ys) e = ap₂ ◌∷◌ (xor_comm x y) (xor_arrays_comm xs ys (omega arith))

pub xor_arrays_assoc :
    (xs ys zs : List ℕ)
    → length xs ≡ length ys
    → length ys ≡ length zs
    → xor_arrays (xor_arrays xs ys) zs ≡ xor_arrays xs (xor_arrays ys zs)
unfolding xor_arrays
xor_arrays_assoc [] ys zs d e = refl
xor_arrays_assoc (x ∷ xs) [] zs d e = absurd (omega arith)
xor_arrays_assoc (x ∷ xs) (y ∷ ys) [] d e = absurd (omega arith)
xor_arrays_assoc (x ∷ xs) (y ∷ ys) (z ∷ zs) d e =
    ap₂ ◌∷◌ (xor_assoc x y z) (xor_arrays_assoc xs ys zs (omega arith) (omega arith))

pub xor_arrays-zero : (n : ℕ) (xs : List ℕ) → xor_arrays xs (replicate n 0) ≡ xs
unfolding xor_arrays
xor_arrays-zero n [] = refl
xor_arrays-zero zero (x ∷ xs) = refl
xor_arrays-zero (suc n) (x ∷ xs) = ap₂ ◌∷◌ (bit_xor-zero x) (xor_arrays-zero n xs)

pub xor_arrays_self : (xs : List ℕ) → xor_arrays xs xs ≡ replicate (length xs) 0
unfolding xor_arrays
xor_arrays_self [] = refl
xor_arrays_self (x ∷ xs) = ap₂ ◌∷◌ (xor_self x) (xor_arrays_self xs)

xor_arrays-xor_at :
    (xs ys : List ℕ) (i v : ℕ)
    → length xs ≡ length ys
    → xor_arrays xs (xor_at ys i v) ≡ xor_at (xor_arrays xs ys) i v
unfolding xor_arrays
xor_arrays-xor_at [] [] i v e = refl
xor_arrays-xor_at [] (y ∷ ys) i v e = absurd (omega arith)
xor_arrays-xor_at (x ∷ xs) [] i v e = absurd (omega arith)
xor_arrays-xor_at (x ∷ xs) (y ∷ ys) zero v e =
    ap (λ t. t ∷ xor_arrays xs ys) (sym (xor_assoc x y v))
xor_arrays-xor_at (x ∷ xs) (y ∷ ys) (suc i) v e =
    ap (λ t. bit_xor x y ∷ t) (xor_arrays-xor_at xs ys i v (omega arith))

-- A batch of writes to the second summand is one to the sum.
pub xor_arrays-xor_cells :
    (is : List ℕ) (v : ℕ) (xs ys : List ℕ)
    → length xs ≡ length ys
    → xor_arrays xs (xor_cells is v ys) ≡ xor_cells is v (xor_arrays xs ys)
unfolding xor_cells
xor_arrays-xor_cells [] v xs ys e = refl
xor_arrays-xor_cells (i ∷ is) v xs ys e =
    xor_arrays-xor_cells is v xs (xor_at ys i v) (e ∙ sym (length-set ys i _))
    ∙ ap (xor_cells is v) (xor_arrays-xor_at xs ys i v e)

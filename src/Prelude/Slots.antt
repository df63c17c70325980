-- ===== src/Prelude/Slots.antt =====
-- Optional reads of arrays, before and after writes.
use Prim.Native.Nat.{ℕ, zero, suc, ◌<◌}
use mathlib.Core.Path.{◌≡◌, refl, sym, ap, ◌∙◌, subst}
use mathlib.Core.Logic.{inl, inr}
use mathlib.Core.Bool.{Bool, false}
use mathlib.Core.List.{List, [], ◌∷◌}
use mathlib.Core.Option.{some, some-injective}
use native.Mathlib.Omega.{arith}
use hyper_graph_streaming_cc.Prelude.Tests.{◌==◌, ==_iff, Bool-cases, if◌then◌else◌}
use hyper_graph_streaming_cc.Prelude.Lists.{length, get_elem?, set, replicate}

module _ {ℓ} {A : Type ℓ} where
  pub if_false : (x y : A) (b : Bool) → b ≡ false → (if b then x else y) ≡ y
  if_false x y b e = rw e refl

  pub get_elem?-lt : (xs : List A) (i : ℕ) → i < length xs → (x : A) × (get_elem? xs i ≡ some x)
  get_elem?-lt [] i h = absurd (omega arith)
  get_elem?-lt (x ∷ xs) zero h = (x, refl)
  get_elem?-lt (x ∷ xs) (suc i) h = get_elem?-lt xs i (omega arith)

  pub get_elem?-below : (xs : List A) (i : ℕ) (x : A) → get_elem? xs i ≡ some x → i < length xs
  get_elem?-below [] i x e = cc
  get_elem?-below (y ∷ xs) zero x e = omega arith
  get_elem?-below (y ∷ xs) (suc i) x e = omega (arith, get_elem?-below xs i x e)

  pub get_elem?-set_same :
      (xs : List A) (i : ℕ) (v : A) → i < length xs → get_elem? (set xs i v) i ≡ some v
  get_elem?-set_same [] i v h = absurd (omega arith)
  get_elem?-set_same (x ∷ xs) zero v h = refl
  get_elem?-set_same (x ∷ xs) (suc i) v h = get_elem?-set_same xs i v (omega arith)

  pub get_elem?-set_other :
      (xs : List A) (i j : ℕ) (v : A) → (i == j) ≡ false → get_elem? (set xs i v) j ≡ get_elem? xs j
  get_elem?-set_other [] i j v h = refl
  get_elem?-set_other (x ∷ xs) zero zero v h = absurd (ground arith)
  get_elem?-set_other (x ∷ xs) zero (suc j) v h = refl
  get_elem?-set_other (x ∷ xs) (suc i) zero v h = refl
  get_elem?-set_other (x ∷ xs) (suc i) (suc j) v h = get_elem?-set_other xs i j v (ground arith)

  -- What holds of a written element, and of every other one, holds of all after the write.
  pub set_every {ℓ'} :
      (q : ℕ → A → Type ℓ') (xs : List A) (i : ℕ) (v : A)
      → i < length xs
      → q i v
      → ((j : ℕ) (x : A) → get_elem? xs j ≡ some x → (i == j) ≡ false → q j x)
      → (j : ℕ) (x : A) → get_elem? (set xs i v) j ≡ some x
      → q j x
  set_every q xs i v lt here others j x e = elim (Bool-cases (i == j)) [
    | inl same ↦
        let at : i ≡ j = (==_iff i j).0 same in
        subst (λ k. q k x) at
          (subst (q i)
            (some-injective v x
              (sym (get_elem?-set_same xs i v lt) ∙ ap (get_elem? (set xs i v)) at ∙ e))
            here)
    | inr other ↦ others j x (sym (get_elem?-set_other xs i j v other) ∙ e) other
  ]

  pub get_elem?-replicate : (n i : ℕ) (a x : A) → get_elem? (replicate n a) i ≡ some x → x ≡ a
  get_elem?-replicate zero i a x h = cc
  get_elem?-replicate (suc n) zero a x h = cc
  get_elem?-replicate (suc n) (suc i) a x h = get_elem?-replicate n i a x h

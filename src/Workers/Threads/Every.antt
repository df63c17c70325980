-- ===== src/Workers/Threads/Every.antt =====
-- What holds of every worker, and sums over the workers, when one moves or all are notified.
use mathlib.Core.Option.{some-injective}
use hyper_graph_streaming_cc.Prelude.{
  subst, ℕ, zero, suc, ◌+◌, ◌≤◌, ◌≡◌, refl, List, [], ◌∷◌, arith, some, true, false, length,
  get_elem?, set, if◌then◌else◌,
}
use hyper_graph_streaming_cc.Workers.Threads.{
  Place, Worker, wake, notify_all, holds_lock, lock_free, all_paused, all_unpaused, has_exited,
  all_exited,
}

abbrev pub Every {κ} : (Worker → Type κ) → List Worker → Type κ
Every P [] = Unit
Every P (w ∷ ws) = P w × Every P ws

module _ {κ} (P : Worker → Type κ) where
  pub Every-at :
      (ws : List Worker) (i : ℕ) (w : Worker) → get_elem? ws i ≡ some w → Every P ws → P w
  Every-at [] i w e h = cc
  Every-at (x ∷ ws) zero w e h = subst P (some-injective x w e) h.0
  Every-at (x ∷ ws) (suc i) w e h = Every-at ws i w e h.1

  pub Every-set : (ws : List Worker) (i : ℕ) (w : Worker) → P w → Every P ws → Every P (set ws i w)
  Every-set [] i w new h = h
  Every-set (x ∷ ws) zero w new h = (new, h.1)
  Every-set (x ∷ ws) (suc i) w new h = (h.0, Every-set ws i w new h.1)

  pub Every-notify_all :
      ((w : Worker) → P w → P (record w { place = wake w.place }))
      → (ws : List Worker) → Every P ws
      → Every P (notify_all ws)
  unfolding notify_all
  Every-notify_all keep [] h = h
  Every-notify_all keep (w ∷ ws) h = (keep w h.0, Every-notify_all keep ws h.1)

  pub Every-map {κ'} :
      (Q : Worker → Type κ')
      → ((w : Worker) → P w → Q w)
      → (ws : List Worker) → Every P ws
      → Every Q ws
  Every-map Q keep [] h = tt
  Every-map Q keep (w ∷ ws) h = (keep w h.0, Every-map Q keep ws h.1)

-- The sum of a weight of the places of the workers.
unfoldable pub tally : (Place → ℕ) → List Worker → ℕ
tally f [] = 0
tally f (w ∷ ws) = f w.place + tally f ws

pub length-notify_all : (ws : List Worker) → length (notify_all ws) ≡ length ws
unfolding notify_all
length-notify_all [] = refl
length-notify_all (w ∷ ws) = omega (arith, length-notify_all ws)

module _ (f : Place → ℕ) where
  pub tally-set :
      (ws : List Worker) (i : ℕ) (w v : Worker)
      → get_elem? ws i ≡ some w
      → tally f (set ws i v) + f w.place ≡ tally f ws + f v.place
  unfolding tally
  tally-set [] i w v e = cc
  tally-set (x ∷ ws) zero w v e =
      subst (λ u. tally f (v ∷ ws) + f u.place ≡ tally f (x ∷ ws) + f v.place)
        (some-injective x w e) (omega arith)
  tally-set (x ∷ ws) (suc i) w v e = omega (arith, tally-set ws i w v e)

  pub tally-ge :
      (ws : List Worker) (i : ℕ) (w : Worker) → get_elem? ws i ≡ some w → f w.place ≤ tally f ws
  unfolding tally
  tally-ge [] i w e = cc
  tally-ge (x ∷ ws) zero w e =
      subst (λ u. f u.place ≤ tally f (x ∷ ws)) (some-injective x w e) (omega arith)
  tally-ge (x ∷ ws) (suc i) w e = omega (arith, tally-ge ws i w e)

  pub tally-notify_all :
      ((at : Place) → f (wake at) ≡ f at)
      → (ws : List Worker) → tally f (notify_all ws) ≡ tally f ws
  unfolding tally notify_all
  tally-notify_all same [] = refl
  tally-notify_all same (w ∷ ws) = omega (arith, same w.place, tally-notify_all same ws)

-- How many hold the lock in a place.
abbrev pub holders : Place → ℕ
holders at = if holds_lock at then 1 else 0

pub lock_free-tally : (ws : List Worker) → lock_free ws ≡ true → tally holders ws ≡ 0
unfolding lock_free tally
lock_free-tally [] h = refl
lock_free-tally (w ∷ ws) h = ground (arith, lock_free-tally ws)

pub tally-lock_free : (ws : List Worker) → tally holders ws ≡ 0 → lock_free ws ≡ true
unfolding lock_free tally
tally-lock_free [] h = refl
tally-lock_free (w ∷ ws) h = ground (arith, tally-lock_free ws)

pub lock_free-Every :
    (ws : List Worker) → lock_free ws ≡ true → Every (λ w. holds_lock w.place ≡ false) ws
unfolding lock_free
lock_free-Every [] h = tt
lock_free-Every (w ∷ ws) h = (ground arith, lock_free-Every ws (ground arith))

pub all_paused-Every :
    (ws : List Worker) → all_paused ws ≡ true → Every (λ w. w.thr_paused ≡ true) ws
unfolding all_paused
all_paused-Every [] h = tt
all_paused-Every (w ∷ ws) h = (ground arith, all_paused-Every ws (ground arith))

pub all_unpaused-Every :
    (ws : List Worker) → all_unpaused ws ≡ true → Every (λ w. w.thr_paused ≡ false) ws
unfolding all_unpaused
all_unpaused-Every [] h = tt
all_unpaused-Every (w ∷ ws) h = (ground arith, all_unpaused-Every ws (ground arith))

pub all_exited-Every :
    (ws : List Worker) → all_exited ws ≡ true → Every (λ w. has_exited w.place ≡ true) ws
unfolding all_exited
all_exited-Every [] h = tt
all_exited-Every (w ∷ ws) h = (ground arith, all_exited-Every ws (ground arith))

-- Two properties at once.
pub Every-both {κ κ'} :
    (P : Worker → Type κ) (Q : Worker → Type κ') (ws : List Worker)
    → Every P ws
    → Every Q ws
    → Every (λ w. P w × Q w) ws
Every-both P Q [] h k = tt
Every-both P Q (w ∷ ws) h k = ((h.0, k.0), Every-both P Q ws h.1 k.1)

-- The tests on all workers, from a fact about each.
pub Every-all_paused :
    (ws : List Worker) → Every (λ w. w.thr_paused ≡ true) ws → all_paused ws ≡ true
unfolding all_paused
Every-all_paused [] h = refl
Every-all_paused (w ∷ ws) h = ground (arith, h.0, Every-all_paused ws h.1)

pub Every-all_exited :
    (ws : List Worker) → Every (λ w. has_exited w.place ≡ true) ws → all_exited ws ≡ true
unfolding all_exited
Every-all_exited [] h = refl
Every-all_exited (w ∷ ws) h = ground (arith, h.0, Every-all_exited ws h.1)

pub Every-lock_free :
    (ws : List Worker) → Every (λ w. holds_lock w.place ≡ false) ws → lock_free ws ≡ true
unfolding lock_free
Every-lock_free [] h = refl
Every-lock_free (w ∷ ws) h = ground (arith, h.0, Every-lock_free ws h.1)

pub tally_zero : (f : Place → ℕ) (ws : List Worker) → Every (λ w. f w.place ≡ 0) ws → tally f ws ≡ 0
unfolding tally
tally_zero f [] h = refl
tally_zero f (w ∷ ws) h = omega (arith, h.0, tally_zero f ws h.1)

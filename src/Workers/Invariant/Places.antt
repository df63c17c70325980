-- ===== src/Workers/Invariant/Places.antt =====
-- Where a worker goes, it fits the phase.
use hyper_graph_streaming_cc.Prelude.{◌≡◌, refl, sym, ◌∙◌, Bool, true, false, not, ◌||◌, arith}
use hyper_graph_streaming_cc.Workers.Guttering.{Batch}
use hyper_graph_streaming_cc.Workers.Threads.{
  Place, polling, updating, reporting, refused, locking, checking, asleep, woken, resuming,
  announcing, exited, Worker, wake, holds_lock,
}
use hyper_graph_streaming_cc.Workers.System.{
  Phase, running, pausing, paused, unpausing, waiting_unpaused, stopping,
}
use hyper_graph_streaming_cc.Workers.Invariant.Defs.{settled, inside, idle, fits, Fits, Flags}

pub fits_woken : (ph : Phase) → fits ph woken ≡ fits ph asleep
fits_woken running = refl
fits_woken ph = refl

pub wake_same :
    (ph : Phase) (at : Place)
    → (inside (wake at) ≡ inside at) × (idle (wake at) ≡ idle at) × (fits ph (wake at) ≡ fits ph at)
wake_same ph asleep = (refl, refl, fits_woken ph)
wake_same ph at = (refl, refl, refl)

-- A notified worker fits where it fitted.
pub wake-Fits :
    (ph : Phase) (Quiet : Type 0) (w : Worker)
    → Fits ph Quiet w
    → Fits ph Quiet (record w { place = wake w.place })
wake-Fits ph Quiet w h =
    let (i, j, k) = wake_same ph w.place in (h.0 ∙ sym i, k ∙ h.1, λ e. h.2 (sym j ∙ e))

-- Where a worker that is at one place fits a phase, it also fits at the next place.
pub take_fits : (ph : Phase) (b : Batch) → fits ph polling ≡ true → fits ph (updating b) ≡ true
take_fits running b h = refl
take_fits ph b h = ground arith

pub refuse_fits :
    (ph : Phase) (sh pf nb : Bool)
    → Flags ph sh pf nb
    → nb ≡ true
    → fits ph polling ≡ true
    → fits ph refused ≡ true
refuse_fits running sh pf nb flags e h = cc
refuse_fits ph sh pf nb flags e h = ground arith

pub update_fits :
    (ph : Phase) (b : Batch) → fits ph (updating b) ≡ true → fits ph (reporting b) ≡ true
update_fits running b h = refl
update_fits ph b h = ground arith

pub report_fits : (ph : Phase) (b : Batch) → fits ph (reporting b) ≡ true → fits ph polling ≡ true
report_fits running b h = refl
report_fits ph b h = ground arith

pub exit_fits :
    (ph : Phase) (sh pf nb : Bool)
    → Flags ph sh pf nb
    → sh ≡ true
    → fits ph refused ≡ true
    → fits ph exited ≡ true
exit_fits running sh pf nb flags e h = cc
exit_fits ph sh pf nb flags e h = ground arith

pub refused_fits :
    (ph : Phase) → fits ph refused ≡ true → (fits ph locking ≡ true) × (fits ph polling ≡ true)
refused_fits running h = cc
refused_fits ph h = ground arith

pub pause_fits : (ph : Phase) → fits ph locking ≡ true → fits ph checking ≡ true
pause_fits running h = cc
pause_fits ph h = ground arith

pub settled-fits :
    (ph : Phase) (at to : Place)
    → settled at ≡ true
    → settled to ≡ true
    → fits ph at ≡ true
    → fits ph to ≡ true
settled-fits running at to a t h = ground arith
settled-fits ph at to a t h = ground arith

pub agree_fits :
    (ph : Phase) (sh pf nb : Bool)
    → Flags ph sh pf nb
    → (not pf || sh) ≡ true
    → fits ph checking ≡ true
    → fits ph resuming ≡ true
agree_fits running sh pf nb flags e h = cc
agree_fits ph sh pf nb flags e h = ground arith

pub unlock_fits : (ph : Phase) → fits ph resuming ≡ true → fits ph announcing ≡ true
unlock_fits running h = cc
unlock_fits ph h = ground arith

pub announce_fits : (ph : Phase) → fits ph announcing ≡ true → fits ph polling ≡ true
announce_fits running h = refl
announce_fits ph h = ground arith

-- Where the calling thread goes on, the workers fit its new phase.
pub running_fits :
    (at : Place) → fits running at ≡ true → (fits pausing at ≡ true) × (fits stopping at ≡ true)
running_fits refused h = cc
running_fits at h = ground arith

pub paused_fits :
    (at : Place)
    → fits paused at ≡ true
    → (fits pausing at ≡ true) × (fits unpausing at ≡ true) × (fits stopping at ≡ true)
paused_fits refused h = cc
paused_fits at h = ground arith

pub pause_return_fits :
    (at : Place) → inside at ≡ true → holds_lock at ≡ false → fits paused at ≡ true
pause_return_fits refused h k = cc
pause_return_fits at h k = ground arith

pub unpause_return_fits :
    (at : Place) → inside at ≡ false → fits waiting_unpaused at ≡ true → fits running at ≡ true
unpause_return_fits refused h k = cc
unpause_return_fits at h k = ground arith

pub running-not_idle : (at : Place) → fits running at ≡ true → idle at ≡ false
running-not_idle refused h = cc
running-not_idle at h = ground arith

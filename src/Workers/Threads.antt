-- ===== src/Workers/Threads.antt =====
-- One worker thread: where it stands in `do_work`, and the tests on all of them.
pub mod Every
use hyper_graph_streaming_cc.Prelude.{List, [], ◌∷◌, Bool, true, false, not, ◌&&◌}
use hyper_graph_streaming_cc.Exceptions.{Exception}
use hyper_graph_streaming_cc.Workers.Guttering.{Batch}

-- The points of `do_work` between two accesses to what the threads share. A worker in `checking`,
-- `dozing` or `resuming` holds `pause_lock`.
pub data Place : Type 0 where
  polling : Place  -- the head of the loop, before `get_data`
  updating : Batch → Place  -- before `batch_update`
  reporting : Batch → Place  -- before `get_data_callback`
  refused : Place  -- `get_data` returned false
  locking : Place  -- `paused` was true: before the lock is taken
  checking : Place  -- in `wait`, before its predicate
  dozing : Place  -- the predicate was false: before the thread blocks
  asleep : Place  -- blocked, with the lock given back
  woken : Place  -- notified: before the lock is taken again
  resuming : Place  -- the predicate was true
  announcing : Place  -- unlocked, before the last `notify_all`
  exited : Place  -- returned
  threw : Exception → Place  -- left by an exception, which ends the process

-- The fields of a `GraphWorker` that change while it works.
pub record Worker : Type 0 where
  pub thr_paused : Bool
  pub place : Place

abbrev pub get_thr_paused : Worker → Bool
get_thr_paused w = w.thr_paused

-- The constructor, once the initialisation of the fields is over.
abbrev pub new_worker : Worker
new_worker = record { thr_paused = false; place = polling }

-- The loop of `pause_workers` over all workers, which its predicate repeats.
unfoldable pub all_paused : List Worker → Bool
all_paused [] = true
all_paused (w ∷ ws) = get_thr_paused w && all_paused ws

-- The loop of `unpause_workers`.
unfoldable pub all_unpaused : List Worker → Bool
all_unpaused [] = true
all_unpaused (w ∷ ws) = not (get_thr_paused w) && all_unpaused ws

-- `pause_condition.notify_all()`
abbrev pub wake : Place → Place
wake asleep = woken
wake at = at

unfoldable pub notify_all : List Worker → List Worker
notify_all [] = []
notify_all (w ∷ ws) = record w { place = wake w.place } ∷ notify_all ws

abbrev pub holds_lock : Place → Bool
holds_lock checking = true
holds_lock dozing = true
holds_lock resuming = true
holds_lock _ = false

-- No worker holds `pause_lock`.
unfoldable pub lock_free : List Worker → Bool
lock_free [] = true
lock_free (w ∷ ws) = not (holds_lock w.place) && lock_free ws

abbrev pub has_exited : Place → Bool
has_exited exited = true
has_exited _ = false

-- Every thread can be joined.
unfoldable pub all_exited : List Worker → Bool
all_exited [] = true
all_exited (w ∷ ws) = has_exited w.place && all_exited ws

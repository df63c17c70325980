-- ===== src/Workers/Guttering.antt =====
-- What the workers use of the guttering system, which is a library of its own: the parts of its
-- interface, with what the source says of them.
use hyper_graph_streaming_cc.Prelude.{ℕ, ◌+◌, ◌≡◌, List, [], Bool, true, Option, none, some}
use hyper_graph_streaming_cc.Prelude.Totals.{total}

-- `WorkQueue::DataNode`: a vertex, and the other endpoints of its edges.
abbrev pub Batch : Type 0
Batch = ℕ × List ℕ

-- `get_data` waits on the queue where it gives `none`; else it fills in a batch and returns true, or
-- returns false. The queue is not waited on after `set_non_block(true)`.
pub record GutteringSystem : Type 1 where
  pub State : Type 0
  pub queued : State → List Batch
  pub non_block : State → Bool
  pub get_data : State → Option (Option Batch × State)
  pub get_data_callback : Batch → State → State
  pub set_non_block : Bool → State → State
  pub get_data-waits : (s : State) → non_block s ≡ true → get_data s ≡ none → ⊥
  pub get_data-valid :
      (s t : State) (b : Batch)
      → get_data s ≡ some (some b, t)
      → ((w : Batch → ℕ) → total w (queued s) ≡ w b + total w (queued t))
        × (non_block t ≡ non_block s)
  pub get_data-invalid :
      (s t : State)
      → get_data s ≡ some (none, t)
      → (non_block s ≡ true) × (queued s ≡ []) × (queued t ≡ []) × (non_block t ≡ true)
  pub get_data_callback-queued : (b : Batch) (s : State) → queued (get_data_callback b s) ≡ queued s
  pub get_data_callback-non_block :
      (b : Batch) (s : State) → non_block (get_data_callback b s) ≡ non_block s
  pub set_non_block-queued : (b : Bool) (s : State) → queued (set_non_block b s) ≡ queued s
  pub set_non_block-non_block : (b : Bool) (s : State) → non_block (set_non_block b s) ≡ b

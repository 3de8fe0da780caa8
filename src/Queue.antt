-- ===== src/Queue.antt =====
-- queue/base.queue.ts: `Queue`, and `shouldRetry` of queue/process-retry-check-da-proofs.queue.ts.
pub mod Fifo
pub mod Known
pub mod Processing
pub mod Kept
use momoka.Prelude.{List, [], ◌∷◌, ◌++◌, Option, none, some, Bool, true, false}
use momoka.Models.{MomokaValidatorError}
use momoka.Models.Errors.{
  unknown, can_not_connect_to_bundlr, block_cant_be_read_from_node, data_cant_be_read_from_node,
  simulation_node_could_not_run,
}

pub record Queue (T : Type 0) : Type 0 where
  pub items : List T

module _ {T : Type 0} where
  abbrev pub empty_queue : Queue T
  empty_queue = record { items = [] }

  unfoldable pub enqueue : T → Queue T → Queue T
  enqueue item queue = record { items = queue.items ++ (item ∷ []) }

  unfoldable pub is_empty : Queue T → Bool
  is_empty queue = elim queue.items [ [] ↦ true | _ ∷ _ ↦ false ]

  shift : List T → Option T × Queue T
  shift [] = (none, record { items = [] })
  shift (item ∷ items) = (some item, record { items = items })

  -- `undefined` from an empty queue, which stays as it is
  unfoldable pub dequeue : Queue T → Option T × Queue T
  unfolding shift is_empty
  dequeue queue = elim (is_empty queue) [ true ↦ (none, queue) | false ↦ shift queue.items ]

unfoldable pub should_retry : MomokaValidatorError → Bool
should_retry unknown = true
should_retry can_not_connect_to_bundlr = true
should_retry block_cant_be_read_from_node = true
should_retry data_cant_be_read_from_node = true
should_retry simulation_node_could_not_run = true
should_retry _ = false

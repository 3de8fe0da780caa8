-- ===== src/Queue/Fifo.antt =====
-- The order in which a queue gives its items back.
use momoka.Prelude.{List, [], ◌∷◌, ◌++◌, Option, none, some, ◌≡◌, refl, ap, ◌∙◌}
use momoka.Queue.{Queue, enqueue, dequeue, is_empty, shift}

-- A use of a queue.
pub data Operation (T : Type 0) : Type 0 where
  enqueued : T → Operation T
  dequeued : Operation T

module _ {T : Type 0} where
  -- What was put in, in order.
  abbrev pub put_in : List (Operation T) → List T
  put_in [] = []
  put_in (enqueued item ∷ operations) = item ∷ put_in operations
  put_in (dequeued ∷ operations) = put_in operations

  -- The item that came out, before those that come out later.
  abbrev keep : Option T → List T → List T
  keep none out = out
  keep (some item) out = item ∷ out

  -- What comes out, in order, and the queue that is left.
  pub use_queue : List (Operation T) → Queue T → List T × Queue T
  unfolding enqueue dequeue
  use_queue [] queue = ([], queue)
  use_queue (enqueued item ∷ operations) queue = use_queue operations (enqueue item queue)
  use_queue (dequeued ∷ operations) queue =
      let (item, left) = dequeue queue in
      let (out, rest) = use_queue operations left in (keep item out, rest)

  append_assoc : (xs ys zs : List T) → (xs ++ ys) ++ zs ≡ xs ++ (ys ++ zs)
  append_assoc [] ys zs = refl
  append_assoc (x ∷ xs) ys zs = ap (λ l. x ∷ l) (append_assoc xs ys zs)

  append-nil : (xs : List T) → xs ≡ xs ++ []
  append-nil [] = refl
  append-nil (x ∷ xs) = ap (λ l. x ∷ l) (append-nil xs)

  use_items-fifo :
      (operations : List (Operation T)) (items : List T)
      → (use_queue operations (record { items = items })).0
          ++ (use_queue operations (record { items = items })).1.items
        ≡ items ++ put_in operations
  unfolding use_queue enqueue dequeue is_empty shift
  use_items-fifo [] items = append-nil items
  use_items-fifo (enqueued item ∷ operations) items =
      use_items-fifo operations (items ++ (item ∷ []))
      ∙ append_assoc items (item ∷ []) (put_in operations)
  use_items-fifo (dequeued ∷ operations) [] = use_items-fifo operations []
  use_items-fifo (dequeued ∷ operations) (item ∷ items) =
      ap (λ l. item ∷ l) (use_items-fifo operations items)

  -- First in, first out: however a queue is used, what comes out followed by what is left is what was
  -- in the queue followed by what was put in.
  pub use_queue-fifo :
      (operations : List (Operation T)) (queue : Queue T)
      → (use_queue operations queue).0 ++ (use_queue operations queue).1.items
        ≡ queue.items ++ put_in operations
  use_queue-fifo operations queue = use_items-fifo operations queue.items

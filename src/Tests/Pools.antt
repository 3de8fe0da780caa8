-- ===== src/Tests/Pools.antt =====
-- A worker pool and a queue at work.
use momoka.Prelude.{ℕ, List, [], ◌∷◌, ◌++◌, ◌≡◌, refl, inl}
use momoka.Workers.{WorkerPool, execute, on_message, Steps, requested, messaged, no_step, then_step}
use momoka.Workers.Idle.{IsBusy, Steps-IsBusy}
use momoka.Workers.Order.{rounds, one_worker, rounds-starve}
use momoka.Queue.{Queue}
use momoka.Queue.Fifo.{Operation, enqueued, dequeued, put_in, use_queue, use_queue-fifo}

-- Two workers and no request.
abbrev new_pool : WorkerPool ℕ
new_pool = record { workers = 0 ∷ 1 ∷ []; queue = []; running = []; done = [] }

abbrev busy_pool : WorkerPool ℕ
busy_pool = on_message 0 (execute 12 (execute 11 (execute 10 new_pool)))

busy-Steps : Steps new_pool busy_pool
busy-Steps =
    then_step
      (then_step (then_step (then_step (no_step new_pool) (requested 10 _)) (requested 11 _))
        (requested 12 _))
      (messaged 0 _)

Steps-IsBusy_example : IsBusy busy_pool
Steps-IsBusy_example = Steps-IsBusy busy-Steps (inl refl)

rounds-starve_example :
    (last : ℕ) × ((rounds 0 (20 ∷ 21 ∷ 22 ∷ []) (one_worker 0 12 13 11 [])).queue ≡ 12 ∷ last ∷ [])
rounds-starve_example = rounds-starve 0 12 13 11 (20 ∷ 21 ∷ 22 ∷ []) []

abbrev sample_queue : Queue ℕ
sample_queue = record { items = 1 ∷ [] }

abbrev sample_operations : List (Operation ℕ)
sample_operations = enqueued 2 ∷ dequeued ∷ dequeued ∷ dequeued ∷ enqueued 3 ∷ []

use_queue-fifo_example :
    (use_queue sample_operations sample_queue).0
      ++ (use_queue sample_operations sample_queue).1.items
    ≡ sample_queue.items ++ put_in sample_operations
use_queue-fifo_example = use_queue-fifo sample_operations sample_queue

-- ===== src/Workers.antt =====
-- workers/worker-pool.ts: `WorkerPool` as an event-driven state. A worker is its position in the
-- constructor's loop; `running` are the requests that were posted, each with its worker, whose answer
-- is still awaited; `done` are the answered requests, in the order of their answers.
pub mod Idle
pub mod Order
use momoka.Prelude.{ℕ, List, [], ◌∷◌, ◌++◌, nat_eq, if◌then◌else◌, Option, none, some}

pub record WorkerPool (R : Type 0) : Type 0 where
  pub workers : List ℕ
  pub queue : List R
  pub running : List (ℕ × R)
  pub done : List R

module _ {R : Type 0} where
  -- `execute`: the request is posted to the first idle worker, or waits.
  unfoldable pub execute_on : List ℕ → R → WorkerPool R → WorkerPool R
  execute_on [] request pool = record pool { queue = pool.queue ++ (request ∷ []) }
  execute_on (worker ∷ workers) request pool = record pool {
    workers = workers;
    running = pool.running ++ ((worker, request) ∷ []);
  }

  unfoldable pub execute : R → WorkerPool R → WorkerPool R
  unfolding execute_on
  execute request pool = execute_on pool.workers request pool

  -- `this.queue.shift()?.()`
  unfoldable pub shift_from : List R → WorkerPool R → WorkerPool R
  unfolding execute
  shift_from [] pool = pool
  shift_from (request ∷ queue) pool = execute request (record pool { queue = queue })

  unfoldable pub shift_queue : WorkerPool R → WorkerPool R
  unfolding shift_from
  shift_queue pool = shift_from pool.queue pool

  unfoldable pub taken_behind : ℕ → R → Option (R × List (ℕ × R)) → Option (R × List (ℕ × R))
  taken_behind w request none = none
  taken_behind w request (some (r, running)) = some (r, (w, request) ∷ running)

  -- The request that a worker runs, and the rest.
  unfoldable pub take_running : ℕ → List (ℕ × R) → Option (R × List (ℕ × R))
  unfolding taken_behind
  take_running worker [] = none
  take_running worker ((w, request) ∷ running) =
      let rest = taken_behind w request (take_running worker running) in
      if nat_eq w worker then some (request, running) else rest

  -- The listener that `execute` added with `once`: the request is answered, and the worker is idle.
  unfoldable pub answered : ℕ → Option (R × List (ℕ × R)) → WorkerPool R → WorkerPool R
  unfolding shift_queue
  answered worker none pool = pool
  answered worker (some (request, running)) pool = shift_queue (record pool {
    workers = pool.workers ++ (worker ∷ []);
    running = running;
    done = pool.done ++ (request ∷ []);
  })

  -- The event `message` of a worker: the constructor's listener was added first, so it goes first.
  unfoldable pub on_message : ℕ → WorkerPool R → WorkerPool R
  unfolding shift_queue answered take_running
  on_message worker pool =
      let shifted = shift_queue pool in
      answered worker (take_running worker shifted.running) shifted

  -- What can happen to a pool: a request, or a worker's message.
  pub data Step : WorkerPool R → WorkerPool R → Type 0 where
    requested : (request : R) (pool : WorkerPool R) → Step pool (execute request pool)
    messaged : (worker : ℕ) (pool : WorkerPool R) → Step pool (on_message worker pool)

  pub data Steps : WorkerPool R → WorkerPool R → Type 0 where
    no_step : (pool : WorkerPool R) → Steps pool pool
    then_step : {p q r : WorkerPool R} → Steps p q → Step q r → Steps p r

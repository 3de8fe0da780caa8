-- ===== src/Workers/Order.antt =====
-- How many workers and requests a pool has, and in which order the requests that wait are run.
use momoka.Prelude.{
  ℕ, suc, ◌+◌, List, [], ◌∷◌, ◌++◌, length, length-append, Option, none, some, ◌≡◌, refl, ap, ◌∙◌,
  arith, Bool-cases, inl, inr, nat_eq,
}
use momoka.Workers.{
  WorkerPool, execute_on, execute, shift_from, shift_queue, take_running, taken_behind, answered,
  on_message, requested, messaged, Steps, no_step, then_step,
}

module _ {R : Type 0} where
  -- The workers, idle or not, and the requests, wherever they are.
  abbrev worker_count : WorkerPool R → ℕ
  worker_count pool = length pool.workers + length pool.running

  abbrev pub request_count : WorkerPool R → ℕ
  request_count pool = length pool.queue + length pool.running + length pool.done

  execute_on-counts :
      (workers : List ℕ) (request : R) (pool : WorkerPool R)
      → pool.workers ≡ workers
      → (worker_count (execute_on workers request pool) ≡ worker_count pool)
        × (request_count (execute_on workers request pool) ≡ suc (request_count pool))
  unfolding execute_on
  execute_on-counts [] request pool e =
      (refl, omega (arith, length-append pool.queue (request ∷ [])))
  execute_on-counts (w ∷ workers) request pool e =
      let workers_length : length pool.workers ≡ suc (length workers) = rw e in
      (
        omega (arith, workers_length, length-append pool.running ((w, request) ∷ [])),
        omega (arith, length-append pool.running ((w, request) ∷ [])),
      )

  shift_from-counts :
      (queue : List R) (pool : WorkerPool R)
      → pool.queue ≡ queue
      → (worker_count (shift_from queue pool) ≡ worker_count pool)
        × (request_count (shift_from queue pool) ≡ request_count pool)
  unfolding shift_from execute
  shift_from-counts [] pool e = (refl, refl)
  shift_from-counts (request ∷ queue) pool e =
      let (ws, rs) = execute_on-counts pool.workers request (record pool { queue = queue }) refl in
      let queue_length : length pool.queue ≡ suc (length queue) = rw e in
      (ws, omega (arith, rs, queue_length))

  shift_queue-counts :
      (pool : WorkerPool R)
      → (worker_count (shift_queue pool) ≡ worker_count pool)
        × (request_count (shift_queue pool) ≡ request_count pool)
  unfolding shift_queue
  shift_queue-counts pool = shift_from-counts pool.queue pool refl

  taken_behind-length :
      (w : ℕ) (request r : R) (found : Option (R × List (ℕ × R))) (running rest : List (ℕ × R))
      → ((s : R) (others : List (ℕ × R))
          → found ≡ some (s, others)
          → length running ≡ suc (length others))
      → taken_behind w request found ≡ some (r, rest)
      → suc (length running) ≡ suc (length rest)
  unfolding taken_behind
  taken_behind-length w request r none running rest h e = cc
  taken_behind-length w request r (some (s, others)) running rest h e =
      let shorter = h s others refl in
      let same : (w, request) ∷ others ≡ rest = cc in
      let rest_length : length ((w, request) ∷ others) ≡ length rest = ap (λ x. length x) same in
      omega (arith, shorter, rest_length)

  take_running-length :
      (worker : ℕ) (running : List (ℕ × R)) (r : R) (rest : List (ℕ × R))
      → take_running worker running ≡ some (r, rest)
      → length running ≡ suc (length rest)
  unfolding take_running
  take_running-length worker [] r rest h = cc
  take_running-length worker ((w, request) ∷ running) r rest h =
      elim (Bool-cases (nat_eq w worker)) [
        | inl e ↦ (let same : running ≡ rest = ground arith in ap (λ x. suc (length x)) same)
        | inr e ↦
            taken_behind-length w request r (take_running worker running) running rest
              (λ s others k. take_running-length worker running s others k) (ground arith)
      ]

  answered-counts :
      (worker : ℕ) (found : Option (R × List (ℕ × R))) (pool : WorkerPool R)
      → take_running worker pool.running ≡ found
      → (worker_count (answered worker found pool) ≡ worker_count pool)
        × (request_count (answered worker found pool) ≡ request_count pool)
  unfolding answered
  answered-counts worker none pool e = (refl, refl)
  answered-counts worker (some (request, running)) pool e =
      let after : WorkerPool R = record pool {
        workers = pool.workers ++ (worker ∷ []);
        running = running;
        done = pool.done ++ (request ∷ []);
      } in
      let (ws, rs) = shift_queue-counts after in
      let fewer = take_running-length worker pool.running request running e in
      (
        omega (arith, ws, fewer, length-append pool.workers (worker ∷ [])),
        omega (arith, rs, fewer, length-append pool.done (request ∷ [])),
      )

  taken_alone :
      (worker : ℕ) (request : R) → take_running worker ((worker, request) ∷ []) ≡ some (request, [])
  unfolding take_running
  taken_alone worker request = ground arith

  -- A message loses no request, adds none, and leaves as many workers.
  on_message-counts :
      (worker : ℕ) (pool : WorkerPool R)
      → (worker_count (on_message worker pool) ≡ worker_count pool)
        × (request_count (on_message worker pool) ≡ request_count pool)
  unfolding on_message
  on_message-counts worker pool =
      let (ws, rs) = shift_queue-counts pool in
      let shifted = shift_queue pool in
      let (ws', rs') = answered-counts worker (take_running worker shifted.running) shifted refl in
      (ws' ∙ ws, rs' ∙ rs)

  -- Whatever happens, a pool has as many workers as it was constructed with.
  Steps-worker_count : {p q : WorkerPool R} → Steps p q → worker_count q ≡ worker_count p
  unfolding execute
  Steps-worker_count (no_step pool) = refl
  Steps-worker_count (then_step steps (requested request pool)) =
      (execute_on-counts pool.workers request pool refl).0 ∙ Steps-worker_count steps
  Steps-worker_count (then_step steps (messaged worker pool)) =
      (on_message-counts worker pool).0 ∙ Steps-worker_count steps

  -- While every worker runs a request, a message of a worker runs the second request that waits and
  -- puts the first behind the others: the order of the requests is not kept.
  on_message-second :
      (worker : ℕ) (first second answer : R) (queue done : List R) (running rest : List (ℕ × R))
      → take_running worker running ≡ some (answer, rest)
      → on_message worker
          (record { workers = []; queue = first ∷ second ∷ queue; running = running; done = done })
        ≡ record {
          workers = [];
          queue = queue ++ (first ∷ []);
          running = rest ++ ((worker, second) ∷ []);
          done = done ++ (answer ∷ []);
        }
  unfolding on_message answered shift_queue shift_from execute execute_on
  on_message-second worker first second answer queue done running rest h = rw h refl

  -- A request for every message.
  pub rounds : ℕ → List R → WorkerPool R → WorkerPool R
  rounds worker [] pool = pool
  rounds worker (request ∷ requests) pool =
      rounds worker requests (execute request (on_message worker pool))

  -- One worker, which runs a request, while two requests wait.
  abbrev pub one_worker : ℕ → R → R → R → List R → WorkerPool R
  one_worker worker waiting second current done = record {
    workers = [];
    queue = waiting ∷ second ∷ [];
    running = (worker, current) ∷ [];
    done = done;
  }

  round-eq :
      (worker : ℕ) (waiting second current request : R) (done : List R)
      → execute request (on_message worker (one_worker worker waiting second current done))
        ≡ one_worker worker waiting request second (done ++ (current ∷ []))
  unfolding execute execute_on
  round-eq worker waiting second current request done = ap (execute request) (
      on_message-second worker waiting second current [] done ((worker, current) ∷ []) []
        (taken_alone worker current))

  -- A request can wait forever: in a pool of one worker, which is busy, the first of two requests that
  -- wait is still waiting after any number of rounds of a message and a new request.
  pub rounds-starve :
      (worker : ℕ) (waiting second current : R) (requests done : List R)
      → (last : R) × ((rounds worker requests (one_worker worker waiting second current done)).queue
          ≡ waiting ∷ last ∷ [])
  unfolding rounds
  rounds-starve worker waiting second current [] done = (second, refl)
  rounds-starve worker waiting second current (request ∷ requests) done =
      let (last, e) =
        rounds-starve worker waiting request second requests (done ++ (current ∷ [])) in
      (
        last,
        ap (λ pool. (rounds worker requests pool).queue)
              (round-eq worker waiting second current request done)
            ∙ e,
      )

-- ===== src/Workers/Idle.antt =====
-- What holds of a worker pool whatever happens.
use momoka.Prelude.{ℕ, List, [], ◌∷◌, ◌≡◌, refl, ap, ◌++◌, Option, none, some, ◌⊎◌, inl, inr}
use momoka.Workers.{
  WorkerPool, execute_on, execute, shift_from, shift_queue, take_running, answered, on_message,
  requested, messaged, Steps, no_step, then_step,
}

module _ {R : Type 0} where
  -- No request waits while a worker is idle.
  abbrev pub IsBusy : WorkerPool R → Type 0
  IsBusy pool = (pool.queue ≡ []) ⊎ (pool.workers ≡ [])

  execute_on-IsBusy :
      (workers : List ℕ) (request : R) (pool : WorkerPool R)
      → pool.workers ≡ workers
      → (pool.queue ≡ []) ⊎ (pool.workers ≡ []) ⊎ ((w : ℕ) × (pool.workers ≡ w ∷ []))
      → IsBusy (execute_on workers request pool)
  unfolding execute_on
  execute_on-IsBusy [] request pool e h = inr e
  execute_on-IsBusy (w ∷ workers) request pool e (inl h) = inl h
  execute_on-IsBusy (w ∷ workers) request pool e (inr (inl h)) = cc
  execute_on-IsBusy (w ∷ workers) request pool e (inr (inr (v, h))) = inr cc

  shift_from-IsBusy :
      (queue : List R) (pool : WorkerPool R)
      → pool.queue ≡ queue
      → (pool.queue ≡ []) ⊎ (pool.workers ≡ []) ⊎ ((w : ℕ) × (pool.workers ≡ w ∷ []))
      → IsBusy (shift_from queue pool)
  unfolding shift_from execute
  shift_from-IsBusy [] pool e h = inl e
  shift_from-IsBusy (request ∷ queue) pool e (inl h) = cc
  shift_from-IsBusy (request ∷ queue) pool e (inr h) =
      execute_on-IsBusy pool.workers request (record pool { queue = queue }) refl (inr h)

  shift_queue-IsBusy :
      (pool : WorkerPool R)
      → (pool.queue ≡ []) ⊎ (pool.workers ≡ []) ⊎ ((w : ℕ) × (pool.workers ≡ w ∷ []))
      → IsBusy (shift_queue pool)
  unfolding shift_queue
  shift_queue-IsBusy pool h = shift_from-IsBusy pool.queue pool refl h

  weaker :
      (pool : WorkerPool R)
      → IsBusy pool
      → (pool.queue ≡ []) ⊎ (pool.workers ≡ []) ⊎ ((w : ℕ) × (pool.workers ≡ w ∷ []))
  weaker pool (inl h) = inl h
  weaker pool (inr h) = inr (inl h)

  answered-IsBusy :
      (worker : ℕ) (found : Option (R × List (ℕ × R))) (pool : WorkerPool R)
      → IsBusy pool
      → IsBusy (answered worker found pool)
  unfolding answered
  answered-IsBusy worker none pool h = h
  answered-IsBusy worker (some (request, running)) pool (inl h) = shift_queue-IsBusy _ (inl h)
  answered-IsBusy worker (some (request, running)) pool (inr h) =
      shift_queue-IsBusy _ (inr (inr (worker, ap (λ ws. ws ++ (worker ∷ [])) h)))

  -- In a pool that was reached from one where no request waited beside an idle worker, none does.
  pub Steps-IsBusy : {p q : WorkerPool R} → Steps p q → IsBusy p → IsBusy q
  unfolding execute on_message
  Steps-IsBusy (no_step pool) h = h
  Steps-IsBusy (then_step steps (requested request pool)) h =
      execute_on-IsBusy pool.workers request pool refl (weaker pool (Steps-IsBusy steps h))
  Steps-IsBusy (then_step steps (messaged worker pool)) h =
      let shifted = shift_queue-IsBusy pool (weaker pool (Steps-IsBusy steps h)) in
      answered-IsBusy worker (take_running worker (shift_queue pool).running) (shift_queue pool)
        shifted

-- ===== src/Watchers/Verifier.antt =====
-- `processTransactions` and the loop of `startDAVerifierNode`, a round at a time, of
-- watchers/verifier.watcher.ts. Logging is left out.
use momoka.Prelude.{
  ℕ, ◌+◌, ◌-◌, String, Bool, true, false, not, ◌&&◌, Option, none, some, List, [], ◌∷◌, map, filter,
  length, Async, pure, throw, try_catch, both, ◌>>=◌, ◌>>◌,
}
use momoka.Models.{MomokaValidatorError}
use momoka.Evm.{EthereumNode}
use momoka.Requests.{
  TransactionsQuery, TransactionsResponse, descending, get_data_availability_transactions_api,
}
use momoka.Queue.{should_retry}
use momoka.Queue.Known.{StreamCallback, Shared, in_world, enqueue_retry_with_delay}
use momoka.Database.{
  Level, Json, get_last_end_cursor_db, get_total_checked_count_db, save_end_cursor_db,
  save_total_checked_count_db,
}
use momoka.Proofs.Batch.Publications.{ProofResult, BatchServices, check_da_proofs_batch}
use momoka.Watchers.Pages.{
  BulkDataAvailabilityTransactionsResponse, get_bulk_data_availability_transactions,
}

-- What `processTransactions` returns.
pub record Processed : Type 0 where
  pub total_checked : ℕ
  pub end_cursor : Option String

-- The node's: its network, its database, and the options that it was started with.
pub record NodeServices (S : Type 0) : Type 0 where
  pub batch : BatchServices S
  pub query : TransactionsQuery → Async S (Option TransactionsResponse)
  pub db : Option (Level S)
  pub counts : Json ℕ
  pub wait : ℕ → S → S
  pub ethereum_node : EthereumNode
  pub stream : Option (StreamCallback S)

-- The variables of `startDAVerifierNode`, beside what the program shares.
pub record VerifierState (S : Type 0) : Type 0 where
  pub shared : Shared S
  pub end_cursor : Option String
  pub total_checked : ℕ
  pub last_check_nothing_found : Bool
  pub resync : Bool

unfoldable pub is_retriable : Option MomokaValidatorError → Bool
is_retriable none = false
is_retriable (some error) = should_retry error

-- The transactions of the results that are to be checked again.
unfoldable pub retry_tx_ids : List ProofResult → List String
unfolding is_retriable
retry_tx_ids results =
    map (λ c. c.tx_id) (filter (λ c. not c.success && is_retriable c.validator_error) results)

module _ {S : Type 0} (services : NodeServices S) where
  -- `if (retryTxids.length > 0)`: the request is queued after 30 seconds.
  unfoldable pub enqueue_retries : List String → Async (Shared S) Unit
  enqueue_retries [] = pure tt
  enqueue_retries (tx_id ∷ tx_ids) = enqueue_retry_with_delay (record {
    tx_ids = tx_id ∷ tx_ids;
    ethereum_node = services.ethereum_node;
    stream = services.stream;
  })

  unfoldable pub process_transactions :
      BulkDataAvailabilityTransactionsResponse → Bool → Async (Shared S) Processed
  unfolding enqueue_retries retry_tx_ids
  process_transactions transactions us_local_node = do
    result ←
        check_da_proofs_batch services.batch transactions.tx_ids false us_local_node services.stream
    enqueue_retries (retry_tx_ids result)
    pure (record {
      total_checked = length result - length (retry_tx_ids result);
      end_cursor = transactions.next;
    })

  -- Level takes no null for a value.
  unfoldable pub save_cursor : Option String → Async S Unit
  save_cursor none = throw "Could not write to into the db - critical error!"
  save_cursor (some cursor) = save_end_cursor_db services.db cursor

  -- What does not touch the variables.
  unfoldable pub in_shared : {A : Type 0} → Async (Shared S) A → Async (VerifierState S) A
  in_shared m v = ((m v.shared).0, record v { shared = (m v.shared).1 })

  -- `totalChecked += newTotalChecked; endCursor = newEndCursor;`
  unfoldable pub advance : Processed → Async (VerifierState S) Unit
  advance processed v = pure tt (record v {
    total_checked = v.total_checked + processed.total_checked;
    end_cursor = processed.end_cursor;
  })

  unfoldable pub save_progress : Async (VerifierState S) (Unit {0} × Unit {0})
  unfolding save_cursor in_shared
  save_progress v =
      in_shared
        (in_world (
          both (save_cursor v.end_cursor)
            (save_total_checked_count_db services.db services.counts v.total_checked)))
        v

  unfoldable pub wait_for_new_submissions : Async (VerifierState S) Unit
  unfolding in_shared
  wait_for_new_submissions v = pure tt (record v {
    shared = record v.shared { world = services.wait 100 v.shared.world };
    last_check_nothing_found = true;
  })

  -- `lastCheckNothingFound = false; if (resync) { … resync = false; }`
  unfoldable pub start_processing : Async (VerifierState S) Unit
  start_processing v = pure tt (record v { last_check_nothing_found = false; resync = false })

  unfoldable pub pull : Async (VerifierState S) BulkDataAvailabilityTransactionsResponse
  unfolding in_shared
  pull v =
      in_shared
        (in_world (
          get_bulk_data_availability_transactions services.query services.ethereum_node.environment
            services.ethereum_node.deployment v.end_cursor 10))
        v

  unfoldable pub process_pulled : Option String → List String → Async (VerifierState S) Unit
  unfolding wait_for_new_submissions start_processing advance save_progress process_transactions
      in_shared
  process_pulled next [] = wait_for_new_submissions
  process_pulled next (tx_id ∷ tx_ids) = do
    start_processing
    processed ←
        in_shared (process_transactions (record { next = next; tx_ids = tx_id ∷ tx_ids }) false)
    advance processed
    saved ← save_progress
    pure tt

  -- The function that `startDAVerifierNode` runs forever
  unfoldable pub verifier_round : Async (VerifierState S) Unit
  unfolding pull process_pulled
  verifier_round =
      try_catch (pull >>= λ transactions. process_pulled transactions.next transactions.tx_ids)
        (λ _ v.
          pure tt
            (record v { shared = record v.shared { world = services.wait 100 v.shared.world } }))

  -- `if (!resync) { … }`: the last transaction of all, if there is one, is where the node starts.
  unfoldable pub starting_point : ℕ → TransactionsResponse → Option String × ℕ
  starting_point saved_count last = elim last.edges [
    | [] ↦ (none, saved_count)
    | _ ∷ _ ↦ (last.page_info.end_cursor, 0)
  ]

  unfoldable pub first_cursor : Bool → Option String → ℕ → Async S (Option String × ℕ)
  unfolding starting_point
  first_cursor true saved_cursor saved_count = pure (saved_cursor, saved_count)
  first_cursor false saved_cursor saved_count = do
    last_transaction ←
        get_data_availability_transactions_api services.query services.ethereum_node.environment
          services.ethereum_node.deployment none descending 1
    pure (starting_point saved_count last_transaction)

  -- `startDAVerifierNode` from its start-up, which opens the database and starts the queues, to its loop
  unfoldable pub started : Bool → Async S (Option String × ℕ)
  unfolding first_cursor
  started resync = do
    end_cursor ← get_last_end_cursor_db services.db
    total_checked ← get_total_checked_count_db services.db services.counts
    first_cursor resync end_cursor total_checked

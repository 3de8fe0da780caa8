-- ===== src/Queue/Processing.antt =====
-- queue/process-failed-da-proof.queue.ts and queue/process-retry-check-da-proofs.queue.ts: a round of each
-- of the loops that empty the queues, and what a delay's end does.
use momoka.Prelude.{
  String, ◌<>◌, Bool, true, false, Option, none, some, List, [], ◌∷◌, Async, pure, try_catch, ◌>>=◌,
  ◌>>◌,
}
use momoka.Models.Errors.{error_text}
use momoka.Evm.{EthereumNode}
use momoka.Queue.{enqueue, dequeue}
use momoka.Queue.Known.{
  Shared, ProcessFailedProofQueueRequest, ProcessRetryCheckDaProofsQueueRequest, in_world,
  enqueue_failed_with_delay, enqueue_retry_with_delay,
}
use momoka.Proofs.Batch.Publications.{BatchServices, check_da_proofs_batch}

-- The file system, `path.join`, `process.cwd()` and the JSON of a request.
pub record FileSystem (S : Type 0) : Type 0 where
  pub join : List String → String
  pub cwd : String
  pub exists_sync : String → S → Bool
  pub mkdir : String → Async S Unit
  pub write_file : String → String → Async S Unit
  pub stringify : ProcessFailedProofQueueRequest → String

module _ {S : Type 0} (fs : FileSystem S) where
  -- `failedProofsPath` of input-output/paths.ts, whose cache holds what it would compute again
  unfoldable pub failed_proofs_path : String
  failed_proofs_path = fs.join (fs.cwd ∷ "lens__da" ∷ "failed-proofs" ∷ [])

  unfoldable pub ensure_directory : String → Bool → Async S Unit
  ensure_directory location true = pure tt
  ensure_directory location false = fs.mkdir location

  unfoldable pub write_failed_proof : ProcessFailedProofQueueRequest → Async S Unit
  unfolding failed_proofs_path ensure_directory
  write_failed_proof request s =
      let error_location = fs.join (failed_proofs_path ∷ error_text request.reason ∷ []) in
      (ensure_directory error_location (fs.exists_sync error_location s)
          >> fs.write_file (fs.join (error_location ∷ (request.tx_id <> ".json") ∷ []))
              (fs.stringify request))
        s

  unfoldable pub process_failed : Option ProcessFailedProofQueueRequest → Async (Shared S) Unit
  unfolding write_failed_proof
  process_failed none = pure tt
  process_failed (some request) =
      try_catch (in_world (write_failed_proof request)) (λ _. enqueue_failed_with_delay request)

  -- The function that `processFailedDAProofQueue` runs forever, 200 milliseconds apart
  unfoldable pub process_failed_round : Async (Shared S) Unit
  unfolding process_failed
  process_failed_round s =
      let (request, queue) = dequeue s.failed_da_proof_queue in
      process_failed request (record s { failed_da_proof_queue = queue })

module _ {S : Type 0} (services : EthereumNode → BatchServices S) where
  unfoldable pub check_again :
      ProcessRetryCheckDaProofsQueueRequest S → List String → Bool → Async (Shared S) Unit
  check_again request [] us_local_node = pure tt
  check_again request (tx_id ∷ tx_ids) us_local_node =
      try_catch
        (check_da_proofs_batch (services request.ethereum_node) (tx_id ∷ tx_ids) true us_local_node
            request.stream
          >>= λ results. pure tt)
        (λ _. enqueue_retry_with_delay request)

  unfoldable pub process_retry :
      Option (ProcessRetryCheckDaProofsQueueRequest S) → Bool → Async (Shared S) Unit
  unfolding check_again
  process_retry none us_local_node = pure tt
  process_retry (some request) us_local_node = check_again request request.tx_ids us_local_node

  -- The function that `processRetryCheckDAProofsQueue` runs forever, 200 milliseconds apart
  unfoldable pub process_retry_round : Bool → Async (Shared S) Unit
  unfolding process_retry
  process_retry_round us_local_node s =
      let (request, queue) = dequeue s.retry_check_da_proofs_queue in
      process_retry request us_local_node (record s { retry_check_da_proofs_queue = queue })

module _ {S : Type 0} where
  -- The delay of the item that has waited longest is over.
  unfoldable pub retry_delay_over : Shared S → Shared S
  retry_delay_over s = elim s.delayed_retries [
    | [] ↦ s
    | request ∷ delayed ↦ record s {
      delayed_retries = delayed;
      retry_check_da_proofs_queue = enqueue request s.retry_check_da_proofs_queue;
    }
  ]

  unfoldable pub failure_delay_over : Shared S → Shared S
  failure_delay_over s = elim s.delayed_failures [
    | [] ↦ s
    | request ∷ delayed ↦ record s {
      delayed_failures = delayed;
      failed_da_proof_queue = enqueue request s.failed_da_proof_queue;
    }
  ]

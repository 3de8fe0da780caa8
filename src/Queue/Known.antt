-- ===== src/Queue/Known.antt =====
-- queue/known.queue.ts, the two queues of the program, with `enqueueWithDelay` of queue/base.queue.ts. A
-- delayed item waits in a list of its own until its time has passed. `S` is the rest of the world.
use momoka.Prelude.{String, List, [], ◌∷◌, ◌++◌, Option, resolved, Async}
use momoka.Models.{MomokaValidatorError}
use momoka.Evm.{EthereumNode}
use momoka.Proofs.Checker.Interfaces.{TxValidatedResult}
use momoka.Queue.{Queue, enqueue}

-- A callback may throw and may change the world.
abbrev pub StreamCallback : Type 0 → Type 0
StreamCallback S = TxValidatedResult → Async S Unit

pub record ProcessFailedProofQueueRequest : Type 0 where
  pub tx_id : String
  pub reason : MomokaValidatorError
  pub submitter : String

pub record ProcessRetryCheckDaProofsQueueRequest (S : Type 0) : Type 0 where
  pub tx_ids : List String
  pub ethereum_node : EthereumNode
  pub stream : Option (StreamCallback S)

pub record Shared (S : Type 0) : Type 0 where
  pub world : S
  pub failed_da_proof_queue : Queue ProcessFailedProofQueueRequest
  pub delayed_failures : List ProcessFailedProofQueueRequest
  pub retry_check_da_proofs_queue : Queue (ProcessRetryCheckDaProofsQueueRequest S)
  pub delayed_retries : List (ProcessRetryCheckDaProofsQueueRequest S)

module _ {S : Type 0} where
  -- What does not touch the queues.
  unfoldable pub in_world : {A : Type 0} → Async S A → Async (Shared S) A
  in_world m shared = ((m shared.world).0, record shared { world = (m shared.world).1 })

  unfoldable pub enqueue_failed : ProcessFailedProofQueueRequest → Async (Shared S) Unit
  enqueue_failed request shared = (
    resolved tt,
    record shared { failed_da_proof_queue = enqueue request shared.failed_da_proof_queue },
  )

  unfoldable pub enqueue_failed_with_delay : ProcessFailedProofQueueRequest → Async (Shared S) Unit
  enqueue_failed_with_delay request shared =
      (resolved tt, record shared { delayed_failures = shared.delayed_failures ++ (request ∷ []) })

  unfoldable pub enqueue_retry_with_delay :
      ProcessRetryCheckDaProofsQueueRequest S → Async (Shared S) Unit
  enqueue_retry_with_delay request shared =
      (resolved tt, record shared { delayed_retries = shared.delayed_retries ++ (request ∷ []) })

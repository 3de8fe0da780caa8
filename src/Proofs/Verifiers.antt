-- ===== src/Proofs/Verifiers.antt =====
-- proofs/da-proof-verifier.ts and client/client-da-proof-verifier.ts with the handlers of a worker thread,
-- workers/message-handlers and workers/handler-communication.worker.ts, and the checkers that
-- proofs/check-da-proof.ts and client/check-da-proof-client.ts put together. Logging is left out.
use momoka.Prelude.{
  ℕ, String, ◌==◌, eq_string, Bool, true, false, Option, none, some, Settled, resolved, rejected,
  Async, pure, settle, ◌>>=◌,
}
use momoka.Common.{Environment, Deployment}
use momoka.Models.{DaStructurePublication, BundlrUploadResponse}
use momoka.Submitters.{is_valid_submitter}
use momoka.Requests.{FetchProvider, BundlrTx, get_owner_of_transaction_api}
use momoka.Proofs.Utils.{Providers, verify_receipt}
use momoka.Proofs.Checker.Interfaces.{Fetched, timeout_error, fetched, DaProofsVerifier}

-- ethers and JSON, for the message that a submitter signs: `JSON.stringify(daPublication)`, and
-- `utils.verifyMessage`, which throws for a text that is no signature.
pub record Messages : Type 0 where
  pub stringify : DaStructurePublication → String
  pub verify_message : String → String → Settled String

-- `HandlerWorkerData`
pub data HandlerWorkerRequest : Type 0 where
  evm_verify_message : DaStructurePublication → String → HandlerWorkerRequest
  bundlr_verify_receipt : BundlrUploadResponse → HandlerWorkerRequest

-- `string | boolean`
pub data HandlerAnswer : Type 0 where
  address_answer : String → HandlerAnswer
  validity_answer : Bool → HandlerAnswer

-- `delete daPublication.signature`
unfoldable pub without_signature : DaStructurePublication → DaStructurePublication
without_signature da_publication = record da_publication { signature = none }

-- The casts of `workerPool.execute<string>` and `workerPool.execute<boolean>`: an answer of the
-- other type is read as it stands, the text of a Boolean and whether a text is not empty.
unfoldable pub as_address : HandlerAnswer → String
as_address (address_answer address) = address
as_address (validity_answer true) = "true"
as_address (validity_answer false) = "false"

unfoldable pub as_validity : HandlerAnswer → Bool
as_validity (validity_answer valid) = valid
as_validity (address_answer address) = elim (address == "") [ true ↦ false | false ↦ true ]

-- `deepClone` of the signature: the JSON of undefined is undefined, which is not parsed.
unfoldable pub deep_clone : Option String → Settled String
deep_clone none = rejected "\"undefined\" is not valid JSON"
deep_clone (some signature) = resolved signature

module _ {S : Type 0} (messages : Messages) (providers : Providers S) where
  unfoldable pub evm_verify_message_worker : DaStructurePublication → String → Async S String
  evm_verify_message_worker da_publication signature =
      settle (messages.verify_message (messages.stringify da_publication) signature)

  unfoldable pub bundlr_verify_receipt_worker : BundlrUploadResponse → Async S Bool
  bundlr_verify_receipt_worker response = verify_receipt response providers

  -- What a worker thread answers to a request. A rejection stays in the thread: nothing is posted, and the
  -- pool never answers the request.
  unfoldable pub execute_worker : HandlerWorkerRequest → Async S HandlerAnswer
  unfolding evm_verify_message_worker bundlr_verify_receipt_worker
  execute_worker (evm_verify_message da_publication signature) =
      evm_verify_message_worker da_publication signature >>= λ address.
      pure (address_answer address)
  execute_worker (bundlr_verify_receipt response) =
      bundlr_verify_receipt_worker response >>= λ valid. pure (validity_answer valid)

module _ {S : Type 0} where
  -- `verifyTransactionSubmitter` of both, behind the request: the address is a text like `TIMEOUT_ERROR`.
  unfoldable pub owner_known :
      Environment → Option Deployment → String → Bool → Bool → Async S (Fetched Bool)
  owner_known environment deployment owner true empty = pure timeout_error
  owner_known environment deployment owner false true = pure (fetched false)
  owner_known environment deployment owner false false = do
    valid ← settle (is_valid_submitter environment owner deployment)
    pure (fetched valid)

  unfoldable pub owner_found :
      Environment → Option Deployment → Option String → Async S (Fetched Bool)
  unfolding owner_known
  owner_found environment deployment none = pure (fetched false)
  owner_found environment deployment (some owner) =
      owner_known environment deployment owner (owner == "timeout") (owner == "")

  unfoldable pub submitter_of_transaction :
      (ℕ → S → S)
      → FetchProvider S BundlrTx
      → Environment
      → String
      → Option Deployment
      → Async S (Fetched Bool)
  unfolding owner_found
  submitter_of_transaction wait transactions environment tx_id deployment = do
    owner ← get_owner_of_transaction_api wait transactions tx_id
    owner_found environment deployment owner

module _ {S : Type 0} (wait : ℕ → S → S) (transactions : FetchProvider S BundlrTx) where
  -- A node; `execute` is the worker pool's.
  unfoldable pub da_proof_verifier :
      (HandlerWorkerRequest → Async S HandlerAnswer) → DaProofsVerifier S
  unfolding deep_clone without_signature submitter_of_transaction as_address as_validity
  da_proof_verifier execute = record {
    extract_address = λ da_publication.
        settle (deep_clone da_publication.signature) >>= λ signature.
        execute (evm_verify_message (without_signature da_publication) signature) >>= λ answer.
        pure (as_address answer, without_signature da_publication);
    verify_timestamp_signature = λ da_publication.
        execute (bundlr_verify_receipt da_publication.timestamp_proofs.response) >>= λ answer.
        pure (as_validity answer);
    verify_transaction_submitter = submitter_of_transaction wait transactions;
  }

  -- A browser client
  unfoldable pub client_da_proof_verifier : Messages → Providers S → DaProofsVerifier S
  unfolding deep_clone without_signature submitter_of_transaction
  client_da_proof_verifier messages providers = record {
    extract_address = λ da_publication.
        settle (deep_clone da_publication.signature) >>= λ signature.
        settle (
          messages.verify_message (messages.stringify (without_signature da_publication)) signature)
        >>= λ address. pure (address, without_signature da_publication);
    verify_timestamp_signature =
        λ da_publication. verify_receipt da_publication.timestamp_proofs.response providers;
    verify_transaction_submitter = submitter_of_transaction wait transactions;
  }

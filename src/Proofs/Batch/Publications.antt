-- ===== src/Proofs/Batch/Publications.antt =====
-- `processPublication`, `processPublications` and `checkDAProofsBatch` of proofs/check-da-proofs-batch.ts.
use momoka.Prelude.{
  ℤ, int_lt, [], ◌∷◌, if◌then◌else◌, ℕ, String, ◌==◌, eq_string, Bool, true, false, Option, none,
  some, List, Settled, Async, pure, throw, settle, try_catch, all_of, map, ◌>>=◌, ◌>>◌,
}
use momoka.Common.{base64_string_to_json}
use momoka.Models.{
  DaStructurePublication, DaTimestampProofsResponse, DaPublicationsBatchResult,
  DaPublicationWithTimestampProofsBatchResult, DaResult, success, failed, MomokaValidatorError,
}
use momoka.Models.Errors.{unknown}
use momoka.Requests.{BundlrBulkTxsResponse}
use momoka.Queue.Known.{StreamCallback, Shared, in_world, enqueue_failed}
use momoka.Proofs.Checker.Interfaces.{
  Fetched, TxValidatedResult, validated_failure, CheckDaSubmissionOptions,
  get_default_check_da_submission_options,
}
use momoka.Proofs.Gateways.{fire_and_forget}
use momoka.Proofs.Batch.{
  build_tx_validation_result, get_bundlr_bulk_txs, build_da_publications_batch_result,
  build_da_publications_with_timestamp_proofs_batch_result,
}

pub record ProofResult : Type 0 where
  pub tx_id : String
  pub success : Bool
  pub validator_error : Option MomokaValidatorError

unfoldable pub proof_result :
    String → DaResult DaStructurePublication DaStructurePublication → ProofResult
proof_result tx_id (success publication) = record {
  tx_id = tx_id;
  success = true;
  validator_error = none;
}
proof_result tx_id (failed failure context) = record {
  tx_id = tx_id;
  success = false;
  validator_error = some failure;
}

-- `e.message || undefined`
abbrev pub error_info : String → Option String
error_info message = elim (message == "") [ true ↦ none | false ↦ some message ]

-- What a batch needs of the node: its checker, its database, and time. `late` tells, of what a check
-- leaves, whether it took longer than the timeout; `unhandled` is what the runtime makes of a rejection
-- that nobody handles.
pub record BatchServices (S : Type 0) : Type 0 where
  pub check_da_proof_with_metadata :
      String
      → DaPublicationWithTimestampProofsBatchResult
      → CheckDaSubmissionOptions
      → Async S (DaResult DaStructurePublication DaStructurePublication)
  pub get_bundlr_bulk_txs_api : List String → Async S (Fetched BundlrBulkTxsResponse)
  pub save_tx_db : String → TxValidatedResult → Async S Unit
  pub save_tx_da_metadata_db : String → DaStructurePublication → Async S Unit
  pub save_tx_timestamp_proofs_metadata_db : String → DaTimestampProofsResponse → Async S Unit
  pub get_anvil_current_block_number : Async S ℤ
  pub anvil_fork_from : ℤ → Async S Unit
  pub late : ℕ → S → Bool
  pub unhandled : String → S → S
  pub decode_base64 : String → String
  pub parse_publication : String → Settled DaStructurePublication
  pub parse_timestamp_proofs : String → Settled DaTimestampProofsResponse

module _ {S : Type 0} where
  -- `stream` where one is given
  unfoldable pub streamed : Option (StreamCallback S) → TxValidatedResult → Async S Unit
  streamed none result = pure tt
  streamed (some stream) result = stream result

  unfoldable pub unless_late : {A : Type 0} → Settled A → Bool → Async S A
  unless_late result true = throw "Timeout exceeded"
  unless_late result false = settle result

-- The largest block number of the publications
unfoldable pub most_recent : List DaPublicationsBatchResult → Option ℤ
most_recent [] = none
most_recent (p ∷ publications) = elim (most_recent publications) [
  | none ↦ some p.da_publication.chain_proofs.this_publication.block_number
  | some n ↦
      if int_lt n p.da_publication.chain_proofs.this_publication.block_number
      then some p.da_publication.chain_proofs.this_publication.block_number
      else some n
]

module _ {S : Type 0} (services : BatchServices S) where
  -- `Promise.race` with `createTimeoutPromise`: a check that is late goes on, and its result is dropped.
  unfoldable pub race_with_timeout : {A : Type 0} → ℕ → Async S A → Async S A
  unfolding unless_late
  race_with_timeout timeout check s =
      unless_late (check s).0 (services.late timeout (check s).1) (check s).1

  -- The body of the `try`. `invariant(result, …)` holds, because a timeout rejects.
  unfoldable pub checked_publication :
      DaPublicationWithTimestampProofsBatchResult
      → Bool
      → Option (StreamCallback S)
      → Async S ProofResult
  unfolding race_with_timeout proof_result streamed
  checked_publication publication retry_attempt stream = do
    result ← race_with_timeout 5000 (
        services.check_da_proof_with_metadata publication.id publication
          (record get_default_check_da_submission_options { by_pass_db = retry_attempt }))
    let tx_validated_result = build_tx_validation_result publication.id result
    fire_and_forget services.unhandled (services.save_tx_db publication.id tx_validated_result)
    streamed stream tx_validated_result
    pure (proof_result publication.id result)

  unfoldable pub process_publication :
      DaPublicationWithTimestampProofsBatchResult
      → Bool
      → Option (StreamCallback S)
      → Async S ProofResult
  unfolding checked_publication
  process_publication publication retry_attempt stream =
      try_catch (checked_publication publication retry_attempt stream) (λ message.
        fire_and_forget services.unhandled (
          services.save_tx_db publication.id
            (validated_failure publication.id unknown none (error_info message)))
        >> pure
            (record { tx_id = publication.id; success = false; validator_error = some unknown }))

  -- `if (result.success) … else failedDAProofQueue.enqueue(…)`, with the error that is there then
  unfoldable pub enqueue_unless_success :
      String → ProofResult → Option MomokaValidatorError → Bool → Async (Shared S) Unit
  enqueue_unless_success submitter result error true = pure tt
  enqueue_unless_success submitter result none false = pure tt
  enqueue_unless_success submitter result (some reason) false =
      enqueue_failed (record { tx_id = result.tx_id; reason = reason; submitter = submitter })

  -- The function that `processPublications` maps; logging is left out. For an entry without a
  -- publication it rejects where it logs, and what it did until then is left out.
  unfoldable pub process_entry :
      Bool
      → Option (StreamCallback S)
      → Option DaPublicationWithTimestampProofsBatchResult
      → Async (Shared S) ProofResult
  unfolding enqueue_unless_success
  process_entry retry_attempt stream none =
      throw "Cannot read properties of undefined (reading 'event')"
  process_entry retry_attempt stream (some publication) = do
    result ← in_world (process_publication publication retry_attempt stream)
    enqueue_unless_success publication.submitter result result.validator_error result.success
    pure result

  -- The checks run concurrently; here they follow each other in the order of the array.
  unfoldable pub process_publications :
      List (Option DaPublicationWithTimestampProofsBatchResult)
      → Bool
      → Option (StreamCallback S)
      → Async (Shared S) (List ProofResult)
  unfolding process_entry
  process_publications publications retry_attempt stream =
      all_of (process_entry retry_attempt stream) publications

  -- `Math.max` of the blocks' numbers is -Infinity for no publications, so nothing is forked then.
  unfoldable pub fork_if_behind : Option ℤ → ℤ → Async S Unit
  fork_if_behind none anvil_current_block_number = pure tt
  fork_if_behind (some most_recent_block_number) anvil_current_block_number =
      if int_lt anvil_current_block_number most_recent_block_number
      then services.anvil_fork_from most_recent_block_number
      else pure tt

  -- `if (usLocalNode) { … }`
  unfoldable pub fork_local_node : Bool → List DaPublicationsBatchResult → Async S Unit
  unfolding fork_if_behind most_recent
  fork_local_node false da_publications = pure tt
  fork_local_node true da_publications = do
    anvil_current_block_number ← services.get_anvil_current_block_number
    fork_if_behind (most_recent da_publications) anvil_current_block_number

  unfoldable pub check_da_proofs_batch :
      List String → Bool → Bool → Option (StreamCallback S) → Async (Shared S) (List ProofResult)
  unfolding process_publications
  check_da_proofs_batch tx_ids retry_attempt us_local_node stream = do
    bulk_da_proofs ← in_world (get_bundlr_bulk_txs services.get_bundlr_bulk_txs_api tx_ids)
    da_publications ← in_world (
        build_da_publications_batch_result services.unhandled
          (base64_string_to_json services.decode_base64 services.parse_publication)
          services.save_tx_da_metadata_db bulk_da_proofs.success)
    in_world (fork_local_node us_local_node da_publications)
    bulk_da_timestamp_proofs ← in_world (
        get_bundlr_bulk_txs services.get_bundlr_bulk_txs_api
          (map (λ p. p.da_publication.timestamp_proofs.response.id) da_publications))
    da_publications_with_timestamp_proofs ← in_world (
        build_da_publications_with_timestamp_proofs_batch_result services.unhandled
          (base64_string_to_json services.decode_base64 services.parse_timestamp_proofs)
          services.save_tx_timestamp_proofs_metadata_db bulk_da_timestamp_proofs.success
          da_publications)
    process_publications da_publications_with_timestamp_proofs retry_attempt stream

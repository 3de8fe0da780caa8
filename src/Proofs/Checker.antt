-- ===== src/Proofs/Checker.antt =====
-- proofs/da-proof-checker.ts, class `DaProofChecker`.
pub mod Interfaces
pub mod Steps
pub mod Recognized
pub mod Facts
pub mod Soundness
pub mod Lookups
pub mod Recursion
use momoka.Prelude.{
  String, Bool, true, false, not, Option, none, some, Async, pure, throw, settle, ◌>>=◌,
  replace_first, ◌==◌, eq_string, if◌then◌else◌,
}
use momoka.Models.{
  DaStructurePublication, DaTimestampProofsResponse, DaPublicationWithTimestampProofsBatchResult,
  DaResult, success, failed, failure, failure_with_context, is_success, PromiseWithContextResult,
  MomokaValidatorError,
}
use momoka.Models.Errors.{
  no_signature_submitter, invalid_signature_submitter, invalid_tx_id, can_not_connect_to_bundlr,
  timestamp_proof_not_submitter, chain_signature_already_used,
}
use momoka.Models.Chain.{with_context}
use momoka.Submitters.{is_valid_submitter}
use momoka.Evm.{Ethers, EvmApi, EthereumNode}
use Interfaces.{
  Fetched, timeout_error, fetched, TxValidatedResult, validated_success, validated_failure,
  CheckDaSubmissionOptions, DaProofsVerifier, DaProofsGateway,
}
use Steps.{check_extracted}

-- `!daPublication.signature` is false
abbrev pub is_signed : Option String → Bool
is_signed none = false
is_signed (some signature) = not (signature == "")

abbrev pub cached_result :
    Option TxValidatedResult → Option (DaResult DaStructurePublication DaStructurePublication)
cached_result none = none
cached_result (some (validated_success proof_tx_id publication)) = some (success publication)
cached_result (some (validated_failure proof_tx_id reason publication extra)) =
    some (failed reason publication)

module _ {S : Type 0} (verifier : DaProofsVerifier S) (gateway : DaProofsGateway S)
    (ethers : Ethers) (evm : EvmApi S) (ethereum_node : EthereumNode) where
  -- What this file's methods resolve to.
  abbrev pub Checked : Type 0
  Checked = PromiseWithContextResult S DaStructurePublication DaStructurePublication

  unfoldable pub tx_already_checked :
      String → Async S (Option (DaResult DaStructurePublication DaStructurePublication))
  tx_already_checked tx_id = do
    cache_result ← gateway.get_tx_result_from_cache tx_id
    pure (cached_result cache_result)

  -- `if (!options.byPassDb) { … }`
  unfoldable pub already_checked :
      Bool → String → Async S (Option (DaResult DaStructurePublication DaStructurePublication))
  already_checked true tx_id = pure none
  already_checked false tx_id = tx_already_checked tx_id

  -- The methods that check a publication, with the check of a pointed publication as an argument.
  module _ (check_pointer : String → Async S Bool) where
    -- `_checkDAProof` behind the address: each early return is a clause.
    unfoldable pub checked_submitter :
        Bool → DaTimestampProofsResponse → DaStructurePublication → Bool → Checked
    checked_submitter verify_pointer timestamp_proofs da_publication false =
        pure (failure_with_context invalid_signature_submitter da_publication)
    checked_submitter verify_pointer timestamp_proofs da_publication true =
        with_context da_publication (
          check_extracted verifier gateway ethers evm ethereum_node check_pointer verify_pointer
            da_publication timestamp_proofs)

    -- `_checkDAProof` behind the test of the signature
    unfoldable pub check_signed :
        Bool
        → DaStructurePublication
        → DaTimestampProofsResponse
        → CheckDaSubmissionOptions
        → Checked
    unfolding checked_submitter
    check_signed false da_publication timestamp_proofs options =
        pure (failure_with_context no_signature_submitter da_publication)
    check_signed true da_publication timestamp_proofs options = do
      signed ← verifier.extract_address da_publication
      valid ←
          settle (is_valid_submitter ethereum_node.environment signed.0 ethereum_node.deployment)
      checked_submitter options.verify_pointer timestamp_proofs signed.1 valid

    -- `_checkDAProof`
    unfoldable pub check_da_proof_data :
        DaStructurePublication → DaTimestampProofsResponse → CheckDaSubmissionOptions → Checked
    unfolding check_signed
    check_da_proof_data da_publication timestamp_proofs options =
        check_signed (is_signed da_publication.signature) da_publication timestamp_proofs options

    -- `checkDAProof` behind its look-up in the cache: each early return is a clause.
    unfoldable pub submitter_known :
        CheckDaSubmissionOptions
        → DaStructurePublication
        → DaTimestampProofsResponse
        → Fetched Bool
        → Checked
    submitter_known options p proofs timeout_error = pure (failure can_not_connect_to_bundlr)
    submitter_known options p proofs (fetched false) =
        pure (failure_with_context timestamp_proof_not_submitter p)
    submitter_known options p proofs (fetched true) = check_da_proof_data p proofs options

    unfoldable pub proofs_known :
        CheckDaSubmissionOptions
        → DaStructurePublication
        → Fetched (Option DaTimestampProofsResponse)
        → Checked
    unfolding submitter_known
    proofs_known options p timeout_error = pure (failure can_not_connect_to_bundlr)
    proofs_known options p (fetched none) = pure (failure invalid_tx_id)
    proofs_known options p (fetched (some proofs)) = do
      submitter ←
          verifier.verify_transaction_submitter ethereum_node.environment
            p.timestamp_proofs.response.id ethereum_node.deployment
      submitter_known options p proofs submitter

    unfoldable pub publication_known :
        CheckDaSubmissionOptions → String → Fetched (Option DaStructurePublication) → Checked
    unfolding proofs_known
    publication_known options tx_id timeout_error = pure (failure can_not_connect_to_bundlr)
    publication_known options tx_id (fetched none) = pure (failure invalid_tx_id)
    publication_known options tx_id (fetched (some p)) = do
      proofs ← gateway.get_timestamp_proofs p.timestamp_proofs.response.id tx_id
      proofs_known options p proofs

    -- pointers have the ar prefix
    unfoldable pub check_uncached :
        CheckDaSubmissionOptions
        → String
        → Option (DaResult DaStructurePublication DaStructurePublication)
        → Checked
    unfolding publication_known
    check_uncached options tx_id (some result) = pure result
    check_uncached options tx_id none = do
      let id = replace_first "ar://" tx_id
      publication ← gateway.get_da_publication id
      publication_known options id publication

    unfoldable pub check_da_proof_using : String → CheckDaSubmissionOptions → Checked
    unfolding check_uncached
    check_da_proof_using tx_id options = do
      cached ← already_checked options.by_pass_db tx_id
      check_uncached options tx_id cached

    -- `checkDAProofWithMetadata` behind its look-ups in the database
    unfoldable pub submitter_checked :
        CheckDaSubmissionOptions → DaPublicationWithTimestampProofsBatchResult → Bool → Checked
    submitter_checked options b false =
        pure (failure_with_context timestamp_proof_not_submitter b.da_publication)
    submitter_checked options b true =
        check_da_proof_data b.da_publication b.timestamp_proofs_data options

    unfoldable pub signature_checked :
        CheckDaSubmissionOptions → DaPublicationWithTimestampProofsBatchResult → Bool → Checked
    unfolding submitter_checked
    signature_checked options b true =
        pure (failure_with_context chain_signature_already_used b.da_publication)
    signature_checked options b false = do
      valid ←
          settle (is_valid_submitter ethereum_node.environment b.submitter ethereum_node.deployment)
      submitter_checked options b valid

    unfoldable pub signature_already_used : Bool → String → Async S Bool
    signature_already_used true signature = pure false
    signature_already_used false signature = gateway.has_signature_been_used_before signature

    unfoldable pub metadata_uncached :
        CheckDaSubmissionOptions
        → DaPublicationWithTimestampProofsBatchResult
        → Option (DaResult DaStructurePublication DaStructurePublication)
        → Checked
    unfolding signature_checked signature_already_used
    metadata_uncached options b (some result) = pure result
    metadata_uncached options b none = do
      used ←
          signature_already_used options.by_pass_db
            b.da_publication.chain_proofs.this_publication.signature
      signature_checked options b used

    unfoldable pub check_da_proof_with_metadata_using :
        String → DaPublicationWithTimestampProofsBatchResult → CheckDaSubmissionOptions → Checked
    unfolding metadata_uncached
    check_da_proof_with_metadata_using tx_id b options = do
      cached ← already_checked options.by_pass_db tx_id
      metadata_uncached options b cached

  -- The check of a pointed publication: `verifyPointer` is false there, so it checks no pointer.
  unfoldable pub check_pointed : String → Async S Bool
  check_pointed location = do
    result ←
        check_da_proof_using (λ _. throw "no pointer is verified") location
          (record { verify_pointer = false; by_pass_db = false })
    pure (is_success result)

  unfoldable pub check_da_proof : String → CheckDaSubmissionOptions → Checked
  check_da_proof tx_id options = check_da_proof_using check_pointed tx_id options

  unfoldable pub check_da_proof_with_metadata :
      String → DaPublicationWithTimestampProofsBatchResult → CheckDaSubmissionOptions → Checked
  check_da_proof_with_metadata tx_id b options =
      check_da_proof_with_metadata_using check_pointed tx_id b options

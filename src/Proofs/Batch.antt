-- ===== src/Proofs/Batch.antt =====
-- proofs/check-da-proofs-batch.ts over the checker of a node. The queues that a batch fills are part of
-- the state, beside the rest of the world.
pub mod Publications
pub mod Bulk
pub mod Outcomes
pub mod Whole
use momoka.Prelude.{
  ℕ, zero, suc, String, ◌==◌, eq_string, Bool, true, false, Option, none, some, List, [], ◌∷◌, ◌++◌,
  map, Settled, resolved, rejected, Async, pure, throw, settle, try_catch, all_of, ◌>>=◌, ◌>>◌,
  get_elem?, if◌then◌else◌,
}
use momoka.Common.{chunk_array}
use momoka.Models.{
  DaStructurePublication, DaTimestampProofsResponse, DaPublicationsBatchResult,
  DaPublicationWithTimestampProofsBatchResult, DaResult, success, failed, MomokaValidatorError,
}
use momoka.Models.Errors.{unknown}
use momoka.Requests.{BundlrBulkTxSuccess, BundlrBulkTxsResponse}
use momoka.Proofs.Checker.Interfaces.{
  Fetched, timeout_error, fetched, TxValidatedResult, validated_success, validated_failure,
}
use momoka.Proofs.Gateways.{fire_and_forget}

unfoldable pub build_tx_validation_result :
    String → DaResult DaStructurePublication DaStructurePublication → TxValidatedResult
build_tx_validation_result tx_id (success publication) = validated_success tx_id publication
build_tx_validation_result tx_id (failed failure context) =
    validated_failure tx_id failure context none

-- `{ ...acc, [id]: error }`
abbrev set_key : String → String → List (String × String) → List (String × String)
set_key key value [] = (key, value) ∷ []
set_key key value ((k, v) ∷ entries) =
    let rest = set_key key value entries in
    if k == key then (key, value) ∷ entries else (k, v) ∷ rest

-- `{ ...acc, ...current }`
abbrev pub spread : List (String × String) → List (String × String) → List (String × String)
spread acc [] = acc
spread acc ((key, value) ∷ current) = spread (set_key key value acc) current

unfoldable pub combine : BundlrBulkTxsResponse → List BundlrBulkTxsResponse → BundlrBulkTxsResponse
combine acc [] = acc
combine acc (current ∷ responses) =
    combine
      (record {
        success = acc.success ++ current.success;
        failed = spread acc.failed current.failed;
      })
      responses

-- `{ ...daPublications[i], submitter, timestampProofsData }`; `none` is an entry without a publication.
unfoldable pub with_timestamp_proofs :
    String
    → DaTimestampProofsResponse
    → Option DaPublicationsBatchResult
    → Option DaPublicationWithTimestampProofsBatchResult
with_timestamp_proofs submitter timestamp_proofs_data none = none
with_timestamp_proofs submitter timestamp_proofs_data (some publication) = some (record {
  id = publication.id;
  da_publication = publication.da_publication;
  submitter = submitter;
  timestamp_proofs_data = timestamp_proofs_data;
})

-- The results with their indexes.
abbrev pub indexed_from : {A : Type 0} → ℕ → List A → List (ℕ × A)
indexed_from i [] = []
indexed_from i (x ∷ xs) = (i, x) ∷ indexed_from (suc i) xs

module _ {S : Type 0} where
  unfoldable pub or_timed_out : Fetched BundlrBulkTxsResponse → Async S BundlrBulkTxsResponse
  or_timed_out timeout_error = throw "getBundlrBulkTxsAPI for proofs timed out"
  or_timed_out (fetched response) = pure response

  -- `request` is `getBundlrBulkTxsAPI`.
  module _ (request : List String → Async S (Fetched BundlrBulkTxsResponse)) where
    unfoldable pub get_chunk : List String → Async S BundlrBulkTxsResponse
    unfolding or_timed_out
    get_chunk tx_ids_chunk = request tx_ids_chunk >>= or_timed_out

    unfoldable pub get_chunks : Option (List (List String)) → Async S BundlrBulkTxsResponse
    unfolding get_chunk combine
    get_chunks none = throw "Maximum call stack size exceeded"
    get_chunks (some tx_ids_chunks) = do
      bulk_da_proofs ← all_of get_chunk tx_ids_chunks
      pure (combine (record { success = []; failed = [] }) bulk_da_proofs)

    -- can only handle 1000 at a time!
    unfoldable pub get_bundlr_bulk_txs : List String → Async S BundlrBulkTxsResponse
    unfolding get_chunks
    get_bundlr_bulk_txs tx_ids = get_chunks (chunk_array tx_ids 1000)

  -- `decode` is `base64StringToJson`, and `save` is `saveTxDAMetadataDb`, which is not awaited.
  unfoldable pub build_da_publications_batch_result :
      (String → S → S)
      → (String → Settled DaStructurePublication)
      → (String → DaStructurePublication → Async S Unit)
      → List BundlrBulkTxSuccess
      → Async S (List DaPublicationsBatchResult)
  build_da_publications_batch_result unhandled decode save results =
      all_of
        (λ result. settle (decode result.content) >>= λ da_publication.
          fire_and_forget unhandled (save result.id da_publication)
          >> pure (record {
            id = result.id;
            da_publication = da_publication;
            submitter = result.address;
          }))
        results

  -- `save` is `saveTxTimestampProofsMetadataDb`, which is not awaited.
  unfoldable pub build_da_publications_with_timestamp_proofs_batch_result :
      (String → S → S)
      → (String → Settled DaTimestampProofsResponse)
      → (String → DaTimestampProofsResponse → Async S Unit)
      → List BundlrBulkTxSuccess
      → List DaPublicationsBatchResult
      → Async S (List (Option DaPublicationWithTimestampProofsBatchResult))
  unfolding with_timestamp_proofs
  build_da_publications_with_timestamp_proofs_batch_result unhandled decode save results
        da_publications =
      all_of
        (λ entry. settle (decode entry.1.content) >>= λ timestamp_proofs_data.
          fire_and_forget unhandled (save entry.1.id timestamp_proofs_data)
          >> pure (
              with_timestamp_proofs entry.1.address timestamp_proofs_data
                (get_elem? da_publications entry.0)))
        (indexed_from 0 results)

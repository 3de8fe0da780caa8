-- ===== src/Proofs/Batch/Whole.antt =====
-- A whole batch, from what Bundlr finds to its results.
use momoka.Prelude.{
  ℕ, suc, ◌+◌, arith, String, Bool, false, Option, some, List, [], ◌∷◌, ◌++◌, map, get_elem?,
  resolved, pure, settle, All, all_of, all_of-cons, ◌>>=◌, ◌>>◌, ◌≡◌, refl, ap, ◌∙◌,
}
use momoka.Common.{base64_string_to_json}
use momoka.Models.{
  DaStructurePublication, DaTimestampProofsResponse, DaPublicationsBatchResult,
  DaPublicationWithTimestampProofsBatchResult,
}
use momoka.Requests.{BundlrBulkTxSuccess}
use momoka.Queue.Known.{StreamCallback, Shared, ProcessFailedProofQueueRequest, in_world}
use momoka.Proofs.Gateways.{fire_and_forget, left_behind}
use momoka.Proofs.Batch.{
  build_da_publications_batch_result, with_timestamp_proofs, indexed_from,
  build_da_publications_with_timestamp_proofs_batch_result,
}
use momoka.Proofs.Batch.Bulk.{
  found_in, found_in-some, found_in-nil, AnswersBulk, get_bundlr_bulk_txs-found,
}
use momoka.Proofs.Batch.Publications.{
  ProofResult, BatchServices, process_publications, fork_local_node, check_da_proofs_batch,
}
use momoka.Proofs.Batch.Outcomes.{Failures, WritesResolve, process_publications-Failures}

-- What Bundlr holds: a transaction for some ids, a publication in the content of each and timestamp
-- proofs in that of another, whose transaction each publication names.
pub record Bundlr : Type 0 where
  pub find : String → Option BundlrBulkTxSuccess
  pub publication_in : String → DaStructurePublication
  pub proofs_in : String → DaTimestampProofsResponse
  pub timestamp_tx : DaStructurePublication → BundlrBulkTxSuccess

module _ (bundlr : Bundlr) where
  -- A transaction's publication, as a batch reads it
  abbrev pub published : BundlrBulkTxSuccess → DaPublicationsBatchResult
  published tx = record {
    id = tx.id;
    da_publication = bundlr.publication_in tx.content;
    submitter = tx.address;
  }

  -- A publication with its own timestamp proofs
  abbrev pub stamped : BundlrBulkTxSuccess → DaPublicationWithTimestampProofsBatchResult
  stamped tx = record {
    id = tx.id;
    da_publication = bundlr.publication_in tx.content;
    submitter = (bundlr.timestamp_tx (bundlr.publication_in tx.content)).address;
    timestamp_proofs_data =
        bundlr.proofs_in (bundlr.timestamp_tx (bundlr.publication_in tx.content)).content;
  }

  abbrev stamp_of : BundlrBulkTxSuccess → BundlrBulkTxSuccess
  stamp_of tx = bundlr.timestamp_tx (bundlr.publication_in tx.content)

  module _ {S : Type 0} (services : BatchServices S) where
    -- The content of a transaction is read as its publication, and the timestamp transaction that this
    -- names is found and read.
    pub record IsReadable (tx : BundlrBulkTxSuccess) : Type 0 where
      pub publication :
          base64_string_to_json services.decode_base64 services.parse_publication tx.content
          ≡ resolved (bundlr.publication_in tx.content)
      pub stamp :
          bundlr.find (bundlr.publication_in tx.content).timestamp_proofs.response.id
          ≡ some (stamp_of tx)
      pub proofs :
          base64_string_to_json services.decode_base64 services.parse_timestamp_proofs
            (stamp_of tx).content
          ≡ resolved (bundlr.proofs_in (stamp_of tx).content)

    -- The requests are answered from what Bundlr holds, what it holds of the ids can be read, and the
    -- writes that nobody awaits do not fail.
    pub record Serves (tx_ids : List String) : Type 0 where
      pub bulk : AnswersBulk services.get_bundlr_bulk_txs_api bundlr.find
      pub readable : All IsReadable (found_in bundlr.find tx_ids)
      pub writes : WritesResolve services

    publications-read :
        (txs : List BundlrBulkTxSuccess)
        → All IsReadable txs
        → (s : S)
        → (t : S) × (build_da_publications_batch_result services.unhandled
              (base64_string_to_json services.decode_base64 services.parse_publication)
              services.save_tx_da_metadata_db
              txs
              s
            ≡ (resolved (map published txs), t))
    unfolding build_da_publications_batch_result all_of fire_and_forget
    publications-read [] readable s = (s, refl)
    publications-read (tx ∷ txs) readable s =
        let saved =
          left_behind services.unhandled
            (services.save_tx_da_metadata_db tx.id (bundlr.publication_in tx.content) s) in
        let (t, e) = publications-read txs readable.1 saved in
        (t, all_of-cons _ tx txs (rw readable.0.publication refl) e)

    stamps-found :
        (txs : List BundlrBulkTxSuccess)
        → All IsReadable txs
        → found_in bundlr.find
            (map (λ p. p.da_publication.timestamp_proofs.response.id) (map published txs))
          ≡ map stamp_of txs
    stamps-found [] readable = found_in-nil bundlr.find
    stamps-found (tx ∷ txs) readable =
        found_in-some bundlr.find _ _ (stamp_of tx) readable.0.stamp
        ∙ ap (λ l. stamp_of tx ∷ l) (stamps-found txs readable.1)

    -- The pairing from an index on, where the publications from there are those of `txs`.
    proofs-paired :
        (publications : List DaPublicationsBatchResult) (i : ℕ) (txs : List BundlrBulkTxSuccess)
        → All IsReadable txs
        → ((k : ℕ) → get_elem? publications (i + k) ≡ get_elem? (map published txs) k)
        → (s : S)
        → (t : S) × (all_of
              (λ entry.
                settle (
                  base64_string_to_json services.decode_base64 services.parse_timestamp_proofs
                    entry.1.content)
                >>= λ timestamp_proofs_data.
                    fire_and_forget services.unhandled (
                      services.save_tx_timestamp_proofs_metadata_db entry.1.id
                        timestamp_proofs_data)
                    >> pure (
                        with_timestamp_proofs entry.1.address timestamp_proofs_data
                          (get_elem? publications entry.0)))
              (indexed_from i (map stamp_of txs))
              s
            ≡ (resolved (map (λ tx. some (stamped tx)) txs), t))
    unfolding all_of fire_and_forget with_timestamp_proofs
    proofs-paired publications i [] readable elements s = (s, refl)
    proofs-paired publications i (tx ∷ txs) readable elements s =
        let saved = left_behind services.unhandled (
          services.save_tx_timestamp_proofs_metadata_db (stamp_of tx).id
            (bundlr.proofs_in (stamp_of tx).content) s) in
        let here : get_elem? publications i ≡ some (published tx) =
          let same : i ≡ i + 0 = omega arith in
          ap (λ j. get_elem? publications j) same ∙ elements 0 in
        let behind : (k : ℕ)
            → get_elem? publications (suc i + k) ≡ get_elem? (map published txs) k =
          λ k.
            let same : suc i + k ≡ i + suc k = omega arith in
            ap (λ j. get_elem? publications j) same ∙ elements (suc k) in
        let (t, e) = proofs-paired publications (suc i) txs readable.1 behind saved in
        (
          t,
          all_of-cons _ (i, stamp_of tx) (indexed_from (suc i) (map stamp_of txs))
              (rw (readable.0.proofs, here) refl) e,
        )

    map-some-stamped :
        (txs : List BundlrBulkTxSuccess)
        → map (λ tx. some (stamped tx)) txs ≡ map some (map stamped txs)
    map-some-stamped [] = refl
    map-some-stamped (tx ∷ txs) = ap (λ l. some (stamped tx) ∷ l) (map-some-stamped txs)

    batch-read :
        (tx_ids : List String)
        → Serves tx_ids
        → (retry_attempt : Bool) (stream : Option (StreamCallback S)) (s : Shared S)
        → (w : S) × (check_da_proofs_batch services tx_ids retry_attempt false stream s
            ≡ process_publications services
                (map some (map stamped (found_in bundlr.find tx_ids)))
                retry_attempt
                stream
                (record s { world = w }))
    unfolding check_da_proofs_batch in_world fork_local_node
        build_da_publications_with_timestamp_proofs_batch_result
    batch-read tx_ids serves retry_attempt stream s =
        let txs = found_in bundlr.find tx_ids in
        let (r0, s0, e0, p0) =
          get_bundlr_bulk_txs-found services.get_bundlr_bulk_txs_api bundlr.find serves.bulk tx_ids
            s.world in
        let (s1, e1) = publications-read txs serves.readable s0 in
        let (r2, s2, e2, p2) =
          get_bundlr_bulk_txs-found services.get_bundlr_bulk_txs_api bundlr.find serves.bulk
            (map (λ p. p.da_publication.timestamp_proofs.response.id) (map published txs)) s1 in
        let from_start : (k : ℕ)
            → get_elem? (map published txs) (0 + k) ≡ get_elem? (map published txs) k =
          λ k.
            let same : 0 + k ≡ k = omega arith in ap (λ j. get_elem? (map published txs) j) same in
        let (s3, e3) = proofs-paired (map published txs) 0 txs serves.readable from_start s2 in
        (
          s3,
          rw (e0, p0, e1, e2, p2, stamps-found txs serves.readable, e3, map-some-stamped txs) refl,
        )

    -- If Bundlr answers for up to 1000 ids at a time, and of the batch's ids holds publications that can be
    -- read, each with a timestamp transaction that is found and can be read, and no write that nobody
    -- awaits fails, then from every state the batch has a result for each of its transactions that is
    -- found, in order. A result is a success only if the check of that publication, with its own timestamp
    -- proofs and their submitter, succeeded, and else has the reason of that check, or UNKNOWN. The queue
    -- of failed proofs is then what it was, followed by one request for each failure, with the submitter of
    -- the timestamp proofs.
    pub check_da_proofs_batch-Failures :
        (tx_ids : List String)
        → Serves tx_ids
        → (retry_attempt : Bool) (stream : Option (StreamCallback S)) (s : Shared S)
        → (rs : List ProofResult) × (requests : List ProcessFailedProofQueueRequest) × (w : S)
          × (check_da_proofs_batch services tx_ids retry_attempt false stream s ≡ (
            resolved rs,
            record s {
              world = w;
              failed_da_proof_queue = record { items = s.failed_da_proof_queue.items ++ requests };
            },
          ))
          × Failures services retry_attempt (map stamped (found_in bundlr.find tx_ids)) rs requests
    check_da_proofs_batch-Failures tx_ids serves retry_attempt stream s =
        let (w, read) = batch-read tx_ids serves retry_attempt stream s in
        let (rs, requests, t, run, failures) =
          process_publications-Failures services (map stamped (found_in bundlr.find tx_ids))
            retry_attempt stream (record s { world = w }) in
        (rs, requests, t, read ∙ run, failures)

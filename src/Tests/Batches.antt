-- ===== src/Tests/Batches.antt =====
-- A batch on concrete data. The state counts the calls.
use momoka.Prelude.{
  ℕ, suc, pos, String, false, Option, none, some, List, [], ◌∷◌, ◌++◌, map, All, resolved, rejected,
  Async, ◌≡◌, refl, ◌==◌, eq_string, if◌then◌else◌,
}
use momoka.Models.{DaPublicationWithTimestampProofsBatchResult, success, failed}
use momoka.Models.Errors.{potential_reorg}
use momoka.Evm.{EthereumNode}
use momoka.Requests.{BundlrBulkTxSuccess, BundlrBulkTxsResponse}
use momoka.Queue.{empty_queue}
use momoka.Queue.Known.{
  Shared, ProcessFailedProofQueueRequest, ProcessRetryCheckDaProofsQueueRequest,
}
use momoka.Proofs.Checker.Interfaces.{Fetched, fetched, timeout_error}
use momoka.Proofs.Batch.{get_bundlr_bulk_txs}
use momoka.Proofs.Batch.Bulk.{found_in, AnswersBulk, get_bundlr_bulk_txs-found}
use momoka.Proofs.Batch.Publications.{
  ProofResult, BatchServices, process_publication, check_da_proofs_batch,
}
use momoka.Proofs.Batch.Outcomes.{
  ProofOutcome, Failures, WritesResolve, process_publication-ProofOutcome,
}
use momoka.Common.{base64_string_to_json}
use momoka.Proofs.Batch.Whole.{Bundlr, IsReadable, Serves, stamped, check_da_proofs_batch-Failures}
use momoka.Tests.Samples.{comment_sample_v1, sample_proofs, sample_node}

abbrev pub found : String → Option BundlrBulkTxSuccess
found tx_id =
    if tx_id == "lost"
    then none
    else some (record { id = tx_id; address = "0xa"; content = "e30=" })

abbrev bulk_request : List String → Async ℕ (Fetched BundlrBulkTxsResponse)
bulk_request tx_ids s =
    (resolved (fetched (record { success = found_in found tx_ids; failed = [] })), suc s)

bulk_request-AnswersBulk : AnswersBulk bulk_request found
bulk_request-AnswersBulk = record { answer = λ tx_ids short s. (_, _, refl, refl) }

get_bundlr_bulk_txs-found_example :
    (response : BundlrBulkTxsResponse) × (t : ℕ) × (get_bundlr_bulk_txs bulk_request
        ("9c1a" ∷ "lost" ∷ "7b20" ∷ [])
        0
      ≡ (resolved response, t))
    × (response.success ≡ found_in found ("9c1a" ∷ "lost" ∷ "7b20" ∷ []))
get_bundlr_bulk_txs-found_example =
    get_bundlr_bulk_txs-found bulk_request found bulk_request-AnswersBulk
      ("9c1a" ∷ "lost" ∷ "7b20" ∷ []) 0

-- The check of the first transaction succeeds, and that of any other does not.
abbrev pub sample_batch : BatchServices ℕ
sample_batch = record {
  check_da_proof_with_metadata = λ tx_id b options s. (
    resolved (if tx_id == "first" then success b.da_publication else failed potential_reorg none),
    suc s,
  );
  get_bundlr_bulk_txs_api = bulk_request;
  save_tx_db = λ tx_id result s. (resolved tt, suc s);
  save_tx_da_metadata_db = λ tx_id publication s. (resolved tt, suc s);
  save_tx_timestamp_proofs_metadata_db = λ tx_id proofs s. (resolved tt, suc s);
  get_anvil_current_block_number = λ s. (resolved (pos 100), suc s);
  anvil_fork_from = λ n s. (resolved tt, suc s);
  late = λ timeout s. false;
  unhandled = λ message s. s;
  decode_base64 = λ content. content;
  parse_publication =
      λ content. if content == "e30=" then resolved comment_sample_v1 else rejected "no JSON";
  parse_timestamp_proofs =
      λ content. if content == "e30=" then resolved sample_proofs else rejected "no JSON";
}

abbrev batch_entry : String → DaPublicationWithTimestampProofsBatchResult
batch_entry tx_id = record {
  id = tx_id;
  da_publication = comment_sample_v1;
  submitter = "0xa";
  timestamp_proofs_data = sample_proofs;
}

abbrev pub quiet : Shared ℕ
quiet = record {
  world = 0;
  failed_da_proof_queue = empty_queue;
  delayed_failures = [];
  retry_check_da_proofs_queue = empty_queue;
  delayed_retries = [];
}

process_publication-ProofOutcome_example :
    (r : ProofResult) × (t : ℕ) × (process_publication sample_batch
        (batch_entry "first")
        false
        none
        0
      ≡ (resolved r, t))
    × ProofOutcome sample_batch (batch_entry "first") false 0 r
process_publication-ProofOutcome_example =
    process_publication-ProofOutcome sample_batch (batch_entry "first") false none 0

abbrev sample_retry : ProcessRetryCheckDaProofsQueueRequest ℕ
sample_retry = record { tx_ids = "9c1a" ∷ []; ethereum_node = sample_node; stream = none }

abbrev with_retry : Shared ℕ
with_retry = record quiet { retry_check_da_proofs_queue = record { items = sample_retry ∷ [] } }

-- Bundlr does not answer, so the request waits again.
abbrev offline_batch : EthereumNode → BatchServices ℕ
offline_batch node = record sample_batch {
  get_bundlr_bulk_txs_api = λ tx_ids s. (resolved timeout_error, suc s);
}

-- Every id is found but one, and no content can be read but that of what is found.
abbrev pub sample_bundlr : Bundlr
sample_bundlr = record {
  find = found;
  publication_in = λ content. comment_sample_v1;
  proofs_in = λ content. sample_proofs;
  timestamp_tx =
      λ p. record { id = p.timestamp_proofs.response.id; address = "0xa"; content = "e30=" };
}

abbrev pub whole_batch : BatchServices ℕ
whole_batch = record sample_batch {
  get_bundlr_bulk_txs_api = λ tx_ids s. (
    resolved (fetched (record { success = found_in sample_bundlr.find tx_ids; failed = [] })),
    suc s,
  );
}

-- Content that is found is read.
pub content-IsReadable :
    (tx_id : String)
    → IsReadable sample_bundlr whole_batch
        (record { id = tx_id; address = "0xa"; content = "e30=" })
unfolding base64_string_to_json
content-IsReadable tx_id = record { publication = refl; stamp = refl; proofs = refl }

pub sample_batch-WritesResolve : WritesResolve sample_batch
sample_batch-WritesResolve = record {
  tx = λ tx_id result s. (suc s, refl);
  metadata = λ tx_id publication s. (suc s, refl);
  timestamp_proofs = λ tx_id proofs s. (suc s, refl);
}

whole_batch-WritesResolve : WritesResolve whole_batch
whole_batch-WritesResolve = record {
  tx = λ tx_id result s. (suc s, refl);
  metadata = λ tx_id publication s. (suc s, refl);
  timestamp_proofs = λ tx_id proofs s. (suc s, refl);
}

pub whole_batch-Serves :
    (tx_ids : List String)
    → All (IsReadable sample_bundlr whole_batch) (found_in found tx_ids)
    → Serves sample_bundlr whole_batch tx_ids
whole_batch-Serves tx_ids readable = record {
  bulk = record { answer = λ ids short s. (_, _, refl, refl) };
  readable = readable;
  writes = whole_batch-WritesResolve;
}

some-IsReadable :
    All (IsReadable sample_bundlr whole_batch) (found_in found ("first" ∷ "lost" ∷ "second" ∷ []))
unfolding found_in
some-IsReadable = (content-IsReadable "first", (content-IsReadable "second", tt))

check_da_proofs_batch-Failures_example :
    (rs : List ProofResult) × (requests : List ProcessFailedProofQueueRequest) × (w : ℕ)
    × (check_da_proofs_batch whole_batch ("first" ∷ "lost" ∷ "second" ∷ []) false false none quiet
        ≡ (
          resolved rs,
          record quiet { world = w; failed_da_proof_queue = record { items = [] ++ requests } },
        ))
    × Failures whole_batch false
        (map
          (stamped sample_bundlr)
          (found_in sample_bundlr.find ("first" ∷ "lost" ∷ "second" ∷ [])))
        rs
        requests
check_da_proofs_batch-Failures_example =
    check_da_proofs_batch-Failures sample_bundlr whole_batch ("first" ∷ "lost" ∷ "second" ∷ [])
      (whole_batch-Serves ("first" ∷ "lost" ∷ "second" ∷ []) some-IsReadable) false none quiet

-- ===== src/Tests/Indexers.antt =====
-- The trusting indexer on concrete data. The state is what the callback was given.
use momoka.Prelude.{
  rejected, ◌==◌, eq_string, if◌then◌else◌, ◌+◌, ◌*◌, Option, none, some, List, [], ◌∷◌, ◌++◌,
  length, take, drop, pos, false, resolved, Async, ◌≡◌, refl,
}
use momoka.Common.{run_rounds, mumbai, production, base64_string_to_json}
use momoka.Models.{failed}
use momoka.Models.Errors.{potential_reorg}
use momoka.Requests.{TransactionsQuery, TransactionsResponse}
use momoka.Proofs.Checker.Interfaces.{TxValidatedResult, fetched}
use momoka.Proofs.Batch.Bulk.{found_in}
use momoka.Proofs.Batch.Publications.{BatchServices}
use momoka.Watchers.Pages.Log.{ServesLog}
use momoka.Watchers.Indexer.{IndexingServices, IndexerState, indexing_round}
use momoka.Watchers.Streaming.{Sources, Records, streamed_for, indexing_rounds-streamed}
use momoka.Tests.Samples.{comment_sample_v1}
use momoka.Tests.Batches.{sample_bundlr}
use momoka.Tests.Nodes.{
  sample_log, at_end, sample_position, page_of, page_of-IsPage, owners, owners_known,
}

abbrev Given : Type 0
Given = List TxValidatedResult

abbrev indexed_batch : BatchServices Given
indexed_batch = record {
  check_da_proof_with_metadata = λ tx_id b options s. (resolved (failed potential_reorg none), s);
  get_bundlr_bulk_txs_api = λ tx_ids s. (
    resolved (fetched (record { success = found_in sample_bundlr.find tx_ids; failed = [] })),
    s,
  );
  save_tx_db = λ tx_id result s. (resolved tt, s);
  save_tx_da_metadata_db = λ tx_id publication s. (resolved tt, s);
  save_tx_timestamp_proofs_metadata_db = λ tx_id proofs s. (resolved tt, s);
  get_anvil_current_block_number = λ s. (resolved (pos 100), s);
  anvil_fork_from = λ n s. (resolved tt, s);
  late = λ timeout s. false;
  unhandled = λ message s. s;
  decode_base64 = λ content. content;
  parse_publication =
      λ content. if content == "e30=" then resolved comment_sample_v1 else rejected "no JSON";
  parse_timestamp_proofs = λ content. rejected "no JSON";
}

abbrev indexed_query : TransactionsQuery → Async Given (Option TransactionsResponse)
indexed_query q s = (resolved (some (page_of (at_end q.after))), s)

abbrev recording : IndexingServices Given
recording = record {
  batch = indexed_batch;
  query = indexed_query;
  wait = λ milliseconds s. s;
  environment = mumbai;
  deployment = some production;
  stream = λ result s. (resolved tt, s ++ result ∷ []);
}

indexed_query-ServesLog : ServesLog sample_log sample_position indexed_query owners
indexed_query-ServesLog = record {
  page = λ after s. (page_of (at_end after), s, refl, page_of-IsPage after (at_end after) refl);
}

recording-Sources : Sources recording sample_bundlr owners sample_log sample_position (λ s. s)
unfolding base64_string_to_json found_in
recording-Sources = record {
  submitters = owners_known;
  pages = indexed_query-ServesLog;
  bulk = record { answer = λ tx_ids short s. (_, _, refl, refl) };
  publications = (refl, (refl, tt));
}

recording-Records : Records recording sample_bundlr owners sample_log sample_position (λ s. s)
recording-Records = record {
  streams = λ result s. (s ++ result ∷ [], refl, refl);
  unseen_query = λ q s. refl;
  unseen_bulk = λ tx_ids s. refl;
  unseen_save = λ tx_id publication s. (s, refl, refl);
  unseen_wait = λ milliseconds s. refl;
}

abbrev new_index : IndexerState Given
new_index = record { world = []; end_cursor = none }

indexing_rounds-streamed_example :
    (v' : IndexerState Given) × (run_rounds
        (λ milliseconds v. v)
        2
        (indexing_round recording)
        none
        new_index
      ≡ (resolved tt, v'))
    × (sample_position v'.end_cursor ≡ 0 + length (take (2 * 1000) (drop 0 sample_log)))
    × (v'.world ≡ [] ++ streamed_for sample_bundlr (take (2 * 1000) (drop 0 sample_log)))
indexing_rounds-streamed_example =
    indexing_rounds-streamed recording sample_bundlr owners sample_log sample_position (λ s. s)
      recording-Sources recording-Records (λ milliseconds v. v) 2 new_index

-- ===== src/Watchers/Indexer.antt =====
-- watchers/trusting-indexing.watcher.ts: the loop of `startDATrustingIndexing`, a round at a time.
use momoka.Prelude.{ℕ, String, Option, List, [], ◌∷◌, Async, pure, try_catch, ◌>>=◌, ◌>>◌}
use momoka.Common.{Environment, Deployment, base64_string_to_json}
use momoka.Models.{DaPublicationsBatchResult}
use momoka.Requests.{
  TransactionsQuery, TransactionsResponse, TransactionNode, PageInfo, ascending,
  get_data_availability_transactions_api,
}
use momoka.Queue.Known.{StreamCallback}
use momoka.Proofs.Checker.Interfaces.{validated_success}
use momoka.Proofs.Batch.{or_timed_out, build_da_publications_batch_result}
use momoka.Proofs.Batch.Publications.{BatchServices}
use momoka.Watchers.Pages.{ids_of}

-- What `startDATrustingIndexing` is given, and what it asks of the network and of time.
pub record IndexingServices (S : Type 0) : Type 0 where
  pub batch : BatchServices S
  pub query : TransactionsQuery → Async S (Option TransactionsResponse)
  pub wait : ℕ → S → S
  pub environment : Environment
  pub deployment : Option Deployment
  pub stream : StreamCallback S

-- The variable `endCursor`, beside the rest of the world.
pub record IndexerState (S : Type 0) : Type 0 where
  pub world : S
  pub end_cursor : Option String

module _ {S : Type 0} (services : IndexingServices S) where
  -- `daPublications.map((publication) => { request.stream(…); })`: a callback that throws ends it.
  unfoldable pub stream_all : List DaPublicationsBatchResult → Async S Unit
  stream_all [] = pure tt
  stream_all (publication ∷ publications) =
      services.stream (validated_success publication.id publication.da_publication)
      >> stream_all publications

  -- The new submissions of a page
  unfoldable pub index_submissions : List String → Async S Unit
  unfolding stream_all
  index_submissions tx_ids = do
    answer ← services.batch.get_bundlr_bulk_txs_api tx_ids
    bulk_da_proofs ← or_timed_out answer
    da_publications ←
        build_da_publications_batch_result services.batch.unhandled
          (base64_string_to_json services.batch.decode_base64 services.batch.parse_publication)
          services.batch.save_tx_da_metadata_db bulk_da_proofs.success
    stream_all da_publications

  unfoldable pub in_surroundings : {A : Type 0} → Async S A → Async (IndexerState S) A
  in_surroundings m v = ((m v.world).0, record v { world = (m v.world).1 })

  unfoldable pub set_end_cursor : Option String → Async (IndexerState S) Unit
  set_end_cursor end_cursor v = pure tt (record v { end_cursor = end_cursor })

  unfoldable pub rest_a_while : Async S Unit
  rest_a_while s = pure tt (services.wait 100 s)

  unfoldable pub index_page : List TransactionNode → PageInfo → Async (IndexerState S) Unit
  unfolding in_surroundings rest_a_while index_submissions set_end_cursor
  index_page [] page_info = in_surroundings rest_a_while
  index_page (edge ∷ edges) page_info =
      in_surroundings (index_submissions (ids_of (edge ∷ edges)))
      >> set_end_cursor page_info.end_cursor

  unfoldable pub ask_for_page : Async (IndexerState S) TransactionsResponse
  unfolding in_surroundings
  ask_for_page v =
      in_surroundings
        (get_data_availability_transactions_api services.query services.environment
          services.deployment v.end_cursor ascending 1000)
        v

  -- The function that `startDATrustingIndexing` runs forever
  unfoldable pub indexing_round : Async (IndexerState S) Unit
  unfolding ask_for_page index_page
  indexing_round =
      try_catch
        (ask_for_page >>= λ transactions. index_page transactions.edges transactions.page_info)
        (λ _. in_surroundings rest_a_while)

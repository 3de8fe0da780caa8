-- ===== src/Watchers/Streaming.antt =====
-- The rounds of the trusting indexer against the log of all transactions: what its callback is given.
use Prim.Native.Nat.{min}
use mathlib.Core.List.{append-nil, append_assoc, map-append}
use momoka.Prelude.{
  ℕ, zero, suc, ◌+◌, ◌*◌, ◌≤◌, arith, String, Option, none, List, [], ◌∷◌, ◌++◌, map, All, subst,
  length, take, drop, drop-drop, length-take, length-append, take-then, resolved, all_of,
  all_of-cons, try_catch, ◌≡◌, ◌≢◌, refl, sym, ap, ◌∙◌,
}
use momoka.Common.{base64_string_to_json, run_rounds, sleep_after}
use momoka.Models.{DaStructurePublication}
use momoka.Submitters.{get_submitters}
use momoka.Requests.{
  BundlrBulkTxSuccess, TransactionNode, PageInfo, TransactionsQuery, data_or_throw,
  get_data_availability_transactions_api,
}
use momoka.Proofs.Checker.Interfaces.{TxValidatedResult, validated_success}
use momoka.Proofs.Gateways.{fire_and_forget}
use momoka.Proofs.Batch.{or_timed_out, build_da_publications_batch_result}
use momoka.Proofs.Batch.Bulk.{AnswersBulk, found_in, found_in-append, found_in-nil, found_in-All}
use momoka.Proofs.Batch.Whole.{Bundlr, published}
use momoka.Watchers.Pages.{ids_of}
use momoka.Watchers.Pages.Laws.{length-ids_of}
use momoka.Watchers.Pages.Log.{ServesLog}
use momoka.Watchers.Indexer.{
  IndexingServices, IndexerState, stream_all, index_submissions, in_surroundings, set_end_cursor,
  rest_a_while, index_page, ask_for_page, indexing_round,
}

abbrev given : Bundlr → BundlrBulkTxSuccess → TxValidatedResult
given bundlr tx = validated_success tx.id (bundlr.publication_in tx.content)

-- What the callback is given for some ids: a success for each transaction that Bundlr finds.
pub streamed_for : Bundlr → List String → List TxValidatedResult
streamed_for bundlr tx_ids = map (given bundlr) (found_in bundlr.find tx_ids)

streamed_for-append :
    (bundlr : Bundlr) (xs ys : List String)
    → streamed_for bundlr (xs ++ ys) ≡ streamed_for bundlr xs ++ streamed_for bundlr ys
unfolding streamed_for
streamed_for-append bundlr xs ys =
    ap (map (given bundlr)) (found_in-append bundlr.find xs ys)
    ∙ map-append _ (found_in bundlr.find xs) (found_in bundlr.find ys)

streamed_for-nil : (bundlr : Bundlr) → streamed_for bundlr [] ≡ []
unfolding streamed_for
streamed_for-nil bundlr = ap (map (given bundlr)) (found_in-nil bundlr.find)

module _ {S : Type 0} (services : IndexingServices S) (bundlr : Bundlr) (owners log : List String)
    (position : Option String → ℕ) (seen : S → List TxValidatedResult) where
  -- The content of a transaction is read as its publication.
  abbrev pub IsRead : BundlrBulkTxSuccess → Type 0
  IsRead tx =
      base64_string_to_json services.batch.decode_base64 services.batch.parse_publication tx.content
      ≡ resolved (bundlr.publication_in tx.content)

  -- What the indexer relies on: the transactions of its submitters are served as one log, and those of
  -- them that Bundlr holds are publications that can be read.
  pub record Sources : Type 0 where
    pub submitters : get_submitters services.environment services.deployment ≡ resolved owners
    pub pages : ServesLog log position services.query owners
    pub bulk : AnswersBulk services.batch.get_bundlr_bulk_txs_api bundlr.find
    pub publications : All IsRead (found_in bundlr.find log)

  -- The callback does not throw and adds what it is given to what was seen; nothing else changes that, and
  -- the writes that nobody awaits do not fail.
  pub record Records : Type 0 where
    pub streams :
        (result : TxValidatedResult) (s : S)
        → (t : S) × (services.stream result s ≡ (resolved tt, t)) × (seen t ≡ seen s ++ result ∷ [])
    pub unseen_query : (q : TransactionsQuery) (s : S) → seen (services.query q s).1 ≡ seen s
    pub unseen_bulk :
        (tx_ids : List String) (s : S)
        → seen (services.batch.get_bundlr_bulk_txs_api tx_ids s).1 ≡ seen s
    pub unseen_save :
        (tx_id : String) (publication : DaStructurePublication) (s : S)
        → (t : S) × (services.batch.save_tx_da_metadata_db tx_id publication s ≡ (resolved tt, t))
          × (seen t ≡ seen s)
    pub unseen_wait : (milliseconds : ℕ) (s : S) → seen (services.wait milliseconds s) ≡ seen s

  stream_all-seen :
      Records
      → (txs : List BundlrBulkTxSuccess) (s : S)
      → (t : S) × (stream_all services (map (published bundlr) txs) s ≡ (resolved tt, t))
        × (seen t ≡ seen s ++ map (given bundlr) txs)
  unfolding stream_all
  stream_all-seen records [] s = (s, refl, sym (append-nil (seen s)))
  stream_all-seen records (tx ∷ txs) s =
      let first = given bundlr tx in
      let rest = map (given bundlr) txs in
      let (t, run, added) = records.streams first s in
      let (u, runs, more) = stream_all-seen records txs t in
      (u, rw run runs, more ∙ ap (λ l. l ++ rest) added ∙ append_assoc (seen s) (first ∷ []) rest)

  publications-unseen :
      Records
      → (txs : List BundlrBulkTxSuccess) → All IsRead txs
      → (s : S)
      → (t : S) × (build_da_publications_batch_result services.batch.unhandled
            (base64_string_to_json services.batch.decode_base64 services.batch.parse_publication)
            services.batch.save_tx_da_metadata_db
            txs
            s
          ≡ (resolved (map (published bundlr) txs), t))
        × (seen t ≡ seen s)
  unfolding build_da_publications_batch_result all_of fire_and_forget
  publications-unseen records [] reads s = (s, refl, refl)
  publications-unseen records (tx ∷ txs) reads s =
      let (saved, wrote, kept) = records.unseen_save tx.id (bundlr.publication_in tx.content) s in
      let (t, e, unseen) = publications-unseen records txs reads.1 saved in
      (t, all_of-cons _ tx txs (rw reads.0 (rw wrote refl)) e, unseen ∙ kept)

  index_submissions-streamed :
      Sources
      → Records
      → (tx_ids : List String) → All IsRead (found_in bundlr.find tx_ids)
      → (s : S) → length tx_ids ≤ 1000
      → (t : S) × (index_submissions services tx_ids s ≡ (resolved tt, t))
        × (seen t ≡ seen s ++ streamed_for bundlr tx_ids)
  unfolding index_submissions or_timed_out streamed_for
  index_submissions-streamed sources records tx_ids reads s short =
      let (response, t, answered, found) = sources.bulk.answer tx_ids short s in
      let (u, built, unseen) =
        publications-unseen records response.success (subst (All IsRead) (sym found) reads) t in
      let (w, run, added) = stream_all-seen records response.success u in
      (
        w,
        rw answered (rw built run),
        added
            ∙ ap (λ l. l ++ map (given bundlr) response.success)
                (unseen ∙ ap (λ x. seen x.1) (sym answered) ∙ records.unseen_bulk tx_ids s)
            ∙ ap (λ txs. seen s ++ map (given bundlr) txs) found,
      )

  -- A page that follows the cursor: its publications are streamed, and the cursor moves behind it.
  index_page-streamed :
      Sources
      → Records
      → (edges : List TransactionNode) (info : PageInfo) (v : IndexerState S)
      → ids_of edges ≡ take 1000 (drop (position v.end_cursor) log)
      → (edges ≢ [] → position info.end_cursor ≡ position v.end_cursor + length edges)
      → (v' : IndexerState S) × (index_page services edges info v ≡ (resolved tt, v'))
        × (position v'.end_cursor ≡ position v.end_cursor + length (ids_of edges))
        × (seen v'.world ≡ seen v.world ++ streamed_for bundlr (ids_of edges))
  unfolding index_page in_surroundings set_end_cursor rest_a_while
  index_page-streamed sources records [] info v ids reached = (
    record v { world = services.wait 100 v.world },
    refl,
    omega arith,
    records.unseen_wait 100 v.world
        ∙ sym (append-nil (seen v.world))
        ∙ ap (λ l. seen v.world ++ l) (sym (streamed_for-nil bundlr)),
  )
  index_page-streamed sources records (edge ∷ edges) info v ids reached =
      let size : length (ids_of (edge ∷ edges))
          ≡ min 1000 (length (drop (position v.end_cursor) log)) =
        ap length ids ∙ length-take 1000 (drop (position v.end_cursor) log) in
      let (t, run, added) =
        index_submissions-streamed sources records (ids_of (edge ∷ edges))
          (subst (λ l. All IsRead (found_in bundlr.find l)) (sym ids)
            (found_in-All IsRead bundlr.find 1000 (position v.end_cursor) log sources.publications))
          v.world (omega (arith, size)) in
      let some_edges : (edge ∷ edges) ≢ [] = λ h. cc in
      (
        record { world = t; end_cursor = info.end_cursor },
        rw run refl,
        reached some_edges
            ∙ ap (λ n. position v.end_cursor + n) (sym (length-ids_of (edge ∷ edges))),
        added,
      )

  indexing_round-streamed :
      Sources
      → Records
      → (v : IndexerState S)
      → (v' : IndexerState S) × (indexing_round services v ≡ (resolved tt, v'))
        × (position v'.end_cursor
            ≡ position v.end_cursor + length (take 1000 (drop (position v.end_cursor) log)))
        × (seen v'.world
            ≡ seen v.world ++ streamed_for bundlr (take 1000 (drop (position v.end_cursor) log)))
  unfolding indexing_round ask_for_page in_surroundings try_catch data_or_throw
      get_data_availability_transactions_api
  indexing_round-streamed sources records v =
      let (response, t, answered, page) = sources.pages.page v.end_cursor v.world in
      let (v', run, moved, added) =
        index_page-streamed sources records response.edges response.page_info
          (record v { world = t }) page.ids page.reached in
      (
        v',
        rw (sources.submitters, answered) (rw run refl),
        moved ∙ ap (λ l. position v.end_cursor + length l) page.ids,
        added
            ∙ ap (λ l. l ++ streamed_for bundlr (ids_of response.edges))
                (ap (λ x. seen x.1) (sym answered) ∙ records.unseen_query _ v.world)
            ∙ ap (λ l. seen v.world ++ streamed_for bundlr l) page.ids,
      )

  -- If Bundlr serves its log, those transactions of it that Bundlr holds are publications that can be
  -- read, the callback does not throw and no write that nobody awaits fails, n rounds of the indexer end
  -- from every state without an error. The callback was then given, in the order of the log, each
  -- transaction among the next n · 1000 that Bundlr finds, none left out or twice, and the cursor stands
  -- behind the last of them.
  pub indexing_rounds-streamed :
      Sources
      → Records
      → (wait : ℕ → IndexerState S → IndexerState S) (n : ℕ) (v : IndexerState S)
      → (v' : IndexerState S) × (run_rounds wait n (indexing_round services) none v
          ≡ (resolved tt, v'))
        × (position v'.end_cursor
            ≡ position v.end_cursor + length (take (n * 1000) (drop (position v.end_cursor) log)))
        × (seen v'.world
            ≡ seen v.world
              ++ streamed_for bundlr (take (n * 1000) (drop (position v.end_cursor) log)))
  unfolding run_rounds sleep_after
  indexing_rounds-streamed sources records wait zero v = (
    v,
    refl,
    omega arith,
    sym (append-nil (seen v.world)) ∙ ap (λ l. seen v.world ++ l) (sym (streamed_for-nil bundlr)),
  )
  indexing_rounds-streamed sources records wait (suc n) v =
      let rest = drop (position v.end_cursor) log in
      let (v', run, moved, added) = indexing_round-streamed sources records v in
      let (v'', runs, reached, more) = indexing_rounds-streamed sources records wait n v' in
      let next = take (n * 1000) (drop (position v'.end_cursor) log) in
      let behind : drop (position v'.end_cursor) log ≡ drop (length (take 1000 rest)) rest = sym (
        drop-drop (position v'.end_cursor) (position v.end_cursor) (length (take 1000 rest)) log
          moved) in
      let whole : take 1000 rest ++ next ≡ take (suc n * 1000) rest =
        ap (λ l. take 1000 rest ++ take (n * 1000) l) behind
        ∙ take-then (suc n * 1000) 1000 (n * 1000) rest (omega arith) in
      let total = ap length (sym whole) ∙ length-append (take 1000 rest) next in
      (
        v'',
        rw run runs,
        omega (arith, total, moved, reached),
        more
            ∙ ap (λ l. l ++ streamed_for bundlr next) added
            ∙ append_assoc (seen v.world) (streamed_for bundlr (take 1000 rest))
                (streamed_for bundlr next)
            ∙ ap (λ l. seen v.world ++ l)
                (sym (streamed_for-append bundlr (take 1000 rest) next)
                  ∙ ap (streamed_for bundlr) whole),
      )

-- ===== src/Watchers/Pages/Log.antt =====
-- A pull of pages against the log of all transactions that Bundlr serves.
use mathlib.Core.List.{append-nil, append_assoc}
use momoka.Prelude.{
  ℕ, zero, suc, ◌+◌, ◌-◌, ◌*◌, ◌<◌, arith, String, true, Option, some, List, [], ◌∷◌, ◌++◌, length,
  length-append, take, drop, drop-drop, take-nil, take-then, take-eq-nil, resolved, Async, pure,
  ◌>>=◌, ◌≡◌, ◌≢◌, refl, sym, ap, ◌∙◌,
}
use momoka.Common.{Environment, Deployment}
use momoka.Submitters.{get_submitters}
use momoka.Requests.{
  TransactionNode, PageInfo, TransactionsResponse, TransactionsQuery, ascending, data_or_throw,
  get_data_availability_transactions_api,
}
use momoka.Watchers.Pages.{
  BulkDataAvailabilityTransactionsResponse, is_cursor, ids_of, while_next, page_pulled, get_page,
  pull_pages, get_bulk_data_availability_transactions,
}
use momoka.Watchers.Pages.Laws.{length-ids_of}

module _ (log : List String) (position : Option String → ℕ) where
  -- The next `k` transactions of the log are added, and the cursor stands behind them.
  pub record Collected (k : ℕ) (before after : BulkDataAvailabilityTransactionsResponse)
      : Type 0 where
    pub added : after.tx_ids ≡ before.tx_ids ++ take k (drop (position before.next) log)
    pub moved :
        position after.next
        ≡ position before.next + length (take k (drop (position before.next) log))

  -- The response is the page behind the cursor: it has the next 1000 transactions of the log, and
  -- unless it is empty the cursor of the last of them.
  pub record IsPage (after : Option String) (response : TransactionsResponse) : Type 0 where
    pub ids : ids_of response.edges ≡ take 1000 (drop (position after) log)
    pub cursor : response.edges ≢ [] → is_cursor response.page_info.end_cursor ≡ true
    pub reached :
        response.edges ≢ []
        → position response.page_info.end_cursor ≡ position after + length response.edges

  -- Bundlr serves the transactions of the owners as one log, whatever the state is.
  pub record ServesLog {S : Type 0}
      (query : TransactionsQuery → Async S (Option TransactionsResponse)) (owners : List String)
      : Type 0 where
    pub page :
        (after : Option String) (s : S)
        → (response : TransactionsResponse) × (t : S) × (query
              (record { owners = owners; after = after; order = ascending; limit = 1000 })
              s
            ≡ (resolved (some response), t))
          × IsPage after response

  Collected-zero : (result : BulkDataAvailabilityTransactionsResponse) → Collected 0 result result
  Collected-zero result = record { added = sym (append-nil result.tx_ids); moved = omega arith }

  Collected-empty :
      (k m : ℕ) (result : BulkDataAvailabilityTransactionsResponse)
      → 0 < m
      → take m (drop (position result.next) log) ≡ []
      → Collected k result result
  Collected-empty k m result p h =
      let rest = take-eq-nil m (drop (position result.next) log) p h in
      let same : take k (drop (position result.next) log) ≡ [] =
        ap (λ l. take k l) rest ∙ take-nil k in
      record { added = rw same (sym (append-nil result.tx_ids)); moved = rw same (omega arith) }

  -- A page, and what is collected behind it.
  Collected-then :
      (k m : ℕ) (result r0 r : BulkDataAvailabilityTransactionsResponse) (page : List String)
      → k ≡ 1000 + m
      → page ≡ take 1000 (drop (position result.next) log)
      → r0.tx_ids ≡ result.tx_ids ++ page
      → position r0.next ≡ position result.next + length page
      → Collected m r0 r
      → Collected k result r
  Collected-then k m result r0 r page e p ids moved c =
      let start = position result.next in
      let rest = drop start log in
      let behind : drop (position r0.next) log ≡ drop (length (take 1000 rest)) rest = sym (
        drop-drop (position r0.next) start (length (take 1000 rest)) log
          (moved ∙ ap (λ l. start + length l) p)) in
      let whole : page ++ take m (drop (position r0.next) log) ≡ take k rest =
        ap (λ l. l ++ take m (drop (position r0.next) log)) p
        ∙ ap (λ l. take 1000 rest ++ take m l) behind
        ∙ take-then k 1000 m rest e in
      record {
        added =
            c.added
            ∙ ap (λ l. l ++ take m (drop (position r0.next) log)) ids
            ∙ append_assoc result.tx_ids page (take m (drop (position r0.next) log))
            ∙ ap (λ l. result.tx_ids ++ l) whole;
        moved =
            let total =
              ap length (sym whole) ∙ length-append page (take m (drop (position r0.next) log)) in
            omega (arith, total, moved, c.moved);
      }

module _ {S : Type 0} (query : TransactionsQuery → Async S (Option TransactionsResponse))
    (environment : Environment) (deployment : Option Deployment) (owners : List String)
    (log : List String) (position : Option String → ℕ) where
  -- A step of the loop collects the next `k` transactions.
  abbrev Collects :
      (BulkDataAvailabilityTransactionsResponse → Async S BulkDataAvailabilityTransactionsResponse)
      → ℕ
      → Type 0
  Collects step k =
      (result : BulkDataAvailabilityTransactionsResponse) (s : S)
      → (r : BulkDataAvailabilityTransactionsResponse) × (t : S) × (step result s ≡ (resolved r, t))
        × Collected log position k result r

  page_pulled-Collected :
      (k m : ℕ)
      (more : BulkDataAvailabilityTransactionsResponse
        → Async S BulkDataAvailabilityTransactionsResponse)
      → k ≡ 1000 + m
      → Collects more m
      → (result : BulkDataAvailabilityTransactionsResponse) (edges : List TransactionNode)
        (info : PageInfo) (s : S)
      → ids_of edges ≡ take 1000 (drop (position result.next) log)
      → (edges ≢ [] → is_cursor info.end_cursor ≡ true)
      → (edges ≢ [] → position info.end_cursor ≡ position result.next + length edges)
      → (r : BulkDataAvailabilityTransactionsResponse) × (t : S) × (page_pulled more result edges
            info s
          ≡ (resolved r, t))
        × Collected log position k result r
  unfolding page_pulled while_next
  page_pulled-Collected k m more e collects result [] info s ids cursor reached =
      (result, s, refl, Collected-empty log position k 1000 result (omega arith) (sym ids))
  page_pulled-Collected k m more e collects result (edge ∷ edges) info s ids cursor reached =
      let r0 : BulkDataAvailabilityTransactionsResponse = record {
        next = info.end_cursor;
        tx_ids = result.tx_ids ++ ids_of (edge ∷ edges);
      } in
      let some_edges : (edge ∷ edges) ≢ [] = λ h. cc in
      let (r, t, run, c) = collects r0 s in
      (
        r,
        t,
        rw (cursor some_edges) run,
        Collected-then log position k m result r0 r (ids_of (edge ∷ edges)) e ids refl
            (reached some_edges
              ∙ ap (λ n. position result.next + n) (sym (length-ids_of (edge ∷ edges))))
            c,
      )

  -- One round of the loop, if the rest of it collects the next `m`.
  page-Collected :
      (k m : ℕ)
      (more : BulkDataAvailabilityTransactionsResponse
        → Async S BulkDataAvailabilityTransactionsResponse)
      → ServesLog log position query owners
      → get_submitters environment deployment ≡ resolved owners
      → k ≡ 1000 + m
      → Collects more m
      → Collects
          (λ result. get_page query environment deployment result.next >>= λ response.
            page_pulled more result response.edges response.page_info)
          k
  unfolding get_page get_data_availability_transactions_api data_or_throw
  page-Collected k m more serves submitters e collects result s =
      let (response, t, answered, is_page) = serves.page result.next s in
      let (r, u, run, c) =
        page_pulled-Collected k m more e collects result response.edges response.page_info t
          is_page.ids is_page.cursor is_page.reached in
      (r, u, rw (submitters, answered) run, c)

  pull_pages-Collected :
      (left k : ℕ)
      → ServesLog log position query owners
      → get_submitters environment deployment ≡ resolved owners
      → k ≡ 1000 + left * 1000
      → Collects (pull_pages query environment deployment left) k
  unfolding pull_pages
  pull_pages-Collected zero k serves submitters e =
      page-Collected k 0 pure serves submitters (omega (arith, e))
        (λ result s. (result, s, refl, Collected-zero log position result))
  pull_pages-Collected (suc left) k serves submitters e =
      page-Collected k (1000 + left * 1000) (pull_pages query environment deployment left) serves
        submitters (omega (arith, e))
        (pull_pages-Collected left (1000 + left * 1000) serves submitters refl)

  -- A pull of `maxPulling` pages, if that is not 0, collects from every state the next
  -- `maxPulling` · 1000 transactions of the log behind its cursor, or those that there are, in order, none
  -- left out or twice; its new cursor stands behind the last of them.
  pub get_bulk_data_availability_transactions-log :
      ServesLog log position query owners
      → get_submitters environment deployment ≡ resolved owners
      → (end_cursor : Option String) (max_pulling : ℕ) (s : S) → 0 < max_pulling
      → (r : BulkDataAvailabilityTransactionsResponse) × (t : S)
        × (get_bulk_data_availability_transactions query environment deployment end_cursor
              max_pulling s
            ≡ (resolved r, t))
        × (r.tx_ids ≡ take (max_pulling * 1000) (drop (position end_cursor) log))
        × (position r.next ≡ position end_cursor + length r.tx_ids)
  unfolding get_bulk_data_availability_transactions
  get_bulk_data_availability_transactions-log serves submitters end_cursor max_pulling s p =
      let (r, t, run, c) =
        pull_pages-Collected (max_pulling - 1) (max_pulling * 1000) serves submitters
          (omega (arith, p)) (record { next = end_cursor; tx_ids = [] }) s in
      (r, t, run, c.added, c.moved ∙ ap (λ l. position end_cursor + length l) (sym c.added))

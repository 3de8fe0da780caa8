-- ===== src/Watchers/Pages/Laws.antt =====
-- What a pull of pages collects.
use momoka.Prelude.{
  ℕ, zero, suc, ◌+◌, ◌-◌, ◌*◌, ◌≤◌, arith, String, Bool, true, false, Option, none, some, List, [],
  ◌∷◌, ◌++◌, length, length-append, resolved, Async, pure, settle, >>=-eq-resolved, resolved_inj,
  ◌≡◌, refl, ap, subst,
}
use momoka.Common.{Environment, Deployment}
use momoka.Submitters.{get_submitters}
use momoka.Requests.{
  TransactionNode, PageInfo, TransactionsResponse, TransactionsQuery, ascending, data_or_throw,
  get_data_availability_transactions_api,
}
use momoka.Watchers.Pages.{
  BulkDataAvailabilityTransactionsResponse, is_cursor, ids_of, while_next, page_pulled, get_page,
  pull_pages, get_bulk_data_availability_transactions,
}

pub length-ids_of : (edges : List TransactionNode) → length (ids_of edges) ≡ length edges
length-ids_of [] = refl
length-ids_of (edge ∷ edges) = ap suc (length-ids_of edges)

module _ {S : Type 0} where
  pub data_or_throw-eq-resolved :
      (answer : Option TransactionsResponse) (response : TransactionsResponse) (s t : S)
      → data_or_throw answer s ≡ (resolved response, t)
      → answer ≡ some response
  unfolding data_or_throw
  data_or_throw-eq-resolved none response s t h = cc
  data_or_throw-eq-resolved (some found) response s t h = ap some (resolved_inj h)

  while_next-bound :
      (n : ℕ)
      (more : BulkDataAvailabilityTransactionsResponse
        → Async S BulkDataAvailabilityTransactionsResponse)
      (result r : BulkDataAvailabilityTransactionsResponse) (b : Bool) (s t : S)
      → ((r0 : BulkDataAvailabilityTransactionsResponse)
          → more r0 s ≡ (resolved r, t)
          → length r.tx_ids ≤ length r0.tx_ids + n)
      → while_next more result b s ≡ (resolved r, t)
      → length r.tx_ids ≤ length result.tx_ids + n
  unfolding while_next
  while_next-bound n more result r true s t bound h = bound result h
  while_next-bound n more result r false s t bound h =
      let same : length result.tx_ids ≡ length r.tx_ids =
        ap (λ x. length x.tx_ids) (resolved_inj h) in
      omega (arith, same)

  page_pulled-bound :
      (n : ℕ)
      (more : BulkDataAvailabilityTransactionsResponse
        → Async S BulkDataAvailabilityTransactionsResponse)
      (result r : BulkDataAvailabilityTransactionsResponse) (edges : List TransactionNode)
      (info : PageInfo) (s t : S)
      → length edges ≤ 1000
      → ((r0 : BulkDataAvailabilityTransactionsResponse)
          → more r0 s ≡ (resolved r, t)
          → length r.tx_ids ≤ length r0.tx_ids + n)
      → page_pulled more result edges info s ≡ (resolved r, t)
      → length r.tx_ids ≤ length result.tx_ids + 1000 + n
  unfolding page_pulled
  page_pulled-bound n more result r [] info s t short bound h =
      let same : length result.tx_ids ≡ length r.tx_ids =
        ap (λ x. length x.tx_ids) (resolved_inj h) in
      omega (arith, same)
  page_pulled-bound n more result r (edge ∷ edges) info s t short bound h =
      let next =
        while_next-bound n more
          (record { next = info.end_cursor; tx_ids = result.tx_ids ++ ids_of (edge ∷ edges) }) r
          (is_cursor info.end_cursor) s t bound h in
      omega (
        arith,
        next,
        short,
        length-append result.tx_ids (ids_of (edge ∷ edges)),
        length-ids_of (edge ∷ edges),
      )

module _ {S : Type 0} (query : TransactionsQuery → Async S (Option TransactionsResponse)) where
  -- Bundlr answers no more transactions than it was asked for.
  pub record WithinLimit : Type 0 where
    pub within :
        (q : TransactionsQuery) (s t : S) (response : TransactionsResponse)
        → query q s ≡ (resolved (some response), t)
        → length response.edges ≤ q.limit

module _ {S : Type 0} (query : TransactionsQuery → Async S (Option TransactionsResponse))
    (environment : Environment) (deployment : Option Deployment) where
  get_page-short :
      WithinLimit query
      → (cursor : Option String) (s t : S) (response : TransactionsResponse)
      → get_page query environment deployment cursor s ≡ (resolved response, t)
      → length response.edges ≤ 1000
  unfolding get_page get_data_availability_transactions_api
  get_page-short limit cursor s t response h =
      let (owners, s0, e0, k0) =
        >>=-eq-resolved (settle (get_submitters environment deployment)) _ h in
      let q : TransactionsQuery = record {
        owners = owners;
        after = cursor;
        order = ascending;
        limit = 1000;
      } in
      let (result, s1, e1, k1) = >>=-eq-resolved (query q) _ k0 in
      let same = data_or_throw-eq-resolved result response s1 t k1 in
      limit.within q s0 s1 response (subst (λ o. query q s0 ≡ (resolved o, s1)) same e1)

  pull_pages-bound :
      WithinLimit query
      → (left : ℕ) (result r : BulkDataAvailabilityTransactionsResponse) (s t : S)
      → pull_pages query environment deployment left result s ≡ (resolved r, t)
      → length r.tx_ids ≤ length result.tx_ids + 1000 + left * 1000
  unfolding pull_pages
  pull_pages-bound limit zero result r s t h =
      let (response, s0, e0, k0) =
        >>=-eq-resolved (get_page query environment deployment result.next) _ h in
      page_pulled-bound 0 pure result r response.edges response.page_info s0 t
        (get_page-short limit result.next s s0 response e0)
        (λ r0 k.
          let same : length r0.tx_ids ≡ length r.tx_ids =
            ap (λ x. length x.tx_ids) (resolved_inj k) in
          omega (arith, same))
        k0
  pull_pages-bound limit (suc left) result r s t h =
      let (response, s0, e0, k0) =
        >>=-eq-resolved (get_page query environment deployment result.next) _ h in
      let bound =
        page_pulled-bound (1000 + left * 1000) (pull_pages query environment deployment left) result
          r response.edges response.page_info s0 t
          (get_page-short limit result.next s s0 response e0)
          (λ r0 k. let b = pull_pages-bound limit left r0 r s0 t k in omega (arith, b)) k0 in
      omega (arith, bound)

  -- A pull collects at most 1000 transactions for each of its pages, of which there are at most
  -- `maxPulling`, and one if that is 0.
  pub get_bulk_data_availability_transactions-bound :
      WithinLimit query
      → (end_cursor : Option String) (max_pulling : ℕ)
        (r : BulkDataAvailabilityTransactionsResponse) (s t : S)
      → get_bulk_data_availability_transactions query environment deployment end_cursor max_pulling
          s
        ≡ (resolved r, t)
      → length r.tx_ids ≤ 1000 + (max_pulling - 1) * 1000
  unfolding get_bulk_data_availability_transactions
  get_bulk_data_availability_transactions-bound limit end_cursor max_pulling r s t h =
      let bound =
        pull_pages-bound limit (max_pulling - 1) (record { next = end_cursor; tx_ids = [] }) r s t
          h in
      omega (arith, bound)

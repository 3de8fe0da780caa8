-- ===== src/Watchers/Pages.antt =====
-- `getBulkDataAvailabilityTransactions` of watchers/verifier.watcher.ts.
pub mod Laws
pub mod Log
use momoka.Prelude.{
  ℕ, zero, suc, ◌-◌, String, ◌==◌, eq_string, Bool, true, false, Option, none, some, List, [], ◌∷◌,
  ◌++◌, map, Async, pure, ◌>>=◌,
}
use momoka.Common.{Environment, Deployment}
use momoka.Requests.{
  TransactionNode, PageInfo, TransactionsResponse, TransactionsQuery, ascending,
  get_data_availability_transactions_api,
}

pub record BulkDataAvailabilityTransactionsResponse : Type 0 where
  pub next : Option String
  pub tx_ids : List String

-- `result.next` in a condition
unfoldable pub is_cursor : Option String → Bool
is_cursor none = false
is_cursor (some cursor) = elim (cursor == "") [ true ↦ false | false ↦ true ]

-- `response.edges.map((edge) => edge.node.id)`
abbrev pub ids_of : List TransactionNode → List String
ids_of edges = map (λ edge. edge.id) edges

module _ {S : Type 0} where
  -- The condition of the loop; `more` is what follows if pages may still follow.
  unfoldable pub while_next :
      (BulkDataAvailabilityTransactionsResponse → Async S BulkDataAvailabilityTransactionsResponse)
      → BulkDataAvailabilityTransactionsResponse
      → Bool
      → Async S BulkDataAvailabilityTransactionsResponse
  while_next more result true = more result
  while_next more result false = pure result

  -- The body of the loop behind its request: an empty page ends the loop.
  unfoldable pub page_pulled :
      (BulkDataAvailabilityTransactionsResponse → Async S BulkDataAvailabilityTransactionsResponse)
      → BulkDataAvailabilityTransactionsResponse
      → List TransactionNode
      → PageInfo
      → Async S BulkDataAvailabilityTransactionsResponse
  unfolding while_next
  page_pulled more result [] page_info = pure result
  page_pulled more result (edge ∷ edges) page_info =
      while_next more
        (record { next = page_info.end_cursor; tx_ids = result.tx_ids ++ ids_of (edge ∷ edges) })
        (is_cursor page_info.end_cursor)

  module _ (query : TransactionsQuery → Async S (Option TransactionsResponse))
      (environment : Environment) (deployment : Option Deployment) where
    unfoldable pub get_page : Option String → Async S TransactionsResponse
    get_page cursor =
        get_data_availability_transactions_api query environment deployment cursor ascending 1000

    -- The loop, of which `left` more rounds may follow the next one.
    unfoldable pub pull_pages :
        ℕ
        → BulkDataAvailabilityTransactionsResponse
        → Async S BulkDataAvailabilityTransactionsResponse
    unfolding page_pulled get_page
    pull_pages zero result = get_page result.next >>= λ response.
        page_pulled pure result response.edges response.page_info
    pull_pages (suc left) result = get_page result.next >>= λ response.
        page_pulled (pull_pages left) result response.edges response.page_info

    -- `do … while (result.next && pullingCounter < maxPulling)`
    unfoldable pub get_bulk_data_availability_transactions :
        Option String → ℕ → Async S BulkDataAvailabilityTransactionsResponse
    unfolding pull_pages
    get_bulk_data_availability_transactions end_cursor max_pulling =
        pull_pages (max_pulling - 1) (record { next = end_cursor; tx_ids = [] })

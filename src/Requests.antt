-- ===== src/Requests.antt =====
-- momoka-node/src/input-output: the requests to Bundlr, Arweave and an Ethereum node, and their timeouts.
-- axios is not part of the program: its functions are parameters. What a response is cast to is the
-- type of the parameter's answer, in which null and undefined are `none`.
pub mod Laws
use momoka.Prelude.{
  Bool, true, false, ℕ, ◌<>◌, ltb, String, ◌==◌, eq_string, Option, none, some, List, Settled,
  Async, pure, throw, settle, try_catch, ◌>>=◌, if◌then◌else◌, nat_eq, to_decimal, pos,
}
use momoka.Common.{Environment, Deployment, RetryWithTimeoutOptions, retry_with_timeout}
use momoka.Submitters.{get_submitters}
use momoka.Proofs.Checker.Interfaces.{Fetched, timeout_error, fetched}

unfoldable pub bundlr_node : String
bundlr_node = "https://lens.bundlr.network/"

unfoldable pub bundlr_node_tx : String
unfolding bundlr_node
bundlr_node_tx = bundlr_node <> "tx/"

unfoldable pub bundlr_gateway : String
bundlr_gateway = "https://lens-gateway.bundlr.network/"

unfoldable pub bundlr_gateway_tx : String
unfolding bundlr_gateway
bundlr_gateway_tx = bundlr_gateway <> "tx/"

-- `FetchProvider`, for one type of response
pub record FetchProvider (S T : Type 0) : Type 0 where
  -- the URL and the timeout in milliseconds
  pub get : String → ℕ → Async S (Option T)

-- What axios answers to a POST, for one type of response; `body` is its `data`.
pub record AxiosResponse (T : Type 0) : Type 0 where
  pub status : ℕ
  pub body : T

pub record BundlrTx : Type 0 where
  -- undefined where the response has no address
  pub address : Option String

-- `content` is its `data`, in base64.
pub record BundlrBulkTxSuccess : Type 0 where
  pub id : String
  pub address : String
  pub content : String

pub record BundlrBulkTxsResponse : Type 0 where
  pub success : List BundlrBulkTxSuccess
  pub failed : List (String × String)

pub record TransactionNode : Type 0 where
  pub id : String
  pub address : String

pub record PageInfo : Type 0 where
  pub has_next_page : Bool
  pub end_cursor : Option String

pub record TransactionsResponse : Type 0 where
  pub edges : List TransactionNode
  pub page_info : PageInfo

pub data TransactionsOrder : Type 0 where
  ascending descending : TransactionsOrder

-- The variables of the GraphQL query for transactions.
pub record TransactionsQuery : Type 0 where
  pub owners : List String
  pub after : Option String
  pub order : TransactionsOrder
  pub limit : ℕ

-- `{ maxRetries: 3, delayMs: 200 }`
abbrev pub bundlr_retries : RetryWithTimeoutOptions
bundlr_retries = record { delay_ms = some 200; max_retries = some 3 }

abbrev address_of : Option BundlrTx → Option String
address_of none = none
address_of (some tx) = tx.address

module _ {S : Type 0} where
  unfoldable pub fetch_with_timeout : {T : Type 0} → FetchProvider S T → String → Async S (Option T)
  fetch_with_timeout provider url = provider.get url 5000

  -- `if (status !== 200) throw …`; the text of the response is left out of the message.
  unfoldable pub check_status : {T : Type 0} → AxiosResponse T → Bool → Async S T
  check_status response true = pure response.body
  check_status response false =
      throw ("postWithTimeout: " <> to_decimal (pos response.status) <> " - ")

  unfoldable pub post_with_timeout :
      {T B : Type 0} → (String → B → ℕ → Async S (AxiosResponse T)) → String → B → Async S T
  unfolding check_status
  post_with_timeout post url body = do
    response ← post url body 5000
    check_status response (nat_eq response.status 200)

  -- `try { return await … } catch (error) { return TIMEOUT_ERROR; }`
  unfoldable pub or_timeout_error : {T : Type 0} → Async S T → Async S (Fetched T)
  or_timeout_error request =
      try_catch (request >>= λ response. pure (fetched response)) (λ _. pure timeout_error)

  module _ (wait : ℕ → S → S) where
    unfoldable pub get_bundlr_by_id_api :
        {T : Type 0} → FetchProvider S T → String → Async S (Fetched (Option T))
    unfolding fetch_with_timeout or_timeout_error
    get_bundlr_by_id_api provider tx_id =
        retry_with_timeout wait
          (or_timeout_error (fetch_with_timeout provider (bundlr_gateway_tx <> tx_id <> "/data")))
          bundlr_retries

    unfoldable pub get_bundlr_bulk_txs_api :
        (String → List String → ℕ → Async S (AxiosResponse BundlrBulkTxsResponse))
        → List String
        → Async S (Fetched BundlrBulkTxsResponse)
    unfolding post_with_timeout or_timeout_error
    get_bundlr_bulk_txs_api post tx_ids =
        retry_with_timeout wait
          (or_timeout_error (post_with_timeout post (bundlr_node <> "bulk/txs/data") tx_ids))
          bundlr_retries

    unfoldable pub get_owner_of_transaction_api :
        FetchProvider S BundlrTx → String → Async S (Option String)
    unfolding fetch_with_timeout
    get_owner_of_transaction_api provider tx_id =
        retry_with_timeout wait
          (fetch_with_timeout provider (bundlr_node_tx <> tx_id) >>= λ result.
            pure (address_of result))
          (record { delay_ms = none; max_retries = none })

  unfoldable pub get_arweave_by_id_api :
      {T : Type 0} → FetchProvider S T → String → Async S (Option T)
  unfolding fetch_with_timeout
  get_arweave_by_id_api provider tx_id =
      fetch_with_timeout provider ("https://arweave.net/" <> tx_id)

  -- `if (!result.data) throw …`
  unfoldable pub data_or_throw : Option TransactionsResponse → Async S TransactionsResponse
  data_or_throw none =
      throw
        "No data returned from Bundlr GraphQL API - normally due to a network drop, will auto retry and 99.9% sort itself out when network is stable again."
  data_or_throw (some transactions) = pure transactions

  -- `query` is the urql client's, with `result.data.transactions` for its answer.
  unfoldable pub get_data_availability_transactions_api :
      (TransactionsQuery → Async S (Option TransactionsResponse))
      → Environment
      → Option Deployment
      → Option String
      → TransactionsOrder
      → ℕ
      → Async S TransactionsResponse
  unfolding data_or_throw
  get_data_availability_transactions_api query environment deployment cursor order limit = do
    owners ← settle (get_submitters environment deployment)
    result ← query (record {
      owners = owners;
      after = cursor;
      order = order;
      limit = if ltb 1000 limit then 1000 else limit;
    })
    data_or_throw result

-- ===== src/Requests/Laws.antt =====
-- What the requests to Bundlr leave of their retries.
use momoka.Prelude.{
  ℕ, ◌≡◌, refl, arith, sym, ◌∙◌, ◌<>◌, String, List, Settled, resolved, rejected, Async, try_catch,
}
use momoka.Common.{retry_with_timeout, RetryWithTimeoutOptions}
use momoka.Common.Retry.{retry_with_timeout-resolved, no_rejection}
use momoka.Proofs.Checker.Interfaces.{Fetched, timeout_error, fetched}
use momoka.Requests.{
  or_timeout_error, get_bundlr_bulk_txs_api, post_with_timeout, bundlr_node, bundlr_retries,
  get_bundlr_by_id_api, fetch_with_timeout, FetchProvider, bundlr_gateway_tx, BundlrBulkTxsResponse,
  AxiosResponse,
}

module _ {S A : Type 0} where
  or_timeout_error-resolves :
      (m : Async S A) (s : S) → (a : Fetched A) × (t : S) × (or_timeout_error m s ≡ (resolved a, t))
  unfolding or_timeout_error try_catch
  or_timeout_error-resolves m s = settled (m s)
    where
      settled :
          (r : Settled A × S)
          → (a : Fetched A) × (t : S) × (or_timeout_error (λ _. r) s ≡ (resolved a, t))
      settled (resolved a, t) = (fetched a, t, refl)
      settled (rejected message, t) = (timeout_error, t, refl)

  -- A function that resolves is called once.
  pub retry-resolved :
      (wait : ℕ → S → S) (fn : Async S A) (options : RetryWithTimeoutOptions) (s t : S) (a : A)
      → fn s ≡ (resolved a, t)
      → retry_with_timeout wait fn options s ≡ (resolved a, t)
  retry-resolved wait fn options s t a h =
      retry_with_timeout-resolved wait fn options no_rejection (omega arith) h

module _ {S : Type 0} where
  retry-or_timeout_error :
      {A : Type 0} (wait : ℕ → S → S) (m : Async S A) (options : RetryWithTimeoutOptions) (s : S)
      → retry_with_timeout wait (or_timeout_error m) options s ≡ or_timeout_error m s
  retry-or_timeout_error wait m options s =
      let (a, t, e) = or_timeout_error-resolves m s in
      retry-resolved wait (or_timeout_error m) options s t a e ∙ sym e

  -- The requests for one transaction and for many are made once, whatever they answer: an error is
  -- the answer `TIMEOUT_ERROR` before `retryWithTimeout` could see it, so nothing is retried.
  pub get_bundlr_apis-one_request :
      {T : Type 0} (wait : ℕ → S → S) (provider : FetchProvider S T) (tx_id : String)
      (post : String → List String → ℕ → Async S (AxiosResponse BundlrBulkTxsResponse))
      (tx_ids : List String) (s : S)
      → (get_bundlr_by_id_api wait provider tx_id s
          ≡ or_timeout_error (provider.get (bundlr_gateway_tx <> tx_id <> "/data") 5000) s)
        × (get_bundlr_bulk_txs_api wait post tx_ids s
            ≡ or_timeout_error (post_with_timeout post (bundlr_node <> "bulk/txs/data") tx_ids) s)
  unfolding get_bundlr_by_id_api get_bundlr_bulk_txs_api fetch_with_timeout
  get_bundlr_apis-one_request wait provider tx_id post tx_ids s = (
    retry-or_timeout_error wait (provider.get (bundlr_gateway_tx <> tx_id <> "/data") 5000)
        bundlr_retries s,
    retry-or_timeout_error wait (post_with_timeout post (bundlr_node <> "bulk/txs/data") tx_ids)
        bundlr_retries s,
  )

-- ===== src/Proofs/Batch/Bulk.antt =====
-- The requests of a batch in chunks.
use mathlib.Core.List.{append-nil, append_assoc, flatten}
use momoka.Prelude.{
  ℕ, take, drop, take-append-drop, subst, ◌≤◌, arith, String, Option, none, some, List, [], ◌∷◌,
  ◌++◌, length, All, resolved, Async, all_of, all_of-cons, ◌≡◌, refl, sym, ap, ◌∙◌,
}
use momoka.Common.Chunks.{chunk_array-IsChunking}
use momoka.Requests.{BundlrBulkTxSuccess, BundlrBulkTxsResponse}
use momoka.Proofs.Checker.Interfaces.{Fetched, fetched}
use momoka.Proofs.Batch.{combine, spread, or_timed_out, get_chunk, get_chunks, get_bundlr_bulk_txs}

unfoldable keep_found :
    Option BundlrBulkTxSuccess → List BundlrBulkTxSuccess → List BundlrBulkTxSuccess
keep_found none found = found
keep_found (some tx) found = tx ∷ found

-- The transactions that are found, in the order of their ids.
unfoldable pub found_in :
    (String → Option BundlrBulkTxSuccess) → List String → List BundlrBulkTxSuccess
unfolding keep_found
found_in find [] = []
found_in find (tx_id ∷ tx_ids) = keep_found (find tx_id) (found_in find tx_ids)

keep_found-append :
    (o : Option BundlrBulkTxSuccess) (xs ys : List BundlrBulkTxSuccess)
    → keep_found o (xs ++ ys) ≡ keep_found o xs ++ ys
unfolding keep_found
keep_found-append none xs ys = refl
keep_found-append (some tx) xs ys = refl

pub found_in-append :
    (find : String → Option BundlrBulkTxSuccess) (xs ys : List String)
    → found_in find (xs ++ ys) ≡ found_in find xs ++ found_in find ys
unfolding found_in
found_in-append find [] ys = refl
found_in-append find (x ∷ xs) ys =
    ap (λ l. keep_found (find x) l) (found_in-append find xs ys)
    ∙ keep_found-append (find x) (found_in find xs) (found_in find ys)

pub found_in-some :
    (find : String → Option BundlrBulkTxSuccess) (tx_id : String) (tx_ids : List String)
    (tx : BundlrBulkTxSuccess)
    → find tx_id ≡ some tx
    → found_in find (tx_id ∷ tx_ids) ≡ tx ∷ found_in find tx_ids
unfolding found_in keep_found
found_in-some find tx_id tx_ids tx h = rw h refl

All-split :
    (P : BundlrBulkTxSuccess → Type 0) (xs ys : List BundlrBulkTxSuccess)
    → All P (xs ++ ys)
    → All P xs × All P ys
All-split P [] ys h = (tt, h)
All-split P (x ∷ xs) ys (p, h) = let (q, r) = All-split P xs ys h in ((p, q), r)

-- What holds of all that is found in a log holds of what is found in a part of it.
pub found_in-All :
    (P : BundlrBulkTxSuccess → Type 0) (find : String → Option BundlrBulkTxSuccess) (n m : ℕ)
    (log : List String)
    → All P (found_in find log)
    → All P (found_in find (take n (drop m log)))
found_in-All P find n m log h =
    let whole : found_in find (take m log) ++ found_in find (drop m log) ≡ found_in find log =
      sym (found_in-append find (take m log) (drop m log))
      ∙ ap (found_in find) (take-append-drop m log) in
    let behind =
      (All-split P (found_in find (take m log)) (found_in find (drop m log))
        (subst (All P) (sym whole) h)).1 in
    let part : found_in find (take n (drop m log)) ++ found_in find (drop n (drop m log))
        ≡ found_in find (drop m log) =
      sym (found_in-append find (take n (drop m log)) (drop n (drop m log)))
      ∙ ap (found_in find) (take-append-drop n (drop m log)) in
    (All-split P (found_in find (take n (drop m log))) (found_in find (drop n (drop m log)))
      (subst (All P) (sym part) behind)).0

-- A look-up in no ids finds nothing.
pub found_in-nil : (find : String → Option BundlrBulkTxSuccess) → found_in find [] ≡ []
unfolding found_in
found_in-nil find = refl

-- The transactions of several responses.
successes : List BundlrBulkTxsResponse → List BundlrBulkTxSuccess
successes [] = []
successes (response ∷ responses) = response.success ++ successes responses

success-combine :
    (acc : BundlrBulkTxsResponse) (responses : List BundlrBulkTxsResponse)
    → (combine acc responses).success ≡ acc.success ++ successes responses
unfolding combine successes
success-combine acc [] = sym (append-nil acc.success)
success-combine acc (current ∷ responses) =
    success-combine
      (record {
        success = acc.success ++ current.success;
        failed = spread acc.failed current.failed;
      })
      responses
    ∙ append_assoc acc.success current.success (successes responses)

module _ {S : Type 0} (request : List String → Async S (Fetched BundlrBulkTxsResponse))
    (find : String → Option BundlrBulkTxSuccess) where
  -- Bundlr answers for up to 1000 ids at a time, with the transactions it finds, in the ids' order.
  pub record AnswersBulk : Type 0 where
    pub answer :
        (tx_ids : List String)
        → length tx_ids ≤ 1000
        → (s : S)
        → (response : BundlrBulkTxsResponse) × (t : S) × (request tx_ids s
            ≡ (resolved (fetched response), t))
          × (response.success ≡ found_in find tx_ids)

  chunks-found :
      AnswersBulk
      → (chunks : List (List String)) → All (λ chunk. length chunk ≤ 1000) chunks
      → (s : S)
      → (responses : List BundlrBulkTxsResponse) × (t : S) × (all_of (get_chunk request) chunks s
          ≡ (resolved responses, t))
        × (successes responses ≡ found_in find (flatten chunks))
  unfolding all_of get_chunk or_timed_out successes found_in flatten
  chunks-found answers [] short s = ([], s, refl, refl)
  chunks-found answers (chunk ∷ chunks) short s =
      let (response, t, e, p) = answers.answer chunk short.0 s in
      let (responses, u, es, ps) = chunks-found answers chunks short.1 t in
      (
        response ∷ responses,
        u,
        all_of-cons (get_chunk request) chunk chunks (rw e refl) es,
        rw (p, ps) (sym (found_in-append find chunk (flatten chunks))),
      )

  -- If Bundlr answers for up to 1000 ids at a time, any number of ids is answered as if there were no
  -- such limit: with the transactions it finds, in the ids' order, from every state.
  pub get_bundlr_bulk_txs-found :
      AnswersBulk
      → (tx_ids : List String) (s : S)
      → (response : BundlrBulkTxsResponse) × (t : S) × (get_bundlr_bulk_txs request tx_ids s
          ≡ (resolved response, t))
        × (response.success ≡ found_in find tx_ids)
  unfolding get_bundlr_bulk_txs get_chunks
  get_bundlr_bulk_txs-found answers tx_ids s =
      let (chunks, e, c) = chunk_array-IsChunking tx_ids 1000 (omega arith) in
      let (responses, t, es, p) = chunks-found answers chunks c.short s in
      (
        combine (record { success = []; failed = [] }) responses,
        t,
        rw (e, es) refl,
        success-combine (record { success = []; failed = [] }) responses
            ∙ p
            ∙ ap (λ l. found_in find l) c.joined,
      )

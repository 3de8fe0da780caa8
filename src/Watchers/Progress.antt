-- ===== src/Watchers/Progress.antt =====
-- What a round of the verifier node does to its cursor.
use momoka.Prelude.{
  sym, ◌-◌, length, String, false, Option, List, [], ◌∷◌, resolved, Async, pure, try_catch, ◌>>=◌,
  settled-cases, inl, inr, ◌⊎◌, ◌≡◌, refl, ap, ◌∙◌,
}
use momoka.Queue.Known.{Shared, in_world, enqueue_retry_with_delay}
use momoka.Proofs.Batch.Publications.{ProofResult, check_da_proofs_batch}
use momoka.Proofs.Batch.Outcomes.{WritesResolve}
use momoka.Watchers.Pages.{
  BulkDataAvailabilityTransactionsResponse, get_bulk_data_availability_transactions,
}
use momoka.Watchers.Verifier.{
  NodeServices, VerifierState, Processed, retry_tx_ids, enqueue_retries, process_transactions,
  in_shared, advance, save_progress, wait_for_new_submissions, start_processing, pull,
  process_pulled, verifier_round,
}

-- What is awaited last leaves its state.
left_by : {S A : Type 0} (m : Async S A) (s : S) → ((m >>= λ _. pure tt) s).1 ≡ (m s).1
left_by m s = elim (settled-cases (m s)) [
  | inl (a, t, e) ↦ rw e refl
  | inr (message, t, e) ↦ rw e refl
]

module _ {S : Type 0} (services : NodeServices S) where
  enqueue_retries-resolves :
      (tx_ids : List String) (s : Shared S)
      → (t : Shared S) × (enqueue_retries services tx_ids s ≡ (resolved tt, t))
  unfolding enqueue_retries enqueue_retry_with_delay
  enqueue_retries-resolves [] s = (s, refl)
  enqueue_retries-resolves (tx_id ∷ tx_ids) s = (_, refl)

  -- What `processTransactions` returns when the batch has a result
  process_transactions-resolves :
      (next : Option String) (tx_ids : List String) (s t : Shared S) (results : List ProofResult)
      → check_da_proofs_batch services.batch tx_ids false false services.stream s
        ≡ (resolved results, t)
      → (p : Processed) × (u : Shared S) × (process_transactions services
            (record { next = next; tx_ids = tx_ids })
            false
            s
          ≡ (resolved p, u))
        × (p.end_cursor ≡ next)
  unfolding process_transactions
  process_transactions-resolves next tx_ids s t results h =
      let (u, e) = enqueue_retries-resolves (retry_tx_ids results) t in
      (
        record {
          total_checked = length results - length (retry_tx_ids results);
          end_cursor = next;
        },
        u,
        rw (h, e) refl,
        refl,
      )

  -- The cursor stays, or it moves to where a pull from it ended, after the ids of that pull were given
  -- to a batch that ended with a result.
  pub data Progress (v v' : VerifierState S) : Type 0 where
    stayed : v'.end_cursor ≡ v.end_cursor → Progress v v'
    advanced :
        {r : BulkDataAvailabilityTransactionsResponse} {w : S} {results : List ProofResult}
        {sh : Shared S}
        → get_bulk_data_availability_transactions services.query services.ethereum_node.environment
            services.ethereum_node.deployment v.end_cursor 10 v.shared.world
          ≡ (resolved r, w)
        → check_da_proofs_batch services.batch r.tx_ids false false services.stream
            (record v.shared { world = w })
          ≡ (resolved results, sh)
        → v'.end_cursor ≡ r.next
        → Progress v v'

  same_cursor :
      (v v' v'' : VerifierState S) → v''.end_cursor ≡ v'.end_cursor → Progress v v' → Progress v v''
  same_cursor v v' v'' e (stayed p) = stayed (e ∙ p)
  same_cursor v v' v'' e (advanced run checked p) = advanced run checked (e ∙ p)

  abbrev pub body : Async (VerifierState S) Unit
  body = pull services >>= λ transactions.
      process_pulled services transactions.next transactions.tx_ids

  -- When the batch has a result, the cursor is where the pull ended, whether or not it was saved.
  pub process_pulled-advances :
      (next : Option String) (tx_id : String) (tx_ids : List String) (v : VerifierState S)
      (results : List ProofResult) (sh : Shared S)
      → check_da_proofs_batch services.batch (tx_id ∷ tx_ids) false false services.stream v.shared
        ≡ (resolved results, sh)
      → (process_pulled services next (tx_id ∷ tx_ids) v).1.end_cursor ≡ next
  unfolding process_pulled start_processing in_shared advance save_progress
  process_pulled-advances next tx_id tx_ids v results sh e =
      let (p, u, run, same) =
        process_transactions-resolves next (tx_id ∷ tx_ids) v.shared sh results e in
      rw run (ap (λ x. x.end_cursor) (left_by (save_progress services) _) ∙ same)

  pub process_pulled-nothing :
      (next : Option String) (v : VerifierState S)
      → (process_pulled services next [] v).1.end_cursor ≡ v.end_cursor
  unfolding process_pulled wait_for_new_submissions
  process_pulled-nothing next v = refl

  process_pulled-cursor :
      (next : Option String) (tx_ids : List String) (v : VerifierState S)
      → ((process_pulled services next tx_ids v).1.end_cursor ≡ v.end_cursor)
        ⊎ ((results : List ProofResult) × (sh : Shared S) × (check_da_proofs_batch services.batch
                tx_ids false false services.stream v.shared
              ≡ (resolved results, sh))
            × ((process_pulled services next tx_ids v).1.end_cursor ≡ next))
  unfolding process_pulled wait_for_new_submissions start_processing in_shared process_transactions
      advance save_progress
  process_pulled-cursor next [] v = inl refl
  process_pulled-cursor next (tx_id ∷ tx_ids) v =
      elim (settled-cases (
        check_da_proofs_batch services.batch (tx_id ∷ tx_ids) false false services.stream
          v.shared)) [
            | inl (results, sh, e) ↦
                inr (results, sh, e, process_pulled-advances next tx_id tx_ids v results sh e)
            | inr (message, sh, e) ↦ inl (rw e refl)
          ]

  -- A round behind its pull
  pub body-pulled :
      (v : VerifierState S) (r : BulkDataAvailabilityTransactionsResponse) (w : S)
      → get_bulk_data_availability_transactions services.query services.ethereum_node.environment
          services.ethereum_node.deployment v.end_cursor 10 v.shared.world
        ≡ (resolved r, w)
      → (body v).1
        ≡ (process_pulled services r.next r.tx_ids
            (record v { shared = record v.shared { world = w } })).1
  unfolding pull in_shared in_world
  body-pulled v r w e = rw e refl

  body-Progress : (v : VerifierState S) → Progress v (body v).1
  unfolding pull in_shared in_world
  body-Progress v =
      elim (settled-cases (
        get_bulk_data_availability_transactions services.query services.ethereum_node.environment
          services.ethereum_node.deployment v.end_cursor 10 v.shared.world)) [
            | inl (r, w, e) ↦
                let after : VerifierState S = record v { shared = record v.shared { world = w } } in
                let run = body-pulled v r w e in
                elim (process_pulled-cursor r.next r.tx_ids after) [
                  | inl same ↦ stayed (ap (λ x. x.end_cursor) run ∙ same)
                  | inr (results, sh, checked, moved) ↦
                      advanced e checked (ap (λ x. x.end_cursor) run ∙ moved)
                ]
            | inr (message, w, e) ↦ stayed (rw e refl)
          ]

  -- A round ends, and leaves the cursor that its body left.
  pub verifier_round-body :
      (v : VerifierState S)
      → (v' : VerifierState S) × (verifier_round services v ≡ (resolved tt, v'))
        × (v'.end_cursor ≡ (body v).1.end_cursor)
  unfolding verifier_round try_catch
  verifier_round-body v = elim (settled-cases (body v)) [
    | inl (u, v', e) ↦ (v', rw e refl, ap (λ x. x.1.end_cursor) (sym e))
    | inr (message, v', e) ↦ (
      record v' { shared = record v'.shared { world = services.wait 100 v'.shared.world } },
      rw e refl,
      ap (λ x. x.1.end_cursor) (sym e),
    )
  ]

  -- If no write of a batch that nobody awaits fails, and the check of a publication settles, a round of the
  -- node ends from every state, without an error. Its cursor stays, or it moves to where
  -- a pull from it ended, after the ids of that pull were given to a batch that ended with a result: a
  -- pull or a batch that rejects leaves the cursor where it was.
  pub verifier_round-Progress :
      WritesResolve services.batch
      → (v : VerifierState S)
      → (v' : VerifierState S) × (verifier_round services v ≡ (resolved tt, v')) × Progress v v'
  verifier_round-Progress writes v =
      let (v', run, same) = verifier_round-body v in
      (v', run, same_cursor v (body v).1 v' same (body-Progress v))

-- ===== src/Watchers/CatchUp.antt =====
-- The rounds of the verifier node against the log of all transactions.
use Prim.Native.Nat.{min}
use momoka.Prelude.{
  ℕ, zero, suc, ◌+◌, ◌-◌, ◌*◌, ◌≤◌, arith, String, false, Option, none, List, [], ◌∷◌, length, All,
  take, drop, subst, sym, length-take, length-drop, resolved, ◌≡◌, refl, ap, ◌∙◌,
}
use momoka.Common.{run_rounds, sleep_after}
use momoka.Submitters.{get_submitters}
use momoka.Queue.Known.{Shared}
use momoka.Proofs.Batch.Publications.{ProofResult, check_da_proofs_batch}
use momoka.Proofs.Batch.Bulk.{found_in, found_in-All}
use momoka.Proofs.Batch.Whole.{Bundlr, IsReadable, Serves, check_da_proofs_batch-Failures}
use momoka.Watchers.Pages.Log.{ServesLog, get_bulk_data_availability_transactions-log}
use momoka.Watchers.Verifier.{NodeServices, VerifierState, verifier_round, process_pulled}
use momoka.Watchers.Progress.{
  body-pulled, process_pulled-advances, process_pulled-nothing, verifier_round-body,
}

module _ {S : Type 0} (services : NodeServices S) (bundlr : Bundlr) (owners log : List String)
    (position : Option String → ℕ) where
  -- What the node relies on: the transactions of its submitters are served as one log, and those of
  -- them that Bundlr holds are publications that can be read.
  pub record Serving : Type 0 where
    pub submitters :
        get_submitters services.ethereum_node.environment services.ethereum_node.deployment
        ≡ resolved owners
    pub pages : ServesLog log position services.query owners
    pub batches : Serves bundlr services.batch log

  -- A part of the log is served as the log is.
  part-Serves :
      Serving
      → (tx_ids : List String) (n m : ℕ) → tx_ids ≡ take n (drop m log)
      → Serves bundlr services.batch tx_ids
  part-Serves serving tx_ids n m e = record {
    bulk = serving.batches.bulk;
    readable =
        subst (λ ids. All (IsReadable bundlr services.batch) (found_in bundlr.find ids)) (sym e)
          (found_in-All (IsReadable bundlr services.batch) bundlr.find n m log
            serving.batches.readable);
    writes = serving.batches.writes;
  }

  batch-ends :
      (tx_ids : List String)
      → Serves bundlr services.batch tx_ids
      → (s : Shared S)
      → (results : List ProofResult) × (t : Shared S) × (check_da_proofs_batch services.batch tx_ids
            false false services.stream s
          ≡ (resolved results, t))
  batch-ends tx_ids serves s =
      let (rs, requests, w, run, failures) =
        check_da_proofs_batch-Failures bundlr services.batch tx_ids serves false services.stream
          s in
      (rs, _, run)

  -- Behind a pull, the cursor is where the pull ended, or nothing was pulled.
  pulled-position :
      (next : Option String) (tx_ids : List String)
      → Serves bundlr services.batch tx_ids
      → (v : VerifierState S) → position next ≡ position v.end_cursor + length tx_ids
      → position (process_pulled services next tx_ids v).1.end_cursor
        ≡ position v.end_cursor + length tx_ids
  pulled-position next [] serves v h =
      let same = ap position (process_pulled-nothing services next v) in omega (arith, same)
  pulled-position next (tx_id ∷ tx_ids) serves v h =
      let (results, t, run) = batch-ends (tx_id ∷ tx_ids) serves v.shared in
      ap position (process_pulled-advances services next tx_id tx_ids v results t run) ∙ h

  round-position :
      Serving
      → (v : VerifierState S) → position v.end_cursor ≤ length log
      → (v' : VerifierState S) × (verifier_round services v ≡ (resolved tt, v'))
        × (position v'.end_cursor ≡ min (position v.end_cursor + 10000) (length log))
  round-position serving v h =
      let (v', run, same) = verifier_round-body services v in
      let (r, w, pulled, ids, moved) =
        get_bulk_data_availability_transactions-log services.query
          services.ethereum_node.environment services.ethereum_node.deployment owners log position
          serving.pages serving.submitters v.end_cursor 10 v.shared.world (omega arith) in
      let reached =
        pulled-position r.next r.tx_ids
          (part-Serves serving r.tx_ids (10 * 1000) (position v.end_cursor) ids)
          (record v { shared = record v.shared { world = w } }) moved in
      let whole : position v'.end_cursor ≡ position v.end_cursor + length r.tx_ids =
        ap position (same ∙ ap (λ x. x.end_cursor) (body-pulled services v r w pulled)) ∙ reached in
      let taken : length r.tx_ids ≡ min (10 * 1000) (length log - position v.end_cursor) =
        ap length ids
        ∙ length-take (10 * 1000) (drop (position v.end_cursor) log)
        ∙ ap (λ n. min (10 * 1000) n) (length-drop (position v.end_cursor) log) in
      (v', run, omega (arith, whole, taken, h))

  -- If Bundlr serves its log, those transactions of it that Bundlr holds are publications that can be
  -- read, each with a timestamp transaction that is found and can be read, and no write that nobody awaits
  -- fails, then n rounds end from every state of the node without an error, and the cursor is n · 10000
  -- transactions further, or at the end of the log if there are no more: the node catches up, whatever its
  -- checks answer, and whatever becomes of the writes that it awaits.
  pub verifier_rounds-position :
      Serving
      → (wait : ℕ → VerifierState S → VerifierState S) (n : ℕ) (v : VerifierState S)
      → position v.end_cursor ≤ length log
      → (v' : VerifierState S) × (run_rounds wait n (verifier_round services) none v
          ≡ (resolved tt, v'))
        × (position v'.end_cursor ≡ min (position v.end_cursor + n * 10000) (length log))
  unfolding run_rounds sleep_after
  verifier_rounds-position serving wait zero v h = (v, refl, omega (arith, h))
  verifier_rounds-position serving wait (suc n) v h =
      let (v', run, moved) = round-position serving v h in
      let (v'', runs, reached) =
        verifier_rounds-position serving wait n v' (omega (arith, moved)) in
      (v'', rw run runs, omega (arith, moved, reached, h))

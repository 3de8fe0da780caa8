-- ===== src/Proofs/Batch/Outcomes.antt =====
-- What the check of a batch's publications leaves in its results and in the queue of failed proofs.
use mathlib.Core.List.{append-nil, append_assoc}
use momoka.Prelude.{
  String, Bool, true, false, Option, none, some, List, [], ◌∷◌, ◌++◌, map, Settled, resolved, Async,
  all_of, all_of-cons, >>=-eq-resolved, resolved_inj, settled-cases, inl, inr, ◌≡◌, refl, sym, ap,
  ◌∙◌, subst, try_catch,
}
use momoka.Models.{
  DaStructurePublication, DaTimestampProofsResponse, DaPublicationWithTimestampProofsBatchResult,
  DaResult, success, failed, MomokaValidatorError,
}
use momoka.Models.Errors.{unknown}
use momoka.Queue.{enqueue}
use momoka.Queue.Known.{
  StreamCallback, Shared, ProcessFailedProofQueueRequest, in_world, enqueue_failed,
}
use momoka.Proofs.Checker.Interfaces.{
  CheckDaSubmissionOptions, get_default_check_da_submission_options, validated_failure,
  TxValidatedResult,
}
use momoka.Proofs.Gateways.{fire_and_forget, left_behind}
use momoka.Proofs.Batch.{build_tx_validation_result}
use momoka.Proofs.Batch.Publications.{
  ProofResult, proof_result, error_info, BatchServices, unless_late, race_with_timeout,
  checked_publication, streamed, process_publication, enqueue_unless_success, process_entry,
  process_publications,
}

module _ {S : Type 0} (services : BatchServices S) where
  abbrev pub options_of : Bool → CheckDaSubmissionOptions
  options_of retry_attempt = record get_default_check_da_submission_options {
    by_pass_db = retry_attempt;
  }

  -- What the processing of a publication may end in, from a state.
  pub data ProofOutcome (publication : DaPublicationWithTimestampProofsBatchResult)
      (retry_attempt : Bool) (s : S) : ProofResult → Type 0 where
    proved :
        {p : DaStructurePublication} {t : S}
        → services.check_da_proof_with_metadata publication.id publication
            (options_of retry_attempt)
            s
          ≡ (resolved (success p), t)
        → ProofOutcome publication retry_attempt s
            (record { tx_id = publication.id; success = true; validator_error = none })
    refuted :
        {reason : MomokaValidatorError} {context : Option DaStructurePublication} {t : S}
        → services.check_da_proof_with_metadata publication.id publication
            (options_of retry_attempt)
            s
          ≡ (resolved (failed reason context), t)
        → ProofOutcome publication retry_attempt s
            (record { tx_id = publication.id; success = false; validator_error = some reason })
    errored :
        ProofOutcome publication retry_attempt s
          (record { tx_id = publication.id; success = false; validator_error = some unknown })

  outcome_of :
      (publication : DaPublicationWithTimestampProofsBatchResult) (retry_attempt : Bool) (s t : S)
      (r : DaResult DaStructurePublication DaStructurePublication)
      → services.check_da_proof_with_metadata publication.id publication
          (options_of retry_attempt)
          s
        ≡ (resolved r, t)
      → ProofOutcome publication retry_attempt s (proof_result publication.id r)
  unfolding proof_result
  outcome_of publication retry_attempt s t (success p) h = proved h
  outcome_of publication retry_attempt s t (failed reason context) h = refuted h

  race_with_timeout-eq-resolved :
      {A : Type 0} (check : Async S A) (a : A) (s t : S)
      → race_with_timeout services 5000 check s ≡ (resolved a, t)
      → check s ≡ (resolved a, t)
  unfolding race_with_timeout unless_late
  race_with_timeout-eq-resolved {A} check a s t h =
      in_time (check s) (services.late 5000 (check s).1) h
    where
      in_time :
          (r : Settled A × S) (late : Bool)
          → unless_late r.0 late r.1 ≡ (resolved a, t)
          → r ≡ (resolved a, t)
      in_time (r, u) true k = cc
      in_time (r, u) false k = k

  checked_publication-ProofOutcome :
      (publication : DaPublicationWithTimestampProofsBatchResult) (retry_attempt : Bool)
      (stream : Option (StreamCallback S)) (r : ProofResult) (s t : S)
      → checked_publication services publication retry_attempt stream s ≡ (resolved r, t)
      → ProofOutcome publication retry_attempt s r
  unfolding checked_publication fire_and_forget
  checked_publication-ProofOutcome publication retry_attempt stream r s t h =
      let (result, s0, e0, k0) =
        >>=-eq-resolved
          (race_with_timeout services 5000 (
            services.check_da_proof_with_metadata publication.id publication
              (options_of retry_attempt)))
          _ h in
      let (_, s1, e1, k1) =
        >>=-eq-resolved (streamed stream (build_tx_validation_result publication.id result)) _ k0 in
      subst (ProofOutcome publication retry_attempt s) (resolved_inj k1) (
        outcome_of publication retry_attempt s s0 result (
          race_with_timeout-eq-resolved
            (services.check_da_proof_with_metadata publication.id publication
              (options_of retry_attempt))
            result s s0 e0))

  -- The processing of a publication resolves from every state, to a result that carries its
  -- transaction's id: it is a success only if the check succeeded, and else has the reason that the
  -- check gave, or UNKNOWN.
  pub process_publication-ProofOutcome :
      (publication : DaPublicationWithTimestampProofsBatchResult) (retry_attempt : Bool)
      (stream : Option (StreamCallback S)) (s : S)
      → (r : ProofResult) × (t : S) × (process_publication services publication retry_attempt stream
            s
          ≡ (resolved r, t))
        × ProofOutcome publication retry_attempt s r
  unfolding process_publication try_catch fire_and_forget
  process_publication-ProofOutcome publication retry_attempt stream s =
      elim (settled-cases (checked_publication services publication retry_attempt stream s)) [
        | inl (r, t, e) ↦ (
          r,
          t,
          rw e refl,
          checked_publication-ProofOutcome publication retry_attempt stream r s t e,
        )
        | inr (message, t, e) ↦ (
          record { tx_id = publication.id; success = false; validator_error = some unknown },
          left_behind services.unhandled (
              services.save_tx_db publication.id
                (validated_failure publication.id unknown none (error_info message)) t),
          rw e refl,
          errored,
        )
      ]

-- The writes to the database that nobody awaits do not fail.
pub record WritesResolve {S : Type 0} (services : BatchServices S) : Type 0 where
  pub tx :
      (tx_id : String) (result : TxValidatedResult) (s : S)
      → (t : S) × (services.save_tx_db tx_id result s ≡ (resolved tt, t))
  pub metadata :
      (tx_id : String) (publication : DaStructurePublication) (s : S)
      → (t : S) × (services.save_tx_da_metadata_db tx_id publication s ≡ (resolved tt, t))
  pub timestamp_proofs :
      (tx_id : String) (proofs : DaTimestampProofsResponse) (s : S)
      → (t : S) × (services.save_tx_timestamp_proofs_metadata_db tx_id proofs s ≡ (resolved tt, t))

module _ {S : Type 0} (services : BatchServices S) (retry_attempt : Bool) where
  -- The results of publications, each an outcome of that publication's check, and the requests for the
  -- queue of failed proofs that they call for: one for each failure, in the order of the publications,
  -- with the publication's submitter and the reason of the failure.
  pub data Failures
      : List DaPublicationWithTimestampProofsBatchResult
        → List ProofResult
        → List ProcessFailedProofQueueRequest
        → Type 0 where
    no_failure : Failures [] [] []
    after_proved :
        {publication : DaPublicationWithTimestampProofsBatchResult}
        {publications : List DaPublicationWithTimestampProofsBatchResult}
        {results : List ProofResult} {requests : List ProcessFailedProofQueueRequest} (s : S)
        → ProofOutcome services publication retry_attempt s
            (record { tx_id = publication.id; success = true; validator_error = none })
        → Failures publications results requests
        → Failures
            (publication ∷ publications)
            (record { tx_id = publication.id; success = true; validator_error = none } ∷ results)
            requests
    after_failed :
        {publication : DaPublicationWithTimestampProofsBatchResult}
        {publications : List DaPublicationWithTimestampProofsBatchResult}
        {results : List ProofResult} {requests : List ProcessFailedProofQueueRequest}
        (reason : MomokaValidatorError) (s : S)
        → ProofOutcome services publication retry_attempt s
            (record { tx_id = publication.id; success = false; validator_error = some reason })
        → Failures publications results requests
        → Failures
            (publication ∷ publications)
            (record { tx_id = publication.id; success = false; validator_error = some reason }
              ∷ results)
            (record { tx_id = publication.id; reason = reason; submitter = publication.submitter }
              ∷ requests)

-- The queues after failures were enqueued.
abbrev queued : {S : Type 0} → Shared S → S → List ProcessFailedProofQueueRequest → Shared S
queued s w requests = record s {
  world = w;
  failed_da_proof_queue = record { items = s.failed_da_proof_queue.items ++ requests };
}

module _ {S : Type 0} (services : BatchServices S) where
  process_entry-queued :
      (p : DaPublicationWithTimestampProofsBatchResult) (retry_attempt : Bool)
      (stream : Option (StreamCallback S)) (s : Shared S) (r : ProofResult) (t : S)
      → process_publication services p retry_attempt stream s.world ≡ (resolved r, t)
      → ProofOutcome services p retry_attempt s.world r
      → (requests : List ProcessFailedProofQueueRequest) × (process_entry services retry_attempt
            stream
            (some p)
            s
          ≡ (resolved r, queued s t requests))
        × ((ps : List DaPublicationWithTimestampProofsBatchResult)
            → (rs : List ProofResult) (rest : List ProcessFailedProofQueueRequest)
            → Failures services retry_attempt ps rs rest
            → Failures services retry_attempt (p ∷ ps) (r ∷ rs) (requests ++ rest))
  unfolding process_entry in_world enqueue_unless_success enqueue_failed enqueue
  process_entry-queued p retry_attempt stream s r t h (proved e) = (
    [],
    rw (h, append-nil s.failed_da_proof_queue.items) refl,
    λ ps rs rest failures. after_proved s.world (proved e) failures,
  )
  process_entry-queued p retry_attempt stream s r t h (refuted {reason} e) = (
    record { tx_id = p.id; reason = reason; submitter = p.submitter } ∷ [],
    rw h refl,
    λ ps rs rest failures. after_failed reason s.world (refuted e) failures,
  )
  process_entry-queued p retry_attempt stream s r t h errored = (
    record { tx_id = p.id; reason = unknown; submitter = p.submitter } ∷ [],
    rw h refl,
    λ ps rs rest failures. after_failed unknown s.world errored failures,
  )

  -- The processing of publications resolves from every state. The queue of failed proofs is then what it
  -- was, followed by one request for each failure and nothing else, and the other queues are as they
  -- were.
  pub process_publications-Failures :
      (publications : List DaPublicationWithTimestampProofsBatchResult) (retry_attempt : Bool)
      (stream : Option (StreamCallback S)) (s : Shared S)
      → (rs : List ProofResult) × (requests : List ProcessFailedProofQueueRequest) × (w : S)
        × (process_publications services (map some publications) retry_attempt stream s
            ≡ (resolved rs, queued s w requests))
        × Failures services retry_attempt publications rs requests
  unfolding process_publications all_of
  process_publications-Failures [] retry_attempt stream s = (
    [],
    [],
    s.world,
    ap (λ items. (resolved [], record s { failed_da_proof_queue = record { items = items } }))
        (sym (append-nil s.failed_da_proof_queue.items)),
    no_failure,
  )
  process_publications-Failures (p ∷ ps) retry_attempt stream s =
      let (r, t, e, outcome) =
        process_publication-ProofOutcome services p retry_attempt stream s.world in
      let (requests, entry, add) = process_entry-queued p retry_attempt stream s r t e outcome in
      let (rs, rest, w, batch, failures) =
        process_publications-Failures ps retry_attempt stream (queued s t requests) in
      (
        r ∷ rs,
        requests ++ rest,
        w,
        all_of-cons (process_entry services retry_attempt stream) (some p) (map some ps) entry batch
            ∙ ap
                (λ items. (
                  resolved (r ∷ rs),
                  record s { world = w; failed_da_proof_queue = record { items = items } },
                ))
                (append_assoc s.failed_da_proof_queue.items requests rest),
        add ps rs rest failures,
      )

-- ===== src/Proofs/Checker/Soundness.antt =====
-- What it says of a submission that `DaProofChecker` accepts it.
use momoka.Prelude.{
  String, Bool, true, false, Option, some, none, resolved, Async, settle, >>=-eq-resolved, ◌≡◌,
  refl, ap, ◌∙◌, subst, eq_string, arith, eq_iff, ◌≢◌, to_lower_case,
}
use momoka.Models.{DaStructurePublication, DaTimestampProofsResponse, success}
use momoka.Models.Errors.{invalid_event_timestamp, invalid_typed_data_deadline_timestamp}
use momoka.Models.Chain.{chained, succeed-eq-success, guarded-eq-success, with_context-eq-success}
use momoka.Submitters.{is_valid_submitter, or_production}
use momoka.Submitters.Laws.{submitter_address, is_valid_submitter-iff-table}
use momoka.Proofs.Publications.Checks.{Same}
use momoka.Evm.{Ethers, EvmApi, EthereumNode}
use momoka.Proofs.Utils.{is_valid_event_timestamp, is_valid_typed_data_deadline_timestamp}
use momoka.Proofs.Checker.{is_signed, checked_submitter, check_signed, check_da_proof_data}
use momoka.Proofs.Checker.Interfaces.{DaProofsVerifier, DaProofsGateway, CheckDaSubmissionOptions}
use momoka.Proofs.Checker.Steps.{
  validates_timestamp_proof, validate_choosen_block, check_da_publication, check_extracted,
}
use momoka.Proofs.Checker.Facts.{
  validates_timestamp_proof-facts, BlockAccepted, validate_choosen_block-BlockAccepted,
  PublicationAccepted, check_da_publication-PublicationAccepted,
}

module _ {S : Type 0} (verifier : DaProofsVerifier S) (gateway : DaProofsGateway S)
    (ethers : Ethers) (evm : EvmApi S) (ethereum_node : EthereumNode)
    (check_pointer : String → Async S Bool) (verify_pointer : Bool) where
  -- What the steps behind the submitter's check have shown of a publication. The states are those
  -- between the steps.
  pub record ExtractedAccepted (p : DaStructurePublication) (proofs : DaTimestampProofsResponse)
      (s s' : S) : Type 0 where
    pub verified : S
    pub placed : S
    pub has_receipt : verifier.verify_timestamp_signature p s ≡ (resolved true, verified)
    pub has_type : proofs.type ≡ p.type
    pub has_id : proofs.data_availability_id ≡ p.data_availability_id
    pub has_event_time : Same p.event.timestamp p.chain_proofs.this_publication.block_timestamp
    pub has_deadline :
        Same p.chain_proofs.this_publication.typed_data.value.deadline
          p.chain_proofs.this_publication.block_timestamp
    pub has_block :
        BlockAccepted gateway ethereum_node p.chain_proofs.this_publication.block_number
          p.timestamp_proofs.response.timestamp verified placed
    pub is_publication : PublicationAccepted ethers evm check_pointer verify_pointer p placed s'

  check_extracted-ExtractedAccepted :
      (p : DaStructurePublication) (proofs : DaTimestampProofsResponse)
      (result : DaStructurePublication) (s s' : S)
      → check_extracted verifier gateway ethers evm ethereum_node check_pointer verify_pointer p
          proofs s
        ≡ (resolved (success result), s')
      → ExtractedAccepted p proofs s s' × (p ≡ result)
  unfolding check_extracted is_valid_event_timestamp is_valid_typed_data_deadline_timestamp
  check_extracted-ExtractedAccepted p proofs result s s' h =
      chained (validates_timestamp_proof verifier p proofs) _ h (λ u verified e h1.
        let (event, h2) =
          guarded-eq-success (is_valid_event_timestamp p) invalid_event_timestamp _ h1 in
        let (deadline, h3) =
          guarded-eq-success (is_valid_typed_data_deadline_timestamp p)
            invalid_typed_data_deadline_timestamp _ h2 in
        chained
          (validate_choosen_block gateway ethereum_node p.chain_proofs.this_publication.block_number
            p.timestamp_proofs.response.timestamp)
          _ h3
          (λ v placed e1 h4.
            chained (check_da_publication ethers evm check_pointer verify_pointer p) _ h4
              (λ w t e2 h5.
                let (receipt, type, id) =
                  validates_timestamp_proof-facts verifier p proofs s verified e in
                let (same, ended) = succeed-eq-success h5 in
                (
                  record {
                    verified = verified;
                    placed = placed;
                    has_receipt = receipt;
                    has_type = type;
                    has_id = id;
                    has_event_time = event;
                    has_deadline = deadline;
                    has_block =
                        validate_choosen_block-BlockAccepted gateway ethereum_node _ _ verified
                          placed e1;
                    is_publication =
                        subst (PublicationAccepted ethers evm check_pointer verify_pointer p placed)
                          ended
                          (check_da_publication-PublicationAccepted ethers evm check_pointer
                            verify_pointer p placed t e2);
                  },
                  same,
                ))))

is_signed-eq-true :
    (signature : Option String)
    → is_signed signature ≡ true
    → (text : String) × (signature ≡ some text) × (text ≢ "")
is_signed-eq-true none h = cc
is_signed-eq-true (some text) h = (text, refl, ground (arith, eq_iff text ""))

module _ {S : Type 0} (verifier : DaProofsVerifier S) (gateway : DaProofsGateway S)
    (ethers : Ethers) (evm : EvmApi S) (ethereum_node : EthereumNode)
    (check_pointer : String → Async S Bool) where
  -- What a submission that is accepted has shown: it is signed, by an address that may submit, and
  -- every later step passed on the publication that `extractAddress` left.
  pub record SubmissionAccepted (p : DaStructurePublication) (proofs : DaTimestampProofsResponse)
      (verify_pointer : Bool) (result : DaStructurePublication) (s s' : S) : Type 0 where
    pub address : String
    pub extracted : S
    pub signature : String
    pub is_signed_by : (p.signature ≡ some signature) × (signature ≢ "")
    pub is_extracted : verifier.extract_address p s ≡ (resolved (address, result), extracted)
    pub is_submitter :
        submitter_address (or_production ethereum_node.deployment) ethereum_node.environment
        ≡ some (to_lower_case address)
    pub is_accepted :
        ExtractedAccepted verifier gateway ethers evm ethereum_node check_pointer verify_pointer
          result proofs extracted s'

  submitted :
      (verify_pointer valid : Bool) (proofs : DaTimestampProofsResponse)
      (left result : DaStructurePublication) (s s' : S)
      → checked_submitter verifier gateway ethers evm ethereum_node check_pointer verify_pointer
          proofs left valid s
        ≡ (resolved (success result), s')
      → (valid ≡ true)
        × (left ≡ result)
        × ExtractedAccepted verifier gateway ethers evm ethereum_node check_pointer verify_pointer
            left proofs s s'
  unfolding checked_submitter
  submitted verify_pointer false proofs left result s s' h = cc
  submitted verify_pointer true proofs left result s s' h =
      let (accepted, same) =
        check_extracted-ExtractedAccepted verifier gateway ethers evm ethereum_node check_pointer
          verify_pointer left proofs result s s'
          (with_context-eq-success left
            (check_extracted verifier gateway ethers evm ethereum_node check_pointer verify_pointer
              left proofs)
            h) in
      (refl, same, accepted)

  check_signed-SubmissionAccepted :
      (signed : Bool) (p : DaStructurePublication)
      → is_signed p.signature ≡ signed
      → (proofs : DaTimestampProofsResponse) (options : CheckDaSubmissionOptions)
        (result : DaStructurePublication) (s s' : S)
      → check_signed verifier gateway ethers evm ethereum_node check_pointer signed p proofs options
          s
        ≡ (resolved (success result), s')
      → SubmissionAccepted p proofs options.verify_pointer result s s'
  unfolding check_signed
  check_signed-SubmissionAccepted false p e proofs options result s s' h = cc
  check_signed-SubmissionAccepted true p e proofs options result s s' h =
      let (signed, t, e1, h1) = >>=-eq-resolved (verifier.extract_address p) _ h in
      let (valid, u, e2, h2) =
        >>=-eq-resolved
          (settle (is_valid_submitter ethereum_node.environment signed.0 ethereum_node.deployment))
          (checked_submitter verifier gateway ethers evm ethereum_node check_pointer
            options.verify_pointer proofs signed.1)
          h1 in
      let (is_valid, same, accepted) =
        submitted options.verify_pointer valid proofs signed.1 result u s' h2 in
      let (signature, given, filled) = is_signed-eq-true p.signature e in
      record {
        address = signed.0;
        extracted = u;
        signature = signature;
        is_signed_by = (given, filled);
        is_extracted =
            e1
            ∙ ap (λ x. (resolved (signed.0, x), t)) same
            ∙ ap (λ y. (resolved (signed.0, result), y)) (ap (λ r. r.1) e2);
        is_submitter =
            (is_valid_submitter-iff-table ethereum_node.environment signed.0
                ethereum_node.deployment).0
              (ap (λ r. r.0) e2 ∙ ap resolved is_valid);
        is_accepted =
            subst
              (λ x.
                ExtractedAccepted verifier gateway ethers evm ethereum_node check_pointer
                  options.verify_pointer x proofs u s')
              same accepted;
      }

  -- A submission that is accepted has a signature from which the address was extracted that the table of
  -- submitters has for the environment and the deployment. Its receipt was verified; the timestamp proofs
  -- name its type and id; its event's timestamp and its deadline are the block's; its block passed as
  -- `BlockAccepted` says; it has the verifier of its kind, its id is generated from its profile, and what
  -- that verifier checks holds. The result is the publication that was checked.
  pub check_da_proof_data-SubmissionAccepted :
      (p : DaStructurePublication) (proofs : DaTimestampProofsResponse)
      (options : CheckDaSubmissionOptions) (result : DaStructurePublication) (s s' : S)
      → check_da_proof_data verifier gateway ethers evm ethereum_node check_pointer p proofs options
          s
        ≡ (resolved (success result), s')
      → SubmissionAccepted p proofs options.verify_pointer result s s'
  unfolding check_da_proof_data
  check_da_proof_data-SubmissionAccepted p proofs options result s s' h =
      check_signed-SubmissionAccepted (is_signed p.signature) p refl proofs options result s s' h

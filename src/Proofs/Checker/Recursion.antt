-- ===== src/Proofs/Checker/Recursion.antt =====
-- The recursion of `checkDAProof`: without `verifyPointer` no pointer is checked.
use mathlib.Core.Path.{fun_ext}
use momoka.Prelude.{
  String, Bool, true, false, Option, none, some, Async, pure, throw, ◌>>=◌, ◌≡◌, refl, ap,
}
use momoka.Models.{
  DaStructurePublication, DaTimestampProofsResponse, DaResult, PublicationPointer, is_success,
}
use momoka.Evm.{Ethers, EvmApi, EthereumNode}
use momoka.Proofs.Publications.Base.{check_location, verify_pointer_first}
use momoka.Proofs.Publications.Comment.{DaCommentVerifier, comment_v1, comment_v2, check_da_comment}
use momoka.Proofs.Publications.Mirror.{DaMirrorVerifier, mirror_v1, mirror_v2, check_da_mirror}
use momoka.Proofs.Publications.Quote.{DaQuoteVerifier, quote_v2, check_da_quote}
use momoka.Proofs.Publications.Verifier.{
  DaPublicationVerifier, post_verifier, comment_verifier, mirror_verifier, quote_verifier,
}
use momoka.Proofs.Checker.Interfaces.{
  Fetched, timeout_error, fetched, CheckDaSubmissionOptions, DaProofsVerifier, DaProofsGateway,
}
use momoka.Proofs.Checker.Steps.{check_by_type, check_da_publication, check_extracted}
use momoka.Proofs.Checker.{
  checked_submitter, check_signed, check_da_proof_data, submitter_known, proofs_known,
  publication_known, check_uncached, check_da_proof_using, check_pointed, check_da_proof,
}

module _ {S : Type 0} (p q : String → Async S Bool) where
  pointer-unchecked :
      (pointer : Option PublicationPointer)
      → verify_pointer_first p false pointer ≡ verify_pointer_first q false pointer
  unfolding verify_pointer_first check_location
  pointer-unchecked none = refl
  pointer-unchecked (some pointer) = refl

module _ {S : Type 0} (ethers : Ethers) (evm : EvmApi S) (p q : String → Async S Bool) where
  comment-unpointed :
      (v : DaCommentVerifier)
      → check_da_comment ethers evm p false v ≡ check_da_comment ethers evm q false v
  unfolding check_da_comment
  comment-unpointed (comment_v1 publication) =
      rw (pointer-unchecked p q publication.chain_proofs.pointer) refl
  comment-unpointed (comment_v2 params publication) =
      rw (pointer-unchecked p q publication.chain_proofs.pointer) refl

  mirror-unpointed :
      (v : DaMirrorVerifier)
      → check_da_mirror ethers evm p false v ≡ check_da_mirror ethers evm q false v
  unfolding check_da_mirror
  mirror-unpointed (mirror_v1 publication) =
      rw (pointer-unchecked p q publication.chain_proofs.pointer) refl
  mirror-unpointed (mirror_v2 params publication) =
      rw (pointer-unchecked p q publication.chain_proofs.pointer) refl

  quote-unpointed :
      (v : DaQuoteVerifier)
      → check_da_quote ethers evm p false v ≡ check_da_quote ethers evm q false v
  unfolding check_da_quote
  quote-unpointed (quote_v2 params publication) =
      rw (pointer-unchecked p q publication.chain_proofs.pointer) refl

  type-unpointed : check_by_type ethers evm p false ≡ check_by_type ethers evm q false
  unfolding check_by_type
  type-unpointed = fun_ext by_type
    where
      by_type :
          (v : DaPublicationVerifier)
          → check_by_type ethers evm p false v ≡ check_by_type ethers evm q false v
      by_type (post_verifier v) = refl
      by_type (comment_verifier v) = comment-unpointed v
      by_type (mirror_verifier v) = mirror-unpointed v
      by_type (quote_verifier v) = quote-unpointed v

  publication-unpointed :
      check_da_publication ethers evm p false ≡ check_da_publication ethers evm q false
  unfolding check_da_publication
  publication-unpointed = fun_ext λ publication. rw (check_da_publication, type-unpointed) refl

module _ {S : Type 0} (verifier : DaProofsVerifier S) (gateway : DaProofsGateway S)
    (ethers : Ethers) (evm : EvmApi S) (node : EthereumNode) (p q : String → Async S Bool) where
  extracted-unpointed :
      check_extracted verifier gateway ethers evm node p false
      ≡ check_extracted verifier gateway ethers evm node q false
  unfolding check_extracted
  extracted-unpointed = fun_ext λ publication.
      fun_ext λ proofs. rw (check_extracted, publication-unpointed ethers evm p q) refl

  submitter-unpointed :
      checked_submitter verifier gateway ethers evm node p false
      ≡ checked_submitter verifier gateway ethers evm node q false
  unfolding checked_submitter
  submitter-unpointed =
      fun_ext λ proofs. fun_ext λ publication. fun_ext (by_validity proofs publication)
    where
      by_validity :
          (proofs : DaTimestampProofsResponse) (publication : DaStructurePublication) (b : Bool)
          → checked_submitter verifier gateway ethers evm node p false proofs publication b
            ≡ checked_submitter verifier gateway ethers evm node q false proofs publication b
      by_validity proofs publication false = refl
      by_validity proofs publication true = rw (extracted-unpointed) refl

  -- With the options of a check that verifies no pointer
  module _ (by_pass_db : Bool) where
    abbrev unpointed : CheckDaSubmissionOptions
    unpointed = record { verify_pointer = false; by_pass_db = by_pass_db }

    signed-unpointed :
        (b : Bool) (publication : DaStructurePublication) (proofs : DaTimestampProofsResponse)
        → check_signed verifier gateway ethers evm node p b publication proofs unpointed
          ≡ check_signed verifier gateway ethers evm node q b publication proofs unpointed
    unfolding check_signed
    signed-unpointed false publication proofs = refl
    signed-unpointed true publication proofs = rw submitter-unpointed refl

    data-unpointed :
        (publication : DaStructurePublication) (proofs : DaTimestampProofsResponse)
        → check_da_proof_data verifier gateway ethers evm node p publication proofs unpointed
          ≡ check_da_proof_data verifier gateway ethers evm node q publication proofs unpointed
    unfolding check_da_proof_data
    data-unpointed publication proofs = signed-unpointed _ publication proofs

    known-unpointed :
        submitter_known verifier gateway ethers evm node p unpointed
        ≡ submitter_known verifier gateway ethers evm node q unpointed
    unfolding submitter_known
    known-unpointed =
        fun_ext λ publication. fun_ext λ proofs. fun_ext (by_answer publication proofs)
      where
        by_answer :
            (publication : DaStructurePublication) (proofs : DaTimestampProofsResponse)
            (answer : Fetched Bool)
            → submitter_known verifier gateway ethers evm node p unpointed publication proofs answer
              ≡ submitter_known verifier gateway ethers evm node q unpointed publication proofs
                  answer
        by_answer publication proofs timeout_error = refl
        by_answer publication proofs (fetched false) = refl
        by_answer publication proofs (fetched true) = data-unpointed publication proofs

    proofs-unpointed :
        proofs_known verifier gateway ethers evm node p unpointed
        ≡ proofs_known verifier gateway ethers evm node q unpointed
    unfolding proofs_known
    proofs-unpointed = fun_ext λ publication. fun_ext (by_answer publication)
      where
        by_answer :
            (publication : DaStructurePublication)
            (answer : Fetched (Option DaTimestampProofsResponse))
            → proofs_known verifier gateway ethers evm node p unpointed publication answer
              ≡ proofs_known verifier gateway ethers evm node q unpointed publication answer
        by_answer publication timeout_error = refl
        by_answer publication (fetched none) = refl
        by_answer publication (fetched (some proofs)) = rw known-unpointed refl

    fetched-unpointed :
        publication_known verifier gateway ethers evm node p unpointed
        ≡ publication_known verifier gateway ethers evm node q unpointed
    unfolding publication_known
    fetched-unpointed = fun_ext λ tx_id. fun_ext (by_answer tx_id)
      where
        by_answer :
            (tx_id : String) (answer : Fetched (Option DaStructurePublication))
            → publication_known verifier gateway ethers evm node p unpointed tx_id answer
              ≡ publication_known verifier gateway ethers evm node q unpointed tx_id answer
        by_answer tx_id timeout_error = refl
        by_answer tx_id (fetched none) = refl
        by_answer tx_id (fetched (some publication)) = rw proofs-unpointed refl

    uncached-unpointed :
        check_uncached verifier gateway ethers evm node p unpointed
        ≡ check_uncached verifier gateway ethers evm node q unpointed
    unfolding check_uncached
    uncached-unpointed = fun_ext λ tx_id. fun_ext (by_cache tx_id)
      where
        by_cache :
            (tx_id : String)
            (cached : Option (DaResult DaStructurePublication DaStructurePublication))
            → check_uncached verifier gateway ethers evm node p unpointed tx_id cached
              ≡ check_uncached verifier gateway ethers evm node q unpointed tx_id cached
        by_cache tx_id (some result) = refl
        by_cache tx_id none = rw fetched-unpointed refl

    -- Without `verifyPointer` the check is the same, whatever checks pointers.
    check-unpointed :
        (tx_id : String)
        → check_da_proof_using verifier gateway ethers evm node p tx_id unpointed
          ≡ check_da_proof_using verifier gateway ethers evm node q tx_id unpointed
    unfolding check_da_proof_using
    check-unpointed tx_id = rw uncached-unpointed refl

-- `checkDAProof` is the recursive function of the source: the check of a publication that is pointed at
-- is a call of `checkDAProof` itself, with `verifyPointer` and `byPassDb` off, of which it is the success.
pub check_da_proof-recursive :
    {S : Type 0} (verifier : DaProofsVerifier S) (gateway : DaProofsGateway S) (ethers : Ethers)
    (evm : EvmApi S) (node : EthereumNode) (tx_id : String) (options : CheckDaSubmissionOptions)
    → check_da_proof verifier gateway ethers evm node tx_id options
      ≡ check_da_proof_using verifier gateway ethers evm node
          (λ location.
            check_da_proof verifier gateway ethers evm node location
              (record { verify_pointer = false; by_pass_db = false })
            >>= λ result. pure (is_success result))
          tx_id
          options
unfolding check_da_proof check_pointed
check_da_proof-recursive verifier gateway ethers evm node tx_id options =
    ap
      (λ check_pointer.
        check_da_proof_using verifier gateway ethers evm node check_pointer tx_id options)
      (fun_ext λ location.
        ap (λ m. m >>= λ result. pure (is_success result))
          (check-unpointed verifier gateway ethers evm node (λ _. throw "no pointer is verified")
            (check_pointed verifier gateway ethers evm node) false location))

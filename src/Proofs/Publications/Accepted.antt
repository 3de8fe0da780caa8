-- ===== src/Proofs/Publications/Accepted.antt =====
-- What a success of the checks of a comment, a mirror or a quote says.
use momoka.Prelude.{String, Bool, resolved, Async, ◌≡◌, ap, subst}
use momoka.Models.{success}
use momoka.Models.Chain.{chained}
use momoka.Evm.{Ethers, EvmApi, SignerDetails}
use momoka.Proofs.Publications.Base.{verify_pointer_first, verify_signer_v1, verify_signer_v2}
use momoka.Proofs.Publications.Comment.{DaCommentVerifier, comment_v1, comment_v2, check_da_comment}
use momoka.Proofs.Publications.Mirror.{DaMirrorVerifier, mirror_v1, mirror_v2, check_da_mirror}
use momoka.Proofs.Publications.Quote.{DaQuoteVerifier, quote_v2, check_da_quote}
use momoka.Proofs.Publications.Pointers.{PointerAccepted, verify_pointer_first-PointerAccepted}
use momoka.Proofs.Publications.Signers.{
  SignerAllowedV1, SignerAllowedV2, verify_signer_v1-SignerAllowed, verify_signer_v2-SignerAllowed,
}
use momoka.Proofs.Publications.Events.Comment.{
  IsCommentEventV1, IsCommentEventV2, verify_comment_event_v1-eq-success_iff,
  verify_comment_event_v2-eq-success_iff,
}
use momoka.Proofs.Publications.Events.Mirror.{
  IsMirrorEventV1, IsMirrorEventV2, verify_mirror_event_v1-eq-success_iff,
  verify_mirror_event_v2-eq-success_iff,
}
use momoka.Proofs.Publications.Events.Quote.{IsQuoteEventV2, verify_quote_event_v2-eq-success_iff}

module _ {S : Type 0} (ethers : Ethers) (evm : EvmApi S) (check_pointer : String → Async S Bool)
    (verify_pointer : Bool) where
  -- What an accepted comment has shown: its pointer, its signer, and its event.
  pub CommentAccepted : DaCommentVerifier → S → S → Type 0
  CommentAccepted (comment_v1 p) s s' =
      (t : S) × (details : SignerDetails) × PointerAccepted check_pointer verify_pointer
        p.chain_proofs.pointer s t
      × SignerAllowedV1 ethers evm p details t s'
      × IsCommentEventV1 ethers p details.current_publication_id
  CommentAccepted (comment_v2 params p) s s' =
      (t : S) × (details : SignerDetails) × PointerAccepted check_pointer verify_pointer
        p.chain_proofs.pointer s t
      × SignerAllowedV2 ethers evm p details t s'
      × IsCommentEventV2 ethers params p details.current_publication_id

  -- A comment that passes has a pointer on the data availability layer, whose own check passed if it was
  -- to be verified, an allowed signer with the current nonce, and an event that agrees with what was
  -- signed.
  pub check_da_comment-Accepted :
      (verifier : DaCommentVerifier) (s s' : S)
      → check_da_comment ethers evm check_pointer verify_pointer verifier s
        ≡ (resolved (success tt), s')
      → CommentAccepted verifier s s'
  unfolding check_da_comment CommentAccepted
  check_da_comment-Accepted (comment_v1 p) s s' h =
      chained (verify_pointer_first check_pointer verify_pointer p.chain_proofs.pointer) _ h
        (λ u t e h1. chained (verify_signer_v1 ethers evm p) _ h1 (λ details t' e2 h2. (
          t,
          details,
          verify_pointer_first-PointerAccepted check_pointer verify_pointer p.chain_proofs.pointer
              e,
          subst (SignerAllowedV1 ethers evm p details t) (ap (λ r. r.1) h2)
              (verify_signer_v1-SignerAllowed ethers evm p e2),
          (verify_comment_event_v1-eq-success_iff ethers p details.current_publication_id).0
              (ap (λ r. r.0) h2),
        )))
  check_da_comment-Accepted (comment_v2 params p) s s' h =
      chained (verify_pointer_first check_pointer verify_pointer p.chain_proofs.pointer) _ h
        (λ u t e h1. chained (verify_signer_v2 ethers evm p) _ h1 (λ details t' e2 h2. (
          t,
          details,
          verify_pointer_first-PointerAccepted check_pointer verify_pointer p.chain_proofs.pointer
              e,
          subst (SignerAllowedV2 ethers evm p details t) (ap (λ r. r.1) h2)
              (verify_signer_v2-SignerAllowed ethers evm p e2),
          (verify_comment_event_v2-eq-success_iff ethers params p details.current_publication_id).0
              (ap (λ r. r.0) h2),
        )))

  -- What an accepted mirror has shown: its pointer, its signer, and its event.
  pub MirrorAccepted : DaMirrorVerifier → S → S → Type 0
  MirrorAccepted (mirror_v1 p) s s' =
      (t : S) × (details : SignerDetails) × PointerAccepted check_pointer verify_pointer
        p.chain_proofs.pointer s t
      × SignerAllowedV1 ethers evm p details t s'
      × IsMirrorEventV1 ethers p details.current_publication_id
  MirrorAccepted (mirror_v2 params p) s s' =
      (t : S) × (details : SignerDetails) × PointerAccepted check_pointer verify_pointer
        p.chain_proofs.pointer s t
      × SignerAllowedV2 ethers evm p details t s'
      × IsMirrorEventV2 ethers params p details.current_publication_id

  -- A mirror that passes has a pointer on the data availability layer, whose own check passed if it was
  -- to be verified, an allowed signer with the current nonce, and an event that agrees with what was
  -- signed.
  pub check_da_mirror-Accepted :
      (verifier : DaMirrorVerifier) (s s' : S)
      → check_da_mirror ethers evm check_pointer verify_pointer verifier s
        ≡ (resolved (success tt), s')
      → MirrorAccepted verifier s s'
  unfolding check_da_mirror MirrorAccepted
  check_da_mirror-Accepted (mirror_v1 p) s s' h =
      chained (verify_pointer_first check_pointer verify_pointer p.chain_proofs.pointer) _ h
        (λ u t e h1. chained (verify_signer_v1 ethers evm p) _ h1 (λ details t' e2 h2. (
          t,
          details,
          verify_pointer_first-PointerAccepted check_pointer verify_pointer p.chain_proofs.pointer
              e,
          subst (SignerAllowedV1 ethers evm p details t) (ap (λ r. r.1) h2)
              (verify_signer_v1-SignerAllowed ethers evm p e2),
          (verify_mirror_event_v1-eq-success_iff ethers p details.current_publication_id).0
              (ap (λ r. r.0) h2),
        )))
  check_da_mirror-Accepted (mirror_v2 params p) s s' h =
      chained (verify_pointer_first check_pointer verify_pointer p.chain_proofs.pointer) _ h
        (λ u t e h1. chained (verify_signer_v2 ethers evm p) _ h1 (λ details t' e2 h2. (
          t,
          details,
          verify_pointer_first-PointerAccepted check_pointer verify_pointer p.chain_proofs.pointer
              e,
          subst (SignerAllowedV2 ethers evm p details t) (ap (λ r. r.1) h2)
              (verify_signer_v2-SignerAllowed ethers evm p e2),
          (verify_mirror_event_v2-eq-success_iff ethers params p details.current_publication_id).0
              (ap (λ r. r.0) h2),
        )))

  -- What an accepted quote has shown: its pointer, its signer, and its event.
  pub QuoteAccepted : DaQuoteVerifier → S → S → Type 0
  QuoteAccepted (quote_v2 params p) s s' =
      (t : S) × (details : SignerDetails) × PointerAccepted check_pointer verify_pointer
        p.chain_proofs.pointer s t
      × SignerAllowedV2 ethers evm p details t s'
      × IsQuoteEventV2 ethers params p details.current_publication_id

  -- A quote that passes has a pointer on the data availability layer, whose own check passed if it was
  -- to be verified, an allowed signer with the current nonce, and an event that agrees with what was
  -- signed.
  pub check_da_quote-Accepted :
      (verifier : DaQuoteVerifier) (s s' : S)
      → check_da_quote ethers evm check_pointer verify_pointer verifier s
        ≡ (resolved (success tt), s')
      → QuoteAccepted verifier s s'
  unfolding check_da_quote QuoteAccepted
  check_da_quote-Accepted (quote_v2 params p) s s' h =
      chained (verify_pointer_first check_pointer verify_pointer p.chain_proofs.pointer) _ h
        (λ u t e h1. chained (verify_signer_v2 ethers evm p) _ h1 (λ details t' e2 h2. (
          t,
          details,
          verify_pointer_first-PointerAccepted check_pointer verify_pointer p.chain_proofs.pointer
              e,
          subst (SignerAllowedV2 ethers evm p details t) (ap (λ r. r.1) h2)
              (verify_signer_v2-SignerAllowed ethers evm p e2),
          (verify_quote_event_v2-eq-success_iff ethers params p details.current_publication_id).0
              (ap (λ r. r.0) h2),
        )))

-- ===== src/Proofs/Checker/Facts.antt =====
-- What a success of each step of `_checkDAProof` says.
use momoka.Prelude.{
  ℕ, ◌*◌, ℤ, String, Bool, true, List, [], ◌∷◌, Settled, resolved, rejected, Async, try_catch, ◌≡◌,
  ap, ◌∙◌, sym, subst, ◌⊎◌, inl, inr, ◌==◌, eq_string, eq_int, add_one, sub_one, arith, Bool-cases,
}
use momoka.Models.{
  Value, DaStructurePublication, DaTimestampProofsResponse, DaResult, success, PromiseResult, fail,
  eq_action, MomokaValidatorError,
}
use momoka.Models.Errors.{
  timestamp_proof_invalid_signature, timestamp_proof_invalid_type, timestamp_proof_invalid_da_id,
  unknown, block_cant_be_read_from_node,
}
use momoka.Models.Chain.{
  lift, compute, of_result, ◌>>=◌, chained, guard-eq-success, guarded-eq-success,
  of_result-eq-success, compute-eq-success, lift-eq-success,
}
use momoka.Evm.{Ethers, EvmApi, EthereumNode, BlockInfo}
use momoka.Common.{unix_timestamp_to_milliseconds}
use momoka.Proofs.ClosestBlock.{get_closest_block}
use momoka.Proofs.ClosestBlock.Laws.{Among, IsNearest, get_closest_block-IsNearest}
use momoka.Proofs.Publications.Verifier.{
  DaPublicationVerifier, post_verifier, comment_verifier, mirror_verifier, quote_verifier,
  create_da_publication_verifier, verifier_id_matches,
}
use momoka.Proofs.Publications.Accepted.{
  CommentAccepted, MirrorAccepted, QuoteAccepted, check_da_comment-Accepted,
  check_da_mirror-Accepted, check_da_quote-Accepted,
}
use momoka.Proofs.Publications.PostAccepted.{PostAccepted, check_da_post-Accepted}
use momoka.Proofs.Checker.Recognized.{
  IsRecognized, IsGeneratedId, create_da_publication_verifier-Recognized,
  verifier_id_matches-IsGeneratedId,
}
use momoka.Proofs.Checker.Interfaces.{DaProofsVerifier, DaProofsGateway}
use momoka.Proofs.Checker.Steps.{
  validates_timestamp_proof, get_block_range, compare_block, validate_choosen_block, check_by_type,
  check_da_publication,
}

try_catch-eq-success :
    {S A : Type 0} (body : PromiseResult S A) (error : MomokaValidatorError) {a : A} {s s' : S}
    → try_catch body (λ _. fail error) s ≡ (resolved (success a), s')
    → body s ≡ (resolved (success a), s')
unfolding try_catch
try_catch-eq-success {S} {A} body error {a} {s} {s'} h = passed (body s) h
  where
    passed :
        (r : Settled (DaResult A Unit) × S)
        → try_catch (λ _. r) (λ _. fail error) s ≡ (resolved (success a), s')
        → r ≡ (resolved (success a), s')
    passed (resolved b, t) k = k
    passed (rejected message, t) k = cc

module _ {S : Type 0} (verifier : DaProofsVerifier S) where
  -- A receipt that passes was verified, and the timestamp proofs name the publication's type and id.
  pub validates_timestamp_proof-facts :
      (p : DaStructurePublication) (proofs : DaTimestampProofsResponse) (s s' : S)
      → validates_timestamp_proof verifier p proofs s ≡ (resolved (success tt), s')
      → (verifier.verify_timestamp_signature p s ≡ (resolved true, s'))
        × (proofs.type ≡ p.type)
        × (proofs.data_availability_id ≡ p.data_availability_id)
  unfolding validates_timestamp_proof
  validates_timestamp_proof-facts p proofs s s' h =
      chained (lift (verifier.verify_timestamp_signature p)) _ h (λ valid t e h1.
        let (is_valid, h2) = guarded-eq-success valid timestamp_proof_invalid_signature _ h1 in
        let (same_type, h3) =
          guarded-eq-success (proofs.type == p.type) timestamp_proof_invalid_type _ h2 in
        let (same_id, ended) =
          guard-eq-success (proofs.data_availability_id == p.data_availability_id)
            timestamp_proof_invalid_da_id {s = t} {s' = s'} h3 in
        (
          lift-eq-success (verifier.verify_timestamp_signature p) e
              ∙ ap (λ b. (resolved b, t)) is_valid
              ∙ ap (λ x. (resolved true, x)) ended,
          (eq_action.is_same_iff _ _).0 same_type,
          (eq_string.is_same_iff _ _).0 same_id,
        ))

compare_block-facts :
    {S : Type 0} (gateway : DaProofsGateway S) (node : EthereumNode) (block_number : ℤ)
    (closest : BlockInfo) (s s' : S)
    → compare_block gateway node block_number closest s ≡ (resolved (success tt), s')
    → ((closest.number ≡ block_number) ⊎ (closest.number ≡ add_one block_number)) × (s ≡ s')
unfolding compare_block
compare_block-facts gateway node block_number closest s s' h =
    elim (Bool-cases (closest.number == block_number)) [
      | inl e ↦ (inl ((eq_int.is_same_iff _ _).0 e), ground arith)
      | inr e ↦ elim (Bool-cases (closest.number == add_one block_number)) [
        | inl e' ↦ (inr ((eq_int.is_same_iff _ _).0 e'), ground arith)
        | inr e' ↦ ground arith
      ]
    ]

-- The block that is found, in milliseconds written out.
get_closest_block-Among :
    (blocks : List BlockInfo) (timestamp : ℕ) {closest : BlockInfo}
    → get_closest_block blocks timestamp ≡ resolved closest
    → Among closest blocks × IsNearest (timestamp * 1000) closest blocks
unfolding unix_timestamp_to_milliseconds
get_closest_block-Among blocks timestamp h = get_closest_block-IsNearest blocks timestamp h

module _ {S : Type 0} (gateway : DaProofsGateway S) (node : EthereumNode) where
  -- The block is one of the three that the node gave, or the one before it, and of the blocks that are not
  -- after a thousand times the timestamp none is nearer to that time than the one of the three.
  pub record BlockAccepted (block_number : ℤ) (timestamp : ℕ) (s s' : S) : Type 0 where
    pub blocks : List BlockInfo
    pub closest : BlockInfo
    pub is_read :
        gateway.get_block_range
          (sub_one block_number ∷ block_number ∷ add_one block_number ∷ [])
          node
          s
        ≡ (resolved blocks, s')
    pub is_closest : get_closest_block blocks timestamp ≡ resolved closest
    pub is_among : Among closest blocks
    pub is_nearest : IsNearest (timestamp * 1000) closest blocks
    pub is_chosen : (closest.number ≡ block_number) ⊎ (closest.number ≡ add_one block_number)

  get_block_range-eq-success :
      (numbers : List ℤ) {blocks : List BlockInfo} {s s' : S}
      → get_block_range gateway node numbers s ≡ (resolved (success blocks), s')
      → gateway.get_block_range numbers node s ≡ (resolved blocks, s')
  unfolding get_block_range
  get_block_range-eq-success numbers {blocks} {s} {s'} h =
      lift-eq-success (gateway.get_block_range numbers node) (
        try_catch-eq-success (lift (gateway.get_block_range numbers node))
          block_cant_be_read_from_node h)

  -- A chosen block that passes has the number of one of the three blocks that the node gave for its number
  -- and the numbers before and after it, or the number before. No block of the three that is not after a
  -- thousand times the timestamp, which `getClosestBlock` takes for a time in seconds, is nearer to that
  -- time than this one.
  pub validate_choosen_block-BlockAccepted :
      (block_number : ℤ) (timestamp : ℕ) (s s' : S)
      → validate_choosen_block gateway node block_number timestamp s ≡ (resolved (success tt), s')
      → BlockAccepted block_number timestamp s s'
  unfolding validate_choosen_block
  validate_choosen_block-BlockAccepted block_number timestamp s s' h =
      let numbers = sub_one block_number ∷ block_number ∷ add_one block_number ∷ [] in
      chained (get_block_range gateway node numbers)
        (λ blocks.
          compute (get_closest_block blocks timestamp) >>= compare_block gateway node block_number)
        (try_catch-eq-success
          (get_block_range gateway node numbers >>= λ blocks.
            compute (get_closest_block blocks timestamp)
            >>= compare_block gateway node block_number)
          unknown h)
        (λ blocks t e h1.
          chained (compute (get_closest_block blocks timestamp))
            (compare_block gateway node block_number) h1
            (λ closest u e1 h2.
              let (is_closest, same) = compute-eq-success (get_closest_block blocks timestamp) e1 in
              let (is_chosen, ended) =
                compare_block-facts gateway node block_number closest u s' h2 in
              record {
                blocks = blocks;
                closest = closest;
                is_read =
                    get_block_range-eq-success numbers e
                    ∙ ap (λ x. (resolved blocks, x)) (same ∙ ended);
                is_closest = is_closest;
                is_among = (get_closest_block-Among blocks timestamp is_closest).0;
                is_nearest = (get_closest_block-Among blocks timestamp is_closest).1;
                is_chosen = is_chosen;
              }))

module _ {S : Type 0} (ethers : Ethers) (evm : EvmApi S) (check_pointer : String → Async S Bool)
    (verify_pointer : Bool) where
  -- What the verifier of each kind has shown.
  pub AcceptedBy : DaPublicationVerifier → S → S → Type 0
  AcceptedBy (post_verifier v) s s' = PostAccepted ethers evm v s s'
  AcceptedBy (comment_verifier v) s s' =
      CommentAccepted ethers evm check_pointer verify_pointer v s s'
  AcceptedBy (mirror_verifier v) s s' =
      MirrorAccepted ethers evm check_pointer verify_pointer v s s'
  AcceptedBy (quote_verifier v) s s' = QuoteAccepted ethers evm check_pointer verify_pointer v s s'

  check_by_type-AcceptedBy :
      (v : DaPublicationVerifier) (s s' : S)
      → check_by_type ethers evm check_pointer verify_pointer v s ≡ (resolved (success tt), s')
      → AcceptedBy v s s'
  unfolding check_by_type AcceptedBy
  check_by_type-AcceptedBy (post_verifier v) s s' h = check_da_post-Accepted ethers evm v s s' h
  check_by_type-AcceptedBy (comment_verifier v) s s' h =
      check_da_comment-Accepted ethers evm check_pointer verify_pointer v s s' h
  check_by_type-AcceptedBy (mirror_verifier v) s s' h =
      check_da_mirror-Accepted ethers evm check_pointer verify_pointer v s s' h
  check_by_type-AcceptedBy (quote_verifier v) s s' h =
      check_da_quote-Accepted ethers evm check_pointer verify_pointer v s s' h

  -- A publication has the verifier of its kind, its id is generated from its profile, and what the
  -- verifier checks holds.
  pub record PublicationAccepted (p : DaStructurePublication) (s s' : S) : Type 0 where
    pub publication_verifier : DaPublicationVerifier
    pub profile_id : Value
    pub is_recognized : IsRecognized p publication_verifier profile_id
    pub has_its_id : IsGeneratedId p profile_id
    pub is_accepted : AcceptedBy publication_verifier s s'

  -- A publication that passes has the verifier of its kind, V2 if its event has the parameters of that
  -- kind and else V1, which a quote has not; its id is `${profile}-${publication}-DA-${start of the data
  -- availability id}`, with the profile of those parameters or of the event; and what the verifier checks
  -- holds.
  pub check_da_publication-PublicationAccepted :
      (p : DaStructurePublication) (s s' : S)
      → check_da_publication ethers evm check_pointer verify_pointer p s
        ≡ (resolved (success tt), s')
      → PublicationAccepted p s s'
  unfolding check_da_publication
  check_da_publication-PublicationAccepted p s s' h =
      chained (of_result (create_da_publication_verifier p)) _ h (λ v t e h1.
        chained (of_result (verifier_id_matches v))
          (λ _. check_by_type ethers evm check_pointer verify_pointer v) h1
          (λ u w e1 h2.
            let (recognized, same) = of_result-eq-success (create_da_publication_verifier p) e in
            let (matching, same') = of_result-eq-success (verifier_id_matches v) e1 in
            let (profile_id, kind) = create_da_publication_verifier-Recognized p v recognized in
            record {
              publication_verifier = v;
              profile_id = profile_id;
              is_recognized = kind;
              has_its_id = verifier_id_matches-IsGeneratedId p v profile_id kind matching;
              is_accepted =
                  subst (λ x. AcceptedBy v x s') (sym (same ∙ same'))
                    (check_by_type-AcceptedBy v w s' h2);
            }))

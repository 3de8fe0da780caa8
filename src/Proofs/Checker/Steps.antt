-- ===== src/Proofs/Checker/Steps.antt =====
-- The steps of `_checkDAProof` behind the check of who signed the submission.
use momoka.Prelude.{
  ℕ, ℤ, String, Bool, List, [], ◌∷◌, Async, try_catch, ◌==◌, eq_string, eq_int, add_one, sub_one,
  if◌then◌else◌,
}
use momoka.Models.{
  DaStructurePublication, DaTimestampProofsResponse, PromiseResult, succeed, fail, eq_action,
}
use momoka.Models.Errors.{
  timestamp_proof_invalid_signature, timestamp_proof_invalid_type, timestamp_proof_invalid_da_id,
  invalid_event_timestamp, invalid_typed_data_deadline_timestamp, block_cant_be_read_from_node,
  not_closest_block, unknown,
}
use momoka.Models.Chain.{◌>>=◌, ◌>>◌, guard, lift, compute, of_result}
use momoka.Evm.{Ethers, EvmApi, EthereumNode, BlockInfo}
use momoka.Proofs.ClosestBlock.{get_closest_block}
use momoka.Proofs.Utils.{is_valid_event_timestamp, is_valid_typed_data_deadline_timestamp}
use momoka.Proofs.Publications.Post.{check_da_post}
use momoka.Proofs.Publications.Comment.{check_da_comment}
use momoka.Proofs.Publications.Mirror.{check_da_mirror}
use momoka.Proofs.Publications.Quote.{check_da_quote}
use momoka.Proofs.Publications.Verifier.{
  DaPublicationVerifier, post_verifier, comment_verifier, mirror_verifier, quote_verifier,
  create_da_publication_verifier, verifier_id_matches,
}
use momoka.Proofs.Checker.Interfaces.{DaProofsVerifier, DaProofsGateway}

module _ {S : Type 0} (verifier : DaProofsVerifier S) where
  unfoldable pub validates_timestamp_proof :
      DaStructurePublication → DaTimestampProofsResponse → PromiseResult S Unit
  validates_timestamp_proof p timestamp_proofs = do
    valid ← lift (verifier.verify_timestamp_signature p)
    guard valid timestamp_proof_invalid_signature
    guard (timestamp_proofs.type == p.type) timestamp_proof_invalid_type
    guard (timestamp_proofs.data_availability_id == p.data_availability_id)
        timestamp_proof_invalid_da_id

module _ {S : Type 0} (gateway : DaProofsGateway S) (ethereum_node : EthereumNode) where
  unfoldable pub get_block_range : List ℤ → PromiseResult S (List BlockInfo)
  get_block_range block_numbers =
      try_catch (lift (gateway.get_block_range block_numbers ethereum_node))
        (λ _. fail block_cant_be_read_from_node)

  -- Whether the closest block is the chosen one, or the next.
  unfoldable pub compare_block : ℤ → BlockInfo → PromiseResult S Unit
  compare_block block_number closest_block =
      if closest_block.number == block_number
      then succeed tt
      else if closest_block.number == add_one block_number
      then succeed tt
      else fail not_closest_block

  unfoldable pub validate_choosen_block : ℤ → ℕ → PromiseResult S Unit
  validate_choosen_block block_number timestamp =
      try_catch
        (do
          blocks ← get_block_range (sub_one block_number ∷ block_number ∷ add_one block_number ∷ [])
          closest_block ← compute (get_closest_block blocks timestamp)
          compare_block block_number closest_block)
        (λ _. fail unknown)

module _ {S : Type 0} (ethers : Ethers) (evm : EvmApi S) (check_pointer : String → Async S Bool)
    (verify_pointer : Bool) where
  -- The `switch` of `checkDAPublication`.
  unfoldable pub check_by_type : DaPublicationVerifier → PromiseResult S Unit
  check_by_type (post_verifier v) = check_da_post ethers evm v
  check_by_type (comment_verifier v) = check_da_comment ethers evm check_pointer verify_pointer v
  check_by_type (mirror_verifier v) = check_da_mirror ethers evm check_pointer verify_pointer v
  check_by_type (quote_verifier v) = check_da_quote ethers evm check_pointer verify_pointer v

  unfoldable pub check_da_publication : DaStructurePublication → PromiseResult S Unit
  check_da_publication p = do
    publication_verifier ← of_result (create_da_publication_verifier p)
    of_result (verifier_id_matches publication_verifier)
    check_by_type publication_verifier

module _ {S : Type 0} (verifier : DaProofsVerifier S) (gateway : DaProofsGateway S)
    (ethers : Ethers) (evm : EvmApi S) (ethereum_node : EthereumNode)
    (check_pointer : String → Async S Bool) (verify_pointer : Bool) where
  unfoldable pub check_extracted :
      DaStructurePublication → DaTimestampProofsResponse → PromiseResult S DaStructurePublication
  check_extracted p timestamp_proofs = do
    validates_timestamp_proof verifier p timestamp_proofs
    guard (is_valid_event_timestamp p) invalid_event_timestamp
    guard (is_valid_typed_data_deadline_timestamp p) invalid_typed_data_deadline_timestamp
    validate_choosen_block gateway ethereum_node p.chain_proofs.this_publication.block_number
        p.timestamp_proofs.response.timestamp
    check_da_publication ethers evm check_pointer verify_pointer p
    succeed p

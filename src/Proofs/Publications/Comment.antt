-- ===== src/Proofs/Publications/Comment.antt =====
-- proofs/publications/comment: da-comment-verifier-v1.ts, da-comment-verifier-v2.ts, index.ts.
use momoka.Prelude.{
  String, Bool, not, ◌&&◌, Option, none, [], ◌∷◌, settle, is_present, ◌==◌, if◌then◌else◌, Async,
}
use momoka.Models.{DaStructurePublication, EventParams, PromiseResult, comment_created, eq_action}
use momoka.Models.Chain.{◌>>=◌, ◌>>◌}
use momoka.Evm.{Ethers, EvmApi}
use momoka.Proofs.Publications.Checks.{
  Verdict, any_of, differs, arrays_differ, is_not_empty, empty_byte, next_pub_id_differs,
  unless_mismatch, matched,
}
use momoka.Proofs.Publications.Base.{verify_signer_v1, verify_signer_v2, verify_pointer_first}

unfoldable pub is_da_comment_publication_v1 : DaStructurePublication → Bool
is_da_comment_publication_v1 p =
    p.type == comment_created && not (is_present p.event.comment_params)

-- The parameters, if the publication is a V2 comment.
unfoldable pub is_da_comment_publication_v2 : DaStructurePublication → Option EventParams
is_da_comment_publication_v2 p = if p.type == comment_created then p.event.comment_params else none

module _ (ethers : Ethers) where
  -- `DACommentVerifierV1.verifyEventWithTypedData`
  unfoldable pub verify_comment_event_v1 : DaStructurePublication → String → Verdict
  verify_comment_event_v1 p pub_count_at_block =
      let event = p.event in
      let value = p.chain_proofs.this_publication.typed_data.value in
      unless_mismatch (next_pub_id_differs ethers pub_count_at_block event.pub_id) (
        unless_mismatch
          (any_of (
            differs value.profile_id event.profile_id
            ∷ differs value.content_uri event.content_uri
            ∷ differs value.profile_id_pointed event.profile_id_pointed
            ∷ differs value.pub_id_pointed event.pub_id_pointed
            ∷ differs value.collect_module event.collect_module
            ∷ differs event.collect_module_return_data empty_byte
            ∷ differs value.reference_module event.reference_module
            ∷ differs event.reference_module_return_data empty_byte
            ∷ differs value.collect_module_init_data empty_byte
            ∷ differs value.reference_module_init_data empty_byte
            ∷ []))
          matched)

  -- `DACommentVerifierV2.verifyEventWithTypedData`
  unfoldable pub verify_comment_event_v2 : EventParams → DaStructurePublication → String → Verdict
  verify_comment_event_v2 params p pub_count_at_block =
      let event = p.event in
      let value = p.chain_proofs.this_publication.typed_data.value in
      unless_mismatch (next_pub_id_differs ethers pub_count_at_block event.pub_id) (
        unless_mismatch
          (any_of (
            differs value.profile_id params.profile_id
            ∷ differs value.content_uri params.content_uri
            ∷ differs value.pointed_profile_id params.pointed_profile_id
            ∷ differs value.pointed_pub_id params.pointed_pub_id
            ∷ arrays_differ value.action_modules params.action_modules
            ∷ arrays_differ value.action_modules_init_datas params.action_modules_init_datas
            ∷ differs value.reference_module params.reference_module
            ∷ differs value.reference_module_init_data params.reference_module_init_data
            ∷ arrays_differ value.referrer_profile_ids params.referrer_profile_ids
            ∷ arrays_differ value.referrer_pub_ids params.referrer_pub_ids
            ∷ is_not_empty event.action_modules_init_return_datas
            ∷ differs event.reference_module_return_data empty_byte
            ∷ differs event.reference_module_init_return_data empty_byte
            ∷ []))
          matched)

pub data DaCommentVerifier : Type 0 where
  comment_v1 : DaStructurePublication → DaCommentVerifier
  comment_v2 : EventParams → DaStructurePublication → DaCommentVerifier

module _ {S : Type 0} (ethers : Ethers) (evm : EvmApi S) (check_pointer : String → Async S Bool)
    (verify_pointer : Bool) where
  unfoldable pub check_da_comment : DaCommentVerifier → PromiseResult S Unit
  check_da_comment (comment_v1 p) = do
    verify_pointer_first check_pointer verify_pointer p.chain_proofs.pointer
    signer ← verify_signer_v1 ethers evm p
    settle (verify_comment_event_v1 ethers p signer.current_publication_id)
  check_da_comment (comment_v2 params p) = do
    verify_pointer_first check_pointer verify_pointer p.chain_proofs.pointer
    signer ← verify_signer_v2 ethers evm p
    settle (verify_comment_event_v2 ethers params p signer.current_publication_id)

-- ===== src/Proofs/Publications/Quote.antt =====
-- proofs/publications/quote: da-quote-verifier-v2.ts, index.ts. Quotes have no V1.
use momoka.Prelude.{String, Bool, Option, none, [], ◌∷◌, settle, ◌==◌, if◌then◌else◌, Async}
use momoka.Models.{DaStructurePublication, EventParams, PromiseResult, quote_created, eq_action}
use momoka.Models.Chain.{◌>>=◌, ◌>>◌}
use momoka.Evm.{Ethers, EvmApi}
use momoka.Proofs.Publications.Checks.{
  Verdict, any_of, differs, arrays_differ, is_not_empty, empty_byte, next_pub_id_differs,
  unless_mismatch, matched,
}
use momoka.Proofs.Publications.Base.{verify_signer_v2, verify_pointer_first}

-- The parameters, if the publication is a V2 quote.
unfoldable pub is_da_quote_publication_v2 : DaStructurePublication → Option EventParams
is_da_quote_publication_v2 p = if p.type == quote_created then p.event.quote_params else none

module _ (ethers : Ethers) where
  -- `DAQuoteVerifierV2.verifyEventWithTypedData`
  unfoldable pub verify_quote_event_v2 : EventParams → DaStructurePublication → String → Verdict
  verify_quote_event_v2 params p pub_count_at_block =
      let event = p.event in
      let value = p.chain_proofs.this_publication.typed_data.value in
      unless_mismatch (next_pub_id_differs ethers pub_count_at_block event.pub_id) (
        unless_mismatch
          (any_of (
            differs value.profile_id params.profile_id
            ∷ differs value.content_uri params.content_uri
            ∷ differs value.pointed_profile_id params.pointed_profile_id
            ∷ differs value.pointed_pub_id params.pointed_pub_id
            ∷ arrays_differ value.action_modules params.action_modules
            ∷ arrays_differ value.action_modules_init_datas params.action_modules_init_datas
            ∷ differs value.reference_module params.reference_module
            ∷ differs value.reference_module_init_data params.reference_module_init_data
            ∷ arrays_differ value.referrer_profile_ids params.referrer_profile_ids
            ∷ arrays_differ value.referrer_pub_ids params.referrer_pub_ids
            ∷ is_not_empty event.action_modules_init_return_datas
            ∷ differs event.reference_module_return_data empty_byte
            ∷ differs event.reference_module_init_return_data empty_byte
            ∷ []))
          matched)

pub data DaQuoteVerifier : Type 0 where
  quote_v2 : EventParams → DaStructurePublication → DaQuoteVerifier

module _ {S : Type 0} (ethers : Ethers) (evm : EvmApi S) (check_pointer : String → Async S Bool)
    (verify_pointer : Bool) where
  unfoldable pub check_da_quote : DaQuoteVerifier → PromiseResult S Unit
  check_da_quote (quote_v2 params p) = do
    verify_pointer_first check_pointer verify_pointer p.chain_proofs.pointer
    signer ← verify_signer_v2 ethers evm p
    settle (verify_quote_event_v2 ethers params p signer.current_publication_id)

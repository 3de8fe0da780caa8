-- ===== src/Proofs/Publications/Events/Quote.antt =====
-- When the event of a quote passes `verifyEventWithTypedData`.
use momoka.Prelude.{String, some, resolved, ◌≡◌, ◌↔◌, [], ◌∷◌}
use momoka.Models.{success, DaStructurePublication, EventParams}
use momoka.Evm.{Ethers}
use momoka.Proofs.Publications.Checks.{empty_byte, Same, SameArrays}
use momoka.Proofs.Publications.Quote.{verify_quote_event_v2}
use momoka.Proofs.Publications.Events.{
  AllOf, IsNextPubId, differs_iff, arrays_differ_iff, is_not_empty_iff, next_pub_id_differs_iff,
  done, ◌&◌, checked_in_turn,
}

module _ (ethers : Ethers) where
  -- What the event of a V2 quote and its typed data have to agree on.
  unfoldable pub IsQuoteEventV2 : EventParams → DaStructurePublication → String → Type 0
  IsQuoteEventV2 params p count =
      let event = p.event in
      let value = p.chain_proofs.this_publication.typed_data.value in
      AllOf (
        IsNextPubId ethers count event.pub_id
        ∷ Same value.profile_id params.profile_id
        ∷ Same value.content_uri params.content_uri
        ∷ Same value.pointed_profile_id params.pointed_profile_id
        ∷ Same value.pointed_pub_id params.pointed_pub_id
        ∷ SameArrays value.action_modules params.action_modules
        ∷ SameArrays value.action_modules_init_datas params.action_modules_init_datas
        ∷ Same value.reference_module params.reference_module
        ∷ Same value.reference_module_init_data params.reference_module_init_data
        ∷ SameArrays value.referrer_profile_ids params.referrer_profile_ids
        ∷ SameArrays value.referrer_pub_ids params.referrer_pub_ids
        ∷ (event.action_modules_init_return_datas ≡ some [])
        ∷ Same event.reference_module_return_data empty_byte
        ∷ Same event.reference_module_init_return_data empty_byte
        ∷ [])

  -- A quote's event passes exactly when its id is the one after the profile's count, each field of
  -- the typed data, the pointer and the referrers too, is the parameters', and no module returned
  -- anything.
  pub verify_quote_event_v2-eq-success_iff :
      (params : EventParams) (p : DaStructurePublication) (count : String)
      → (verify_quote_event_v2 ethers params p count ≡ resolved (success tt))
        ↔ IsQuoteEventV2 params p count
  unfolding verify_quote_event_v2 IsQuoteEventV2
  verify_quote_event_v2-eq-success_iff params p count =
      checked_in_turn (next_pub_id_differs_iff ethers count p.event.pub_id) (
        differs_iff _ _
        & differs_iff _ _
        & differs_iff _ _
        & differs_iff _ _
        & arrays_differ_iff _ _
        & arrays_differ_iff _ _
        & differs_iff _ _
        & differs_iff _ _
        & arrays_differ_iff _ _
        & arrays_differ_iff _ _
        & is_not_empty_iff _
        & differs_iff _ _
        & differs_iff _ _
        & done)

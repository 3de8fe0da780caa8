-- ===== src/Proofs/Publications/Events/Mirror.antt =====
-- When the event of a mirror passes `verifyEventWithTypedData`.
use momoka.Prelude.{String, resolved, ◌≡◌, ◌↔◌, [], ◌∷◌}
use momoka.Models.{success, DaStructurePublication, EventParams}
use momoka.Evm.{Ethers}
use momoka.Proofs.Publications.Checks.{empty_byte, Same, SameArrays}
use momoka.Proofs.Publications.Mirror.{verify_mirror_event_v1, verify_mirror_event_v2}
use momoka.Proofs.Publications.Events.{
  AllOf, IsNextPubId, differs_iff, arrays_differ_iff, next_pub_id_differs_iff, done, ◌&◌,
  checked_in_turn,
}

module _ (ethers : Ethers) where
  -- What the event of a V1 mirror and its typed data have to agree on.
  unfoldable pub IsMirrorEventV1 : DaStructurePublication → String → Type 0
  IsMirrorEventV1 p count =
      let event = p.event in
      let value = p.chain_proofs.this_publication.typed_data.value in
      AllOf (
        IsNextPubId ethers count event.pub_id
        ∷ Same value.profile_id event.profile_id
        ∷ Same value.profile_id_pointed event.profile_id_pointed
        ∷ Same value.pub_id_pointed event.pub_id_pointed
        ∷ Same value.reference_module event.reference_module
        ∷ Same event.reference_module_return_data empty_byte
        ∷ Same value.reference_module_init_data empty_byte
        ∷ [])

  -- A V1 mirror's event passes exactly when its id is the one after the profile's count, each
  -- field of the typed data is the event's, and the remaining module data are empty.
  pub verify_mirror_event_v1-eq-success_iff :
      (p : DaStructurePublication) (count : String)
      → (verify_mirror_event_v1 ethers p count ≡ resolved (success tt)) ↔ IsMirrorEventV1 p count
  unfolding verify_mirror_event_v1 IsMirrorEventV1
  verify_mirror_event_v1-eq-success_iff p count =
      checked_in_turn (next_pub_id_differs_iff ethers count p.event.pub_id) (
        differs_iff _ _
        & differs_iff _ _
        & differs_iff _ _
        & differs_iff _ _
        & differs_iff _ _
        & differs_iff _ _
        & done)

  -- What the event of a V2 mirror and its typed data have to agree on.
  unfoldable pub IsMirrorEventV2 : EventParams → DaStructurePublication → String → Type 0
  IsMirrorEventV2 params p count =
      let event = p.event in
      let value = p.chain_proofs.this_publication.typed_data.value in
      AllOf (
        IsNextPubId ethers count event.pub_id
        ∷ Same value.profile_id params.profile_id
        ∷ Same value.metadata_uri params.metadata_uri
        ∷ Same value.pointed_profile_id params.pointed_profile_id
        ∷ Same value.pointed_pub_id params.pointed_pub_id
        ∷ SameArrays value.referrer_profile_ids params.referrer_profile_ids
        ∷ SameArrays value.referrer_pub_ids params.referrer_pub_ids
        ∷ Same event.reference_module_return_data empty_byte
        ∷ [])

  -- A V2 mirror's event passes exactly when its id is the one after the profile's count, each
  -- field of the typed data, the pointer and the referrers too, is the parameters', and the
  -- reference module returned nothing.
  pub verify_mirror_event_v2-eq-success_iff :
      (params : EventParams) (p : DaStructurePublication) (count : String)
      → (verify_mirror_event_v2 ethers params p count ≡ resolved (success tt))
        ↔ IsMirrorEventV2 params p count
  unfolding verify_mirror_event_v2 IsMirrorEventV2
  verify_mirror_event_v2-eq-success_iff params p count =
      checked_in_turn (next_pub_id_differs_iff ethers count p.event.pub_id) (
        differs_iff _ _
        & differs_iff _ _
        & differs_iff _ _
        & differs_iff _ _
        & arrays_differ_iff _ _
        & arrays_differ_iff _ _
        & differs_iff _ _
        & done)

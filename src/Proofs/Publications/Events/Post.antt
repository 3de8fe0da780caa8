-- ===== src/Proofs/Publications/Events/Post.antt =====
-- When the event of a post passes `verifyEventWithTypedData`.
use momoka.Prelude.{String, some, resolved, ◌≡◌, ◌↔◌, [], ◌∷◌}
use momoka.Models.{success, DaStructurePublication, EventParams}
use momoka.Evm.{Ethers}
use momoka.Proofs.Publications.Checks.{empty_byte, Same, SameArrays}
use momoka.Proofs.Publications.Post.{verify_post_event_v1, verify_post_event_v2}
use momoka.Proofs.Publications.Events.{
  AllOf, IsSameNumber, differs_iff, arrays_differ_iff, is_not_empty_iff, number_differs_iff, done,
  ◌&◌, checked_at_once,
}

module _ (ethers : Ethers) where
  -- What the event of a V1 post and its typed data have to agree on.
  unfoldable pub IsPostEventV1 : DaStructurePublication → String → Type 0
  IsPostEventV1 p count =
      let event = p.event in
      let value = p.chain_proofs.this_publication.typed_data.value in
      AllOf (
        IsSameNumber ethers count event.pub_id
        ∷ Same value.profile_id event.profile_id
        ∷ Same value.content_uri event.content_uri
        ∷ Same value.collect_module event.collect_module
        ∷ Same event.collect_module_return_data empty_byte
        ∷ Same value.reference_module event.reference_module
        ∷ Same event.reference_module_return_data empty_byte
        ∷ Same value.collect_module_init_data empty_byte
        ∷ Same value.reference_module_init_data empty_byte
        ∷ [])

  -- A V1 post's event passes exactly when the simulated id is the event's id as a number, each
  -- field of the typed data is the event's, and the remaining module data are empty.
  pub verify_post_event_v1-eq-success_iff :
      (p : DaStructurePublication) (count : String)
      → (verify_post_event_v1 ethers p count ≡ resolved (success tt)) ↔ IsPostEventV1 p count
  unfolding verify_post_event_v1 IsPostEventV1
  verify_post_event_v1-eq-success_iff p count = checked_at_once (
      number_differs_iff ethers count p.event.pub_id
      & differs_iff _ _
      & differs_iff _ _
      & differs_iff _ _
      & differs_iff _ _
      & differs_iff _ _
      & differs_iff _ _
      & differs_iff _ _
      & differs_iff _ _
      & done)

  -- What the event of a V2 post and its typed data have to agree on.
  unfoldable pub IsPostEventV2 : EventParams → DaStructurePublication → String → Type 0
  IsPostEventV2 params p count =
      let event = p.event in
      let value = p.chain_proofs.this_publication.typed_data.value in
      AllOf (
        IsSameNumber ethers count event.pub_id
        ∷ Same value.profile_id params.profile_id
        ∷ Same value.content_uri params.content_uri
        ∷ SameArrays value.action_modules params.action_modules
        ∷ SameArrays value.action_modules_init_datas params.action_modules_init_datas
        ∷ Same value.reference_module params.reference_module
        ∷ Same value.reference_module_init_data params.reference_module_init_data
        ∷ (event.action_modules_init_return_datas ≡ some [])
        ∷ Same event.reference_module_init_return_data empty_byte
        ∷ [])

  -- A V2 post's event passes exactly when the simulated id is the event's id as a number, each
  -- field of the typed data is the parameters', and no module returned anything.
  pub verify_post_event_v2-eq-success_iff :
      (params : EventParams) (p : DaStructurePublication) (count : String)
      → (verify_post_event_v2 ethers params p count ≡ resolved (success tt))
        ↔ IsPostEventV2 params p count
  unfolding verify_post_event_v2 IsPostEventV2
  verify_post_event_v2-eq-success_iff params p count = checked_at_once (
      number_differs_iff ethers count p.event.pub_id
      & differs_iff _ _
      & differs_iff _ _
      & arrays_differ_iff _ _
      & arrays_differ_iff _ _
      & differs_iff _ _
      & differs_iff _ _
      & is_not_empty_iff _
      & differs_iff _ _
      & done)

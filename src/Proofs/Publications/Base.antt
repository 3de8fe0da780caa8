-- ===== src/Proofs/Publications/Base.antt =====
-- publication.base.ts, and the two abstract verifiers: da-publication-verifier-v1.ts and
-- da-publication-verifier-v2.ts.
use momoka.Prelude.{
  String, Bool, not, ◌&&◌, List, Settled, resolved, rejected, ◌==◌, eq_string, if◌then◌else◌, Async,
  true, false, Option, none, some,
}
use momoka.Models.{
  Value, number, strictly_equal, TypedDataDomain, TypedDataField, TypedDataValue,
  DaStructurePublication, DaResult, success, failure, PromiseResult, succeed, fail,
  DaPublicationPointerType, on_da, on_evm_chain, PublicationPointer,
}
use momoka.Models.Errors.{
  invalid_formatted_typed_data, generated_publication_id_mismatch, publication_nonce_invalid,
  publication_signer_not_allowed, pointer_failed_verification, publication_no_pointer,
  publication_none_da,
}
use momoka.Models.Chain.{◌>>=◌, ◌>>◌, guard, lift}
use momoka.Evm.{Ethers, EvmApi, SignerDetails, ProfileDetailsV1, ProfileDetailsV2}
use momoka.Proofs.Utils.{generate_publication_id}

-- The comparison of the generated id with the publication's, of every verifier. `profile_id` is where
-- the verifier finds the profile: in a V1 event itself, or in the parameters of a V2 event.
unfoldable pub verify_publication_id_matches : Value → DaStructurePublication → DaResult Unit Unit
verify_publication_id_matches profile_id da_publication =
    if not (
      generate_publication_id profile_id da_publication.event.pub_id
        da_publication.data_availability_id
      == da_publication.publication_id)
    then failure generated_publication_id_mismatch
    else success tt

unfoldable pub caught : Settled String → DaResult String Unit
caught (resolved address) = success address
caught (rejected _) = failure invalid_formatted_typed_data

module _ {S : Type 0} (ethers : Ethers) where
  unfoldable pub who_signed_typed_data :
      TypedDataDomain
      → List (String × List TypedDataField)
      → TypedDataValue
      → String
      → PromiseResult S String
  unfolding caught
  who_signed_typed_data domain types value signature s =
      (resolved (caught (ethers.verify_typed_data domain types value signature)), s)

module _ {S : Type 0} where
  -- What `DAPublicationVerifierV1.verifySigner` does with the profile's details.
  unfoldable pub checked_details_v1 :
      DaStructurePublication → String → ProfileDetailsV1 → PromiseResult S SignerDetails
  checked_details_v1 da_publication who_signed details = do
    guard
        (strictly_equal (number details.sig_nonce)
          da_publication.chain_proofs.this_publication.typed_data.value.nonce)
        publication_nonce_invalid
    guard
        (not (
          not (details.dispatcher_address == who_signed)
          && not (details.owner_of_address == who_signed)))
        publication_signer_not_allowed
    succeed (record {
      current_publication_id = details.current_publication_id;
      owner_of_address = details.owner_of_address;
    })

  -- What `DAPublicationVerifierV2.verifySigner` does with the profile's details.
  unfoldable pub checked_details_v2 :
      DaStructurePublication → String → ProfileDetailsV2 → PromiseResult S SignerDetails
  checked_details_v2 da_publication who_signed details = do
    guard
        (strictly_equal (number details.nonces)
          da_publication.chain_proofs.this_publication.typed_data.value.nonce)
        publication_nonce_invalid
    guard
        (not
          (not (details.owner_of_address == who_signed) && not details.is_signer_approved_executor))
        publication_signer_not_allowed
    succeed (record {
      current_publication_id = details.current_publication_id;
      owner_of_address = details.owner_of_address;
    })

module _ {S : Type 0} (ethers : Ethers) (evm : EvmApi S) where
  -- `DAPublicationVerifierV1.verifySigner`
  unfoldable pub verify_signer_v1 : DaStructurePublication → PromiseResult S SignerDetails
  unfolding checked_details_v1
  verify_signer_v1 da_publication = do
    let proof = da_publication.chain_proofs.this_publication
    let typed_data = proof.typed_data
    who_signed ←
        who_signed_typed_data ethers typed_data.domain typed_data.types typed_data.value
          proof.signature
    details ←
        evm.lens_hub_v1.get_on_chain_profile_details proof.block_number typed_data.value.profile_id
          who_signed
    checked_details_v1 da_publication who_signed details

  -- `DAPublicationVerifierV2.verifySigner`
  unfoldable pub verify_signer_v2 : DaStructurePublication → PromiseResult S SignerDetails
  unfolding checked_details_v2
  verify_signer_v2 da_publication = do
    let proof = da_publication.chain_proofs.this_publication
    let typed_data = proof.typed_data
    who_signed ←
        who_signed_typed_data ethers typed_data.domain typed_data.types typed_data.value
          proof.signature
    details ←
        evm.lens_hub_v2.get_on_chain_profile_details proof.block_number typed_data.value.profile_id
          who_signed
    checked_details_v2 da_publication who_signed details

abbrev pub is_on_da : DaPublicationPointerType → Bool
is_on_da on_da = true
is_on_da on_evm_chain = false

-- The pointer of a comment, a mirror or a quote: there is one, it is on the data availability layer,
-- and, if asked for, what it points at passes its own check (`checker.checkDAProof`).
module _ {S : Type 0} (check_pointer : String → Async S Bool) (verify_pointer : Bool) where
  unfoldable pub check_location : String → PromiseResult S Unit
  check_location location =
      if verify_pointer
      then (do passed ← lift (check_pointer location); guard passed pointer_failed_verification)
      else succeed tt

  unfoldable pub verify_pointer_first : Option PublicationPointer → PromiseResult S Unit
  verify_pointer_first none = fail publication_no_pointer
  verify_pointer_first (some pointer) = do
    guard (is_on_da pointer.type) publication_none_da
    check_location pointer.location

-- ===== src/Proofs/Publications/Signers.antt =====
-- What a success of `verifySigner` says of the signer.
use momoka.Prelude.{
  String, Bool, true, not, ◌&&◌, List, Settled, resolved, rejected, ◌≡◌, ◌⊎◌, ◌==◌, eq_string,
  eq_iff, arith, sym, ap,
}
use momoka.Models.{
  strictly_equal, number, DaStructurePublication, TypedDataDomain, TypedDataField, TypedDataValue,
  success,
}
use momoka.Models.Errors.{publication_nonce_invalid, publication_signer_not_allowed}
use momoka.Models.Chain.{chained, succeed-eq-success, guarded-eq-success}
use momoka.Evm.{Ethers, EvmApi, SignerDetails, ProfileDetailsV1, ProfileDetailsV2}
use momoka.Proofs.Publications.Checks.{Same}
use momoka.Proofs.Publications.Base.{
  caught, who_signed_typed_data, verify_signer_v1, checked_details_v1, checked_details_v2,
  verify_signer_v2,
}

caught-eq-success : (r : Settled String) {who : String} → caught r ≡ success who → r ≡ resolved who
unfolding caught
caught-eq-success (resolved address) h = cc
caught-eq-success (rejected message) h = cc

-- `!(a !== who && b !== who)`
either_is_who :
    (a b who : String) → not (not (a == who) && not (b == who)) ≡ true → (a ≡ who) ⊎ (b ≡ who)
either_is_who a b who h = ground (arith, eq_iff a who, eq_iff b who)

is_owner_or_approved :
    (owner who : String) (approved : Bool)
    → not (not (owner == who) && not approved) ≡ true
    → (owner ≡ who) ⊎ (approved ≡ true)
is_owner_or_approved owner who approved h = ground (arith, eq_iff owner who)

module _ {S : Type 0} (ethers : Ethers) where
  pub who_signed_typed_data-eq-success :
      (domain : TypedDataDomain) (types : List (String × List TypedDataField))
      (value : TypedDataValue) (signature : String) {who : String} {s s' : S}
      → who_signed_typed_data ethers domain types value signature s ≡ (resolved (success who), s')
      → (ethers.verify_typed_data domain types value signature ≡ resolved who) × (s ≡ s')
  unfolding who_signed_typed_data
  who_signed_typed_data-eq-success domain types value signature h =
      (caught-eq-success (ethers.verify_typed_data domain types value signature) cc, cc)

  module _ (evm : EvmApi S) where
    -- The signer of a V1 publication: the key that made the signature is the profile's owner's or its
    -- dispatcher's at the block, and the nonce is the profile's there.
    pub record SignerAllowedV1 (p : DaStructurePublication) (details : SignerDetails) (s s' : S)
        : Type 0 where
      pub who_signed : String
      pub profile : ProfileDetailsV1
      pub recovered :
          ethers.verify_typed_data p.chain_proofs.this_publication.typed_data.domain
            p.chain_proofs.this_publication.typed_data.types
            p.chain_proofs.this_publication.typed_data.value
            p.chain_proofs.this_publication.signature
          ≡ resolved who_signed
      pub looked_up :
          evm.lens_hub_v1.get_on_chain_profile_details p.chain_proofs.this_publication.block_number
            p.chain_proofs.this_publication.typed_data.value.profile_id who_signed s
          ≡ (resolved (success profile), s')
      pub nonce_is_current :
          Same (number profile.sig_nonce) p.chain_proofs.this_publication.typed_data.value.nonce
      pub is_allowed :
          (profile.dispatcher_address ≡ who_signed) ⊎ (profile.owner_of_address ≡ who_signed)
      pub counted : details.current_publication_id ≡ profile.current_publication_id

    allowed_signer_v1 :
        (p : DaStructurePublication) (who : String) (profile : ProfileDetailsV1)
        {details : SignerDetails} {s t u s' : S}
        → who_signed_typed_data ethers p.chain_proofs.this_publication.typed_data.domain
            p.chain_proofs.this_publication.typed_data.types
            p.chain_proofs.this_publication.typed_data.value
            p.chain_proofs.this_publication.signature s
          ≡ (resolved (success who), t)
        → evm.lens_hub_v1.get_on_chain_profile_details p.chain_proofs.this_publication.block_number
            p.chain_proofs.this_publication.typed_data.value.profile_id who t
          ≡ (resolved (success profile), u)
        → checked_details_v1 p who profile u ≡ (resolved (success details), s')
        → SignerAllowedV1 p details s s'
    unfolding checked_details_v1
    allowed_signer_v1 p who profile {details} {s} {t} {u} {s'} e e2 h =
        let data' = p.chain_proofs.this_publication.typed_data in
        let (recovered, same) =
          who_signed_typed_data-eq-success data'.domain data'.types data'.value
            p.chain_proofs.this_publication.signature e in
        let (nonce, h3) =
          guarded-eq-success (strictly_equal (number profile.sig_nonce) data'.value.nonce)
            publication_nonce_invalid _ h in
        let (allowed, h4) =
          guarded-eq-success
            (not (not (profile.dispatcher_address == who) && not (profile.owner_of_address == who)))
            publication_signer_not_allowed _ h3 in
        let (detailed, ended) = succeed-eq-success h4 in
        record {
          who_signed = who;
          profile = profile;
          recovered = recovered;
          looked_up = rw (same, ← ended) e2;
          nonce_is_current = nonce;
          is_allowed =
              either_is_who profile.dispatcher_address profile.owner_of_address who allowed;
          counted = sym (ap (λ d. d.current_publication_id) detailed);
        }

    -- A V1 publication's signer that passes is allowed.
    pub verify_signer_v1-SignerAllowed :
        (p : DaStructurePublication) {details : SignerDetails} {s s' : S}
        → verify_signer_v1 ethers evm p s ≡ (resolved (success details), s')
        → SignerAllowedV1 p details s s'
    unfolding verify_signer_v1 checked_details_v1
    verify_signer_v1-SignerAllowed p {details} {s} {s'} h =
        let proof = p.chain_proofs.this_publication in
        let data' = proof.typed_data in
        chained (who_signed_typed_data ethers data'.domain data'.types data'.value proof.signature)
          _ h
          (λ who t e h1.
            chained
              (evm.lens_hub_v1.get_on_chain_profile_details proof.block_number
                data'.value.profile_id who)
              _ h1 (λ profile u e2 h2. allowed_signer_v1 p who profile e e2 h2))

    -- The signer of a V2 publication: the key that made the signature is the profile's owner's or
    -- that of an approved executor at the block, and the nonce is the profile's there.
    pub record SignerAllowedV2 (p : DaStructurePublication) (details : SignerDetails) (s s' : S)
        : Type 0 where
      pub who_signed : String
      pub profile : ProfileDetailsV2
      pub recovered :
          ethers.verify_typed_data p.chain_proofs.this_publication.typed_data.domain
            p.chain_proofs.this_publication.typed_data.types
            p.chain_proofs.this_publication.typed_data.value
            p.chain_proofs.this_publication.signature
          ≡ resolved who_signed
      pub looked_up :
          evm.lens_hub_v2.get_on_chain_profile_details p.chain_proofs.this_publication.block_number
            p.chain_proofs.this_publication.typed_data.value.profile_id who_signed s
          ≡ (resolved (success profile), s')
      pub nonce_is_current :
          Same (number profile.nonces) p.chain_proofs.this_publication.typed_data.value.nonce
      pub is_allowed :
          (profile.owner_of_address ≡ who_signed) ⊎ (profile.is_signer_approved_executor ≡ true)
      pub counted : details.current_publication_id ≡ profile.current_publication_id

    allowed_signer_v2 :
        (p : DaStructurePublication) (who : String) (profile : ProfileDetailsV2)
        {details : SignerDetails} {s t u s' : S}
        → who_signed_typed_data ethers p.chain_proofs.this_publication.typed_data.domain
            p.chain_proofs.this_publication.typed_data.types
            p.chain_proofs.this_publication.typed_data.value
            p.chain_proofs.this_publication.signature s
          ≡ (resolved (success who), t)
        → evm.lens_hub_v2.get_on_chain_profile_details p.chain_proofs.this_publication.block_number
            p.chain_proofs.this_publication.typed_data.value.profile_id who t
          ≡ (resolved (success profile), u)
        → checked_details_v2 p who profile u ≡ (resolved (success details), s')
        → SignerAllowedV2 p details s s'
    unfolding checked_details_v2
    allowed_signer_v2 p who profile {details} {s} {t} {u} {s'} e e2 h =
        let data' = p.chain_proofs.this_publication.typed_data in
        let (recovered, same) =
          who_signed_typed_data-eq-success data'.domain data'.types data'.value
            p.chain_proofs.this_publication.signature e in
        let (nonce, h3) =
          guarded-eq-success (strictly_equal (number profile.nonces) data'.value.nonce)
            publication_nonce_invalid _ h in
        let (allowed, h4) =
          guarded-eq-success
            (not (not (profile.owner_of_address == who) && not profile.is_signer_approved_executor))
            publication_signer_not_allowed _ h3 in
        let (detailed, ended) = succeed-eq-success h4 in
        record {
          who_signed = who;
          profile = profile;
          recovered = recovered;
          looked_up = rw (same, ← ended) e2;
          nonce_is_current = nonce;
          is_allowed =
              is_owner_or_approved profile.owner_of_address who profile.is_signer_approved_executor
                allowed;
          counted = sym (ap (λ d. d.current_publication_id) detailed);
        }

    -- A V2 publication's signer that passes is allowed.
    pub verify_signer_v2-SignerAllowed :
        (p : DaStructurePublication) {details : SignerDetails} {s s' : S}
        → verify_signer_v2 ethers evm p s ≡ (resolved (success details), s')
        → SignerAllowedV2 p details s s'
    unfolding verify_signer_v2 checked_details_v2
    verify_signer_v2-SignerAllowed p {details} {s} {s'} h =
        let proof = p.chain_proofs.this_publication in
        let data' = proof.typed_data in
        chained (who_signed_typed_data ethers data'.domain data'.types data'.value proof.signature)
          _ h
          (λ who t e h1.
            chained
              (evm.lens_hub_v2.get_on_chain_profile_details proof.block_number
                data'.value.profile_id who)
              _ h1 (λ profile u e2 h2. allowed_signer_v2 p who profile e e2 h2))

-- ===== src/Proofs/Utils.antt =====
-- The other functions of proofs/utils.ts.
use momoka.Prelude.{
  ℕ, pos, ◌<>◌, String, Bool, List, [], ◌∷◌, split_head, to_decimal, Async, ◌>>=◌, Settled, settle,
}
use momoka.Models.{
  Value, template_text, strictly_equal, DaStructurePublication, BundlrUploadResponse,
}

-- `${profileId}-${publicationId}-DA-${dataAvailabilityId.split('-')[0]}`
unfoldable pub generate_publication_id : Value → Value → String → String
generate_publication_id profile_id publication_id data_availability_id =
    template_text profile_id
    <> "-"
    <> template_text publication_id
    <> "-DA-"
    <> split_head b'-' data_availability_id

unfoldable pub is_valid_typed_data_deadline_timestamp : DaStructurePublication → Bool
is_valid_typed_data_deadline_timestamp da_publication =
    let proof = da_publication.chain_proofs.this_publication in
    strictly_equal proof.typed_data.value.deadline proof.block_timestamp

unfoldable pub is_valid_event_timestamp : DaStructurePublication → Bool
is_valid_event_timestamp da_publication =
    strictly_equal da_publication.event.timestamp
      da_publication.chain_proofs.this_publication.block_timestamp

-- A `Uint8Array`.
abbrev pub Bytes : Type 0
Bytes = List ℕ

-- The functions of arweave that `verifyReceipt` is given.
pub record Providers (S : Type 0) : Type 0 where
  pub string_to_buffer : String → Bytes
  pub b64_url_to_buffer : String → Settled Bytes
  pub deep_hash : List Bytes → Async S Bytes
  pub verify : String → Bytes → Bytes → Async S Bool

unfoldable pub verify_receipt : {S : Type 0} → BundlrUploadResponse → Providers S → Async S Bool
verify_receipt response p s =
    (do
      dh ← p.deep_hash (
          p.string_to_buffer "Bundlr"
          ∷ p.string_to_buffer response.version
          ∷ p.string_to_buffer response.id
          ∷ p.string_to_buffer (to_decimal (pos response.deadline_height))
          ∷ p.string_to_buffer (to_decimal (pos response.timestamp))
          ∷ [])
      signature ← settle (p.b64_url_to_buffer response.signature)
      p.verify response.public dh signature)
      s

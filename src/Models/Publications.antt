-- ===== src/Models/Publications.antt =====
-- data-availability-structure-base.ts, data-availability-timestamp-proofs.ts and
-- publications/data-availability-structure-publication.ts.
use momoka.Prelude.{
  ℕ, ℤ, String, Option, Bool, true, false, List, StrictlyComparable, ◌==◌, eq_string, arith, ◌≡◌,
  ◌↔◌, eq_iff,
}
use momoka.Models.Values.{Value}
use momoka.Models.Events.{DaEvent}
use momoka.Models.TypedData.{TypedData}

-- The `type` of a publication: one of the enum's texts, or any other.
pub data MomokaActionTypes : Type 0 where
  post_created comment_created mirror_created quote_created : MomokaActionTypes
  other_action : String → MomokaActionTypes

abbrev same_action : MomokaActionTypes → MomokaActionTypes → Bool
same_action post_created post_created = true
same_action comment_created comment_created = true
same_action mirror_created mirror_created = true
same_action quote_created quote_created = true
same_action (other_action s) (other_action t) = s == t
same_action _ _ = false

pub same_action_iff : (a b : MomokaActionTypes) → (same_action a b ≡ true) ↔ (a ≡ b)
same_action_iff (other_action s) (other_action t) = ground (arith, eq_iff s t)
same_action_iff post_created b = ground arith
same_action_iff comment_created b = ground arith
same_action_iff mirror_created b = ground arith
same_action_iff quote_created b = ground arith
same_action_iff (other_action s) b = ground arith

instance abbrev pub eq_action : StrictlyComparable MomokaActionTypes
eq_action = record { is_same = same_action; is_same_iff = same_action_iff }

pub data DaPublicationPointerType : Type 0 where
  on_evm_chain on_da : DaPublicationPointerType

-- The receipt of Bundlr for the timestamp transaction.
pub record BundlrUploadResponse : Type 0 where
  pub id : String
  pub public : String
  pub signature : String
  pub version : String
  pub block : ℕ
  pub deadline_height : ℕ
  pub validator_signatures : List (String × String)
  -- the UNIX timestamp in milliseconds
  pub timestamp : ℕ

pub record BundlrTimestampProofs : Type 0 where
  pub type : String
  pub hash_prefix : String
  pub response : BundlrUploadResponse

pub record DaTimestampProofsResponse : Type 0 where
  pub type : MomokaActionTypes
  pub data_availability_id : String

pub record PublicationProof : Type 0 where
  pub signature : String
  pub signed_by_delegate : Bool
  pub signature_deadline : Value
  pub typed_data : TypedData
  pub block_hash : String
  pub block_timestamp : Value
  pub block_number : ℤ

pub record PublicationPointer : Type 0 where
  pub location : String
  pub type : DaPublicationPointerType

pub record DaStructurePublicationProofs : Type 0 where
  pub this_publication : PublicationProof
  pub pointer : Option PublicationPointer

-- The property `signature` is deleted from the object while it is checked, and is `none` from there on.
pub record DaStructurePublication : Type 0 where
  pub data_availability_id : String
  pub signature : Option String
  pub type : MomokaActionTypes
  pub timestamp_proofs : BundlrTimestampProofs
  pub event : DaEvent
  pub chain_proofs : DaStructurePublicationProofs
  pub publication_id : String

pub record DaPublicationsBatchResult : Type 0 where
  pub id : String
  pub da_publication : DaStructurePublication
  pub submitter : String

pub record DaPublicationWithTimestampProofsBatchResult : Type 0 where
  pub id : String
  pub da_publication : DaStructurePublication
  pub submitter : String
  pub timestamp_proofs_data : DaTimestampProofsResponse

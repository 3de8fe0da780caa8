-- ===== src/Models/Errors.antt =====
-- validator-errors.ts. The enum gives `BLOCK_TOO_FAR` the text of `NOT_CLOSEST_BLOCK`, so the two are
-- one value, and one constructor here.
use Prim.Native.String.{String}

pub data MomokaValidatorError : Type 0 where
  no_signature_submitter : MomokaValidatorError
  invalid_signature_submitter : MomokaValidatorError
  timestamp_proof_invalid_signature : MomokaValidatorError
  timestamp_proof_invalid_type : MomokaValidatorError
  timestamp_proof_invalid_da_id : MomokaValidatorError
  timestamp_proof_not_submitter : MomokaValidatorError
  can_not_connect_to_bundlr : MomokaValidatorError
  invalid_tx_id : MomokaValidatorError
  invalid_formatted_typed_data : MomokaValidatorError
  block_cant_be_read_from_node : MomokaValidatorError
  data_cant_be_read_from_node : MomokaValidatorError
  simulation_node_could_not_run : MomokaValidatorError
  simulation_failed : MomokaValidatorError
  event_mismatch : MomokaValidatorError
  invalid_event_timestamp : MomokaValidatorError
  invalid_typed_data_deadline_timestamp : MomokaValidatorError
  generated_publication_id_mismatch : MomokaValidatorError
  invalid_pointer_set_not_needed : MomokaValidatorError
  pointer_failed_verification : MomokaValidatorError
  not_closest_block : MomokaValidatorError
  publication_no_pointer : MomokaValidatorError
  publication_none_da : MomokaValidatorError
  publication_nonce_invalid : MomokaValidatorError
  publication_signer_not_allowed : MomokaValidatorError
  chain_signature_already_used : MomokaValidatorError
  potential_reorg : MomokaValidatorError
  publication_not_recognized : MomokaValidatorError
  unknown : MomokaValidatorError

-- The texts of the enum
unfoldable pub error_text : MomokaValidatorError → String
error_text no_signature_submitter = "NO_SIGNATURE_SUBMITTER"
error_text invalid_signature_submitter = "INVALID_SIGNATURE_SUBMITTER"
error_text timestamp_proof_invalid_signature = "TIMESTAMP_PROOF_INVALID_SIGNATURE"
error_text timestamp_proof_invalid_type = "TIMESTAMP_PROOF_INVALID_TYPE"
error_text timestamp_proof_invalid_da_id = "TIMESTAMP_PROOF_INVALID_DA_ID"
error_text timestamp_proof_not_submitter = "TIMESTAMP_PROOF_NOT_SUBMITTER"
error_text can_not_connect_to_bundlr = "CAN_NOT_CONNECT_TO_BUNDLR"
error_text invalid_tx_id = "INVALID_TX_ID"
error_text invalid_formatted_typed_data = "INVALID_FORMATTED_TYPED_DATA"
error_text block_cant_be_read_from_node = "BLOCK_CANT_BE_READ_FROM_NODE"
error_text data_cant_be_read_from_node = "DATA_CANT_BE_READ_FROM_NODE"
error_text simulation_node_could_not_run = "SIMULATION_NODE_COULD_NOT_RUN"
error_text simulation_failed = "SIMULATION_FAILED"
error_text event_mismatch = "EVENT_MISMATCH"
error_text invalid_event_timestamp = "INVALID_EVENT_TIMESTAMP"
error_text invalid_typed_data_deadline_timestamp = "INVALID_TYPED_DATA_DEADLINE_TIMESTAMP"
error_text generated_publication_id_mismatch = "GENERATED_PUBLICATION_ID_MISMATCH"
error_text invalid_pointer_set_not_needed = "INVALID_POINTER_SET_NOT_NEEDED"
error_text pointer_failed_verification = "POINTER_FAILED_VERIFICATION"
error_text not_closest_block = "NOT_CLOSEST_BLOCK"
error_text publication_no_pointer = "PUBLICATION_NO_POINTER"
error_text publication_none_da = "PUBLICATION_NONE_DA"
error_text publication_nonce_invalid = "PUBLICATION_NONCE_INVALID"
error_text publication_signer_not_allowed = "PUBLICATION_SIGNER_NOT_ALLOWED"
error_text chain_signature_already_used = "CHAIN_SIGNATURE_ALREADY_USED"
error_text potential_reorg = "POTENTIAL_REORG"
error_text publication_not_recognized = "PUBLICATION_NOT_RECOGNIZED"
error_text unknown = "UNKNOWN"

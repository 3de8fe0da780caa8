-- ===== src/Tests/Samples.antt =====
-- A submission of each kind, and a node, a gateway and a library of signatures that answer for them.
-- The state counts the calls.
use momoka.Prelude.{
  ℕ, suc, ℤ, pos, String, Bool, true, false, Option, none, some, List, [], ◌∷◌, Settled, resolved,
  rejected, Async, ◌==◌, eq_string, eq_int, if◌then◌else◌,
}
use momoka.Common.{mumbai, production}
use momoka.Models.{
  Value, text, number, DaEvent, EventParams, no_event, no_params, TypedDataValue, no_typed_value,
  MomokaActionTypes, post_created, comment_created, mirror_created, quote_created,
  PublicationPointer, on_da, PublicationProof, DaStructurePublication, DaTimestampProofsResponse,
  BundlrUploadResponse, success,
}
use momoka.Evm.{Ethers, EvmApi, EthereumNode, BlockInfo, ProfileDetailsV1, ProfileDetailsV2}
use momoka.Proofs.Checker.Interfaces.{DaProofsVerifier, DaProofsGateway, fetched}

abbrev read_number : Value → Settled ℤ
read_number (text s) = if s == "0x05" then resolved (pos 5) else resolved (pos 4)
read_number (number n) = resolved n
read_number _ = rejected "invalid BigNumber"

abbrev write_number : ℤ → String
write_number n = if n == pos 5 then "0x05" else "0x00"

abbrev pub sample_ethers : Ethers
sample_ethers = record {
  big_number_from = read_number;
  to_hex_string = write_number;
  verify_typed_data = λ domain types value signature. resolved "0xowner";
  split_signature = λ signature. resolved (record { r = "0x1"; s = "0x2"; v = 27 });
}

-- A promise that resolves.
abbrev answer : {A : Type 0} → A → Async ℕ A
answer a s = (resolved a, suc s)

abbrev pub profile_v1 : ProfileDetailsV1
profile_v1 = record {
  sig_nonce = pos 7;
  current_publication_id = "0x04";
  dispatcher_address = "0xdispatcher";
  owner_of_address = "0xowner";
}

abbrev pub profile_v2 : ProfileDetailsV2
profile_v2 = record {
  nonces = pos 7;
  current_publication_id = "0x04";
  is_signer_approved_executor = true;
  owner_of_address = "0xother";
}

abbrev pub sample_evm : EvmApi ℕ
sample_evm = record {
  lens_hub_v1 = record {
    generate_post_simulation_data = λ delegate request. answer (success "0xdata");
    get_on_chain_profile_details = λ block profile who. answer (success profile_v1);
    get_lens_pub_count = λ profile block. answer (success (pos 4));
  };
  lens_hub_v2 = record {
    generate_post_simulation_data = λ request signature. answer (success "0xdata");
    get_on_chain_profile_details = λ block profile who. answer (success profile_v2);
    get_lens_pub_count = λ profile block. answer (success (pos 4));
  };
  execute_simulation_transaction = λ data' block. answer (success "0x05");
  block_hash_exists = λ hash. answer (success true);
}

abbrev pub sample_params : EventParams
sample_params = record no_params {
  profile_id = text "0x1d";
  content_uri = text "ar://post";
  metadata_uri = text "ar://mirror";
  pointed_profile_id = text "0x1c";
  pointed_pub_id = text "0x03";
  referrer_profile_ids = some [];
  referrer_pub_ids = some [];
  action_modules = some (text "0xmodule" ∷ []);
  action_modules_init_datas = some (text "0x" ∷ []);
  reference_module = text "0x0";
  reference_module_init_data = text "0x";
}

abbrev event_v1 : DaEvent
event_v1 = record no_event {
  profile_id = text "0x1d";
  pub_id = text "0x05";
  content_uri = text "ar://post";
  profile_id_pointed = text "0x1c";
  pub_id_pointed = text "0x03";
  collect_module = text "0xcollect";
  collect_module_return_data = text "0x";
  reference_module = text "0x0";
  reference_module_return_data = text "0x";
  timestamp = number (pos 1680000000);
}

-- The event of a V2 publication: every field of a V1 event that is not read is left in.
abbrev event_v2 : DaEvent
event_v2 = record event_v1 {
  action_modules_init_return_datas = some [];
  reference_module_init_return_data = text "0x";
}

abbrev sample_value : TypedDataValue
sample_value = record no_typed_value {
  nonce = number (pos 7);
  deadline = number (pos 1680000000);
  profile_id = text "0x1d";
  content_uri = text "ar://post";
  metadata_uri = text "ar://mirror";
  collect_module = text "0xcollect";
  collect_module_init_data = text "0x";
  reference_module = text "0x0";
  reference_module_init_data = text "0x";
  profile_id_pointed = text "0x1c";
  pub_id_pointed = text "0x03";
  pointed_profile_id = text "0x1c";
  pointed_pub_id = text "0x03";
  referrer_profile_ids = some [];
  referrer_pub_ids = some [];
  action_modules = some (text "0xmodule" ∷ []);
  action_modules_init_datas = some (text "0x" ∷ []);
}

abbrev sample_proof : PublicationProof
sample_proof = record {
  signature = "0xsignature";
  signed_by_delegate = false;
  signature_deadline = number (pos 1680000000);
  typed_data = record {
    types = [];
    domain = record {
      name = "Lens Protocol Profiles";
      version = "1";
      chain_id = 80001;
      verifying_contract = "0xhub";
    };
    value = sample_value;
  };
  block_hash = "0xhash";
  block_timestamp = number (pos 1680000000);
  block_number = pos 100;
}

abbrev pub sample_pointer : PublicationPointer
sample_pointer = record { location = "ar://pointed"; type = on_da }

abbrev receipt : BundlrUploadResponse
receipt = record {
  id = "proofs";
  public = "key";
  signature = "receipt";
  version = "1.0.0";
  block = 1;
  deadline_height = 2;
  validator_signatures = [];
  timestamp = 1680000001000;
}

abbrev publication_of :
    MomokaActionTypes → DaEvent → Option PublicationPointer → DaStructurePublication
publication_of type event pointer = record {
  data_availability_id = "9c1a-22";
  signature = some "0xsubmitter";
  type = type;
  timestamp_proofs = record { type = "BUNDLR"; hash_prefix = "1"; response = receipt };
  event = event;
  chain_proofs = record { this_publication = sample_proof; pointer = pointer };
  publication_id = "0x1d-0x05-DA-9c1a";
}

abbrev pub post_sample_v1 : DaStructurePublication
post_sample_v1 = publication_of post_created event_v1 none

abbrev pub post_sample_v2 : DaStructurePublication
post_sample_v2 =
    publication_of post_created (record event_v2 { post_params = some sample_params }) none

abbrev pub comment_sample_v1 : DaStructurePublication
comment_sample_v1 = publication_of comment_created event_v1 (some sample_pointer)

abbrev pub comment_sample_v2 : DaStructurePublication
comment_sample_v2 =
    publication_of comment_created (record event_v2 { comment_params = some sample_params })
      (some sample_pointer)

abbrev pub mirror_sample_v1 : DaStructurePublication
mirror_sample_v1 = publication_of mirror_created event_v1 (some sample_pointer)

abbrev pub mirror_sample_v2 : DaStructurePublication
mirror_sample_v2 =
    publication_of mirror_created (record event_v2 { mirror_params = some sample_params })
      (some sample_pointer)

abbrev pub quote_sample : DaStructurePublication
quote_sample =
    publication_of quote_created (record event_v2 { quote_params = some sample_params })
      (some sample_pointer)

abbrev pub check_passes : String → Async ℕ Bool
check_passes location = answer true

abbrev pub sample_node : EthereumNode
sample_node = record { environment = mumbai; node_url = "node"; deployment = some production }

abbrev pub sample_proofs : DaTimestampProofsResponse
sample_proofs = record { type = comment_created; data_availability_id = "9c1a-22" }

-- `extractAddress` deletes the signature.
abbrev pub extracted_sample : DaStructurePublication
extracted_sample = record comment_sample_v1 { signature = none }

abbrev pub sample_verifier : DaProofsVerifier ℕ
sample_verifier = record {
  extract_address =
      λ p. answer ("0xF1143C45953066718dE115578cf31c237B062a15", record p { signature = none });
  verify_timestamp_signature = λ p. answer true;
  verify_transaction_submitter = λ environment id deployment. answer (fetched true);
}

abbrev pub second_block : BlockInfo
second_block = record { number = pos 100; timestamp = 1679999999 }

-- The blocks that the node has, whatever is asked for.
abbrev pub sample_blocks : List BlockInfo
sample_blocks =
    record { number = pos 99; timestamp = 1679999998 }
    ∷ record { number = pos 100; timestamp = 1679999999 }
    ∷ record { number = pos 101; timestamp = 1680000001 }
    ∷ []

abbrev pub sample_gateway : DaProofsGateway ℕ
sample_gateway = record {
  get_tx_result_from_cache = λ id. answer none;
  get_da_publication = λ id. answer (fetched (some comment_sample_v1));
  get_timestamp_proofs = λ proofs_id id. answer (fetched (some sample_proofs));
  get_block_range = λ numbers node. answer sample_blocks;
  has_signature_been_used_before = λ signature. answer false;
}

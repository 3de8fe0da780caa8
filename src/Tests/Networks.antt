-- ===== src/Tests/Networks.antt =====
-- The requests, the calls to a node and the two checkers on concrete answers. The state counts the calls.
use momoka.Prelude.{
  ℕ, suc, pos, String, Bool, true, Option, none, some, List, [], ◌∷◌, Settled, resolved, rejected,
  try_catch, Async, ◌≡◌, ◌≢◌, eq_string, if◌then◌else◌,
}
use momoka.Models.{text, number, DaStructurePublication}
use momoka.Models.Errors.{simulation_node_could_not_run, invalid_formatted_typed_data}
use momoka.Evm.{PostWithSigRequest, PostParamsRequest, ParsedSignature}
use momoka.Evm.JsonRpc.{Post}
use momoka.Evm.Node.{BigNumbers}
use momoka.Evm.Gateways.{Encodings, evm_api}
use momoka.Evm.Resolves.{Resolves, evm_api-Resolves}
use momoka.Requests.{
  FetchProvider, BundlrTx, BundlrBulkTxsResponse, AxiosResponse, get_bundlr_by_id_api,
  get_bundlr_bulk_txs_api, or_timeout_error, post_with_timeout, check_status,
}
use momoka.Requests.Laws.{get_bundlr_apis-one_request}
use momoka.Database.{Json}
use momoka.Proofs.Checker.Interfaces.{Fetched, timeout_error, fetched}
use momoka.Proofs.Gateways.{FetchProviders, Formats, da_proof_gateway, client_da_proof_gateway}
use momoka.Proofs.Verifiers.{
  Messages, HandlerWorkerRequest, HandlerAnswer, execute_worker, da_proof_verifier,
  client_da_proof_verifier,
}
use momoka.Proofs.Clients.{Answers, da_proof_verifier-client}
use momoka.Proofs.Utils as Utils
use momoka.Tests.Samples.{sample_ethers, sample_node, comment_sample_v1, sample_proofs}

abbrev count_wait : ℕ → ℕ → ℕ
count_wait milliseconds s = s

abbrev no_answer : {T : Type 0} → Async ℕ T
no_answer s = (rejected "timeout of 5000ms exceeded", suc s)

abbrev silent_provider : {T : Type 0} → FetchProvider ℕ T
silent_provider = record { get = λ url timeout. no_answer }

abbrev answering : {T : Type 0} → T → FetchProvider ℕ T
answering answer = record { get = λ url timeout s. (resolved (some answer), suc s) }

abbrev found_txs : BundlrBulkTxsResponse
found_txs = record {
  success = record { id = "9c1a"; address = "0xa"; content = "e30=" } ∷ [];
  failed = [];
}

abbrev post_found : String → List String → ℕ → Async ℕ (AxiosResponse BundlrBulkTxsResponse)
post_found url tx_ids timeout s = (resolved (record { status = 200; body = found_txs }), suc s)

-- The request for one transaction fails, and that for many is answered.
get_bundlr_apis-one_request_example :
    ◌≡◌ {A = Settled (Fetched (Option DaStructurePublication)) × ℕ}
      (get_bundlr_by_id_api count_wait silent_provider "9c1a" 0)
      (resolved timeout_error, 1)
    × (get_bundlr_bulk_txs_api count_wait post_found ("9c1a" ∷ []) 0
        ≡ (resolved (fetched found_txs), 1))
unfolding or_timeout_error post_with_timeout check_status try_catch
get_bundlr_apis-one_request_example =
    get_bundlr_apis-one_request {T = DaStructurePublication} count_wait silent_provider "9c1a"
      post_found ("9c1a" ∷ []) 0

abbrev sample_numbers : BigNumbers
sample_numbers = record {
  to_number = λ v. resolved (pos 100);
  to_timestamp = λ v. resolved 1679999999;
}

abbrev pub sample_encodings : Encodings
sample_encodings = record {
  encode_multicall = λ contract calls. resolved "0xcalls";
  decode_multicall = λ answer. resolved ("0x07" ∷ "0x05" ∷ "0xd" ∷ "0xo" ∷ []);
  decode_address = λ d. resolved "0xowner";
  decode_bool = λ d. resolved true;
  encode_post_v1 = λ name request. resolved "0xpost";
  encode_post_v2 = λ params signature. rejected "invalid value";
  encode_get_pub_count = λ profile. resolved "0xcount";
  encode_get_profile = λ profile. resolved "0xprofile";
  decode_get_profile = λ answer. resolved (number (pos 5));
}

abbrev silent_node : {T : Type 0} → Post ℕ T
silent_node url request timeout = no_answer

abbrev answering_node : {T : Type 0} → T → Post ℕ T
answering_node answer url request timeout s =
    (resolved (record { result = some answer; error = none }), suc s)

abbrev sample_signature : ParsedSignature
sample_signature = record { r = "0x1"; s = "0x2"; v = 27; deadline = number (pos 1680000000) }

abbrev sample_request : PostWithSigRequest
sample_request = record {
  profile_id = text "0x1d";
  content_uri = text "ar://post";
  collect_module = text "0xcollect";
  collect_module_init_data = text "0x";
  reference_module = text "0x0";
  reference_module_init_data = text "0x";
  sig = sample_signature;
}

abbrev sample_post_params : PostParamsRequest
sample_post_params = record {
  profile_id = text "0x1d";
  content_uri = text "ar://post";
  action_modules = some [];
  action_modules_init_datas = some [];
  reference_module = text "0x0";
  reference_module_init_data = text "0x";
}

-- A node that does not answer.
evm_api-Resolves_example :
    let api =
      evm_api count_wait sample_ethers sample_numbers sample_encodings silent_node sample_node
        silent_node in
    Resolves
      (λ answer. answer ≢ "")
      simulation_node_could_not_run
      (api.execute_simulation_transaction "0xpost" (pos 100))
    × Resolves (λ _. Unit {0}) simulation_node_could_not_run (api.block_hash_exists "0xhash")
    × Resolves
        (λ encoded.
          sample_encodings.encode_post_v1
            (if true then "postWithSig_Dispatcher" else "postWithSig")
            sample_request
          ≡ resolved encoded)
        invalid_formatted_typed_data
        (api.lens_hub_v1.generate_post_simulation_data true sample_request)
    × Resolves
        (λ encoded.
          sample_encodings.encode_post_v2 sample_post_params
            (record { parsed = sample_signature; signer = "0xowner" })
          ≡ resolved encoded)
        invalid_formatted_typed_data
        (api.lens_hub_v2.generate_post_simulation_data sample_post_params
          (record { parsed = sample_signature; signer = "0xowner" }))
evm_api-Resolves_example =
    evm_api-Resolves count_wait sample_ethers sample_numbers sample_encodings silent_node
      silent_node sample_node "0xpost" "0xhash" (pos 100) true sample_request sample_post_params
      (record { parsed = sample_signature; signer = "0xowner" })

abbrev unused_json : {A : Type 0} → Json A
unused_json = record { stringify = λ a. "{}"; parse = λ t. rejected "no JSON" }

abbrev sample_formats : Formats
sample_formats = record {
  tx_result = unused_json;
  block_info = unused_json;
  publication = unused_json;
  timestamp_proofs = unused_json;
}

abbrev pub sample_messages : Messages
sample_messages = record {
  stringify = λ p. "{}";
  verify_message = λ message signature. resolved "0xF1143C45953066718dE115578cf31c237B062a15";
}

abbrev sample_arweave : Utils.Providers ℕ
sample_arweave = record {
  string_to_buffer = λ s. 1 ∷ [];
  b64_url_to_buffer = λ s. resolved (2 ∷ []);
  deep_hash = λ chunks s. (resolved (3 ∷ []), suc s);
  verify = λ key hash signature s. (resolved true, suc s);
}

abbrev no_owner : BundlrTx
no_owner = record { address = none }

-- A pool that answers as a worker thread does.
abbrev sample_execute : HandlerWorkerRequest → Async ℕ HandlerAnswer
sample_execute = execute_worker sample_messages sample_arweave

sample_execute-Answers :
    Answers count_wait (answering no_owner) sample_messages sample_arweave sample_execute
sample_execute-Answers = record { answer = λ request a s t h. h }

abbrev sample_providers : FetchProviders ℕ
sample_providers = record {
  publications = answering comment_sample_v1;
  timestamp_proofs = answering sample_proofs;
  blocks = answering_node (record { number = text "0x64"; timestamp = text "0x6422" });
}

da_proof_verifier-client_example :
    let direct =
      client_da_proof_verifier count_wait (answering no_owner) sample_messages sample_arweave in
    let pooled = da_proof_verifier count_wait (answering no_owner) sample_execute in
    ((p : DaStructurePublication) (x : String × DaStructurePublication) (s t : ℕ)
      → direct.extract_address p s ≡ (resolved x, t)
      → pooled.extract_address p s ≡ (resolved x, t))
    × ((p : DaStructurePublication) (x : Bool) (s t : ℕ)
        → direct.verify_timestamp_signature p s ≡ (resolved x, t)
        → pooled.verify_timestamp_signature p s ≡ (resolved x, t))
    × (pooled.verify_transaction_submitter ≡ direct.verify_transaction_submitter)
    × (da_proof_gateway
          (λ message s. s)
          count_wait
          sample_numbers
          sample_providers
          none
          sample_formats
        ≡ client_da_proof_gateway count_wait sample_numbers sample_providers)
da_proof_verifier-client_example =
    da_proof_verifier-client count_wait (answering no_owner) sample_messages sample_arweave
      sample_execute sample_execute-Answers (λ message s. s) sample_numbers sample_providers
      sample_formats

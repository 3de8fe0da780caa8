-- ===== src/Evm/Gateways.antt =====
-- evm/gateway/LensHubV1Gateway.ts and evm/gateway/LensHubV2Gateway.ts. The encodings of ethers and of
-- ethereum-multicall, over the ABI of each contract, are parameters.
use momoka.Prelude.{
  ℕ, ℤ, String, eq_string, Bool, true, false, Option, none, some, List, [], ◌∷◌, Settled, resolved,
  rejected, Async, pure, settle, try_catch, ◌>>=◌, get_elem?,
}
use momoka.Common.{environment_to_lens_hub_contract, number_to_hex, retry_with_timeout}
use momoka.Models.{Value, text, success, failure, PromiseResult}
use momoka.Models.Errors.{invalid_formatted_typed_data, data_cant_be_read_from_node}
use momoka.Evm.Types.{
  EthereumNode, PostWithSigRequest, PostParamsRequest, SignatureRequest, ProfileDetailsV1,
  ProfileDetailsV2,
}
use momoka.Evm.Interfaces.{Ethers, LensHubV1Gateway, LensHubV2Gateway, EvmApi}
use momoka.Evm.JsonRpc.{Post, text_param, call_param, eth_call, json_rpc_with_timeout}
use momoka.Evm.Node.{
  RpcBlock, BigNumbers, rate_limit_options, answer_or_throw, execute_simulation_transaction,
  block_hash_exists,
}

-- A call of a contract's method, in a multicall.
pub record ContractCall : Type 0 where
  pub method_name : String
  pub method_parameters : List Value

-- The encodings that both gateways use.
pub record Encodings : Type 0 where
  -- the data of `tryBlockAndAggregate` for the calls of a contract
  pub encode_multicall : String → List ContractCall → Settled String
  -- the `returnData` of each call, from the answer to it
  pub decode_multicall : Option String → Settled (List String)
  pub decode_address : String → Settled String
  pub decode_bool : String → Settled Bool
  -- `encodeFunctionData` and the first value of `decodeFunctionResult('getProfile', …)`
  pub encode_post_v1 : String → PostWithSigRequest → Settled String
  pub encode_post_v2 : PostParamsRequest → SignatureRequest → Settled String
  pub encode_get_pub_count : Value → Settled String
  pub encode_get_profile : Value → Settled String
  pub decode_get_profile : String → Settled Value

-- `resultData[i].returnData`
unfoldable pub return_data : List String → ℕ → Settled String
return_data results i = elim (get_elem? results i) [
  | none ↦ rejected "Cannot read properties of undefined (reading 'returnData')"
  | some content ↦ resolved content
]

module _ {S : Type 0} where
  -- `try { … return success(result); } catch (e) { return failure(…); }` of both versions
  unfoldable pub encoded_or_failure : Settled String → PromiseResult S String
  encoded_or_failure encoded =
      try_catch (settle encoded >>= λ result. pure (success result))
        (λ _. pure (failure invalid_formatted_typed_data))

module _ {S : Type 0} (wait : ℕ → S → S) (ethers : Ethers) (numbers : BigNumbers)
    (encodings : Encodings) (post : Post S String) (ethereum_node : EthereumNode) where
  unfoldable pub generate_post_simulation_data_v1 :
      Bool → PostWithSigRequest → PromiseResult S String
  unfolding encoded_or_failure
  generate_post_simulation_data_v1 true request =
      encoded_or_failure (encodings.encode_post_v1 "postWithSig_Dispatcher" request)
  generate_post_simulation_data_v1 false request =
      encoded_or_failure (encodings.encode_post_v1 "postWithSig" request)

  unfoldable pub generate_post_simulation_data_v2 :
      PostParamsRequest → SignatureRequest → PromiseResult S String
  unfolding encoded_or_failure
  generate_post_simulation_data_v2 params signature =
      encoded_or_failure (encodings.encode_post_v2 params signature)

  -- `try { return await retryWithTimeout(…); } catch (_error) { return failure(…); }` of the calls below
  unfoldable pub read_or_failure : {A : Type 0} → PromiseResult S A → PromiseResult S A
  read_or_failure read =
      try_catch (retry_with_timeout wait read rate_limit_options)
        (λ _. pure (failure data_cant_be_read_from_node))

  -- `eth_call` of a contract, at a block
  unfoldable pub call_contract : String → String → ℤ → Async S (Option String)
  call_contract contract call_data block_number =
      json_rpc_with_timeout post ethereum_node.node_url eth_call
        (call_param contract call_data ∷ text_param (number_to_hex block_number) ∷ []) false

  unfoldable pub multicall_results : String → ℤ → Async S (List String)
  unfolding call_contract
  multicall_results encoded block_number = do
    result ← call_contract "0xcA11bde05977b3631167028862bE2a173976CA11" encoded block_number
    settle (encodings.decode_multicall result)

  -- The calls are encoded outside the `try`.
  unfoldable pub get_on_chain_profile_details_v1 :
      ℤ → Value → String → PromiseResult S ProfileDetailsV1
  unfolding read_or_failure multicall_results return_data
  get_on_chain_profile_details_v1 block_number profile_id signed_by_address = do
    contract ← settle (environment_to_lens_hub_contract ethereum_node.environment)
    encoded ← settle (
        encodings.encode_multicall contract (
          record { method_name = "sigNonces"; method_parameters = text signed_by_address ∷ [] }
          ∷ record { method_name = "getPubCount"; method_parameters = profile_id ∷ [] }
          ∷ record { method_name = "getDispatcher"; method_parameters = profile_id ∷ [] }
          ∷ record { method_name = "ownerOf"; method_parameters = profile_id ∷ [] }
          ∷ []))
    read_or_failure (do
      results ← multicall_results encoded block_number
      nonce_data ← settle (return_data results 0)
      sig_nonce ← settle (numbers.to_number (text nonce_data))
      count_data ← settle (return_data results 1)
      current_publication ← settle (ethers.big_number_from (text count_data))
      dispatcher_data ← settle (return_data results 2)
      dispatcher_address ← settle (encodings.decode_address dispatcher_data)
      owner_data ← settle (return_data results 3)
      owner_of_address ← settle (encodings.decode_address owner_data)
      pure (
          success (record {
            sig_nonce = sig_nonce;
            current_publication_id = ethers.to_hex_string current_publication;
            dispatcher_address = dispatcher_address;
            owner_of_address = owner_of_address;
          })))

  unfoldable pub get_on_chain_profile_details_v2 :
      ℤ → Value → String → PromiseResult S ProfileDetailsV2
  unfolding read_or_failure multicall_results return_data
  get_on_chain_profile_details_v2 block_number profile_id signed_by_address = do
    contract ← settle (environment_to_lens_hub_contract ethereum_node.environment)
    encoded ← settle (
        encodings.encode_multicall contract (
          record { method_name = "nonces"; method_parameters = text signed_by_address ∷ [] }
          ∷ record { method_name = "getProfile"; method_parameters = profile_id ∷ [] }
          ∷ record {
            method_name = "isDelegatedExecutorApproved(uint256, address)";
            method_parameters = profile_id ∷ text signed_by_address ∷ [];
          }
          ∷ record { method_name = "ownerOf"; method_parameters = profile_id ∷ [] }
          ∷ []))
    read_or_failure (do
      results ← multicall_results encoded block_number
      profile_data ← settle (return_data results 1)
      pub_count ← settle (encodings.decode_get_profile profile_data)
      nonce_data ← settle (return_data results 0)
      nonces ← settle (numbers.to_number (text nonce_data))
      current_publication ← settle (ethers.big_number_from pub_count)
      executor_data ← settle (return_data results 2)
      is_signer_approved_executor ← settle (encodings.decode_bool executor_data)
      owner_data ← settle (return_data results 3)
      owner_of_address ← settle (encodings.decode_address owner_data)
      pure (
          success (record {
            nonces = nonces;
            current_publication_id = ethers.to_hex_string current_publication;
            is_signer_approved_executor = is_signer_approved_executor;
            owner_of_address = owner_of_address;
          })))

  -- The same call in both versions; they differ in what they encode and decode.
  unfoldable pub read_pub_count : String → ℤ → (String → Settled Value) → PromiseResult S ℤ
  unfolding read_or_failure call_contract answer_or_throw
  read_pub_count encoded block_number decode = read_or_failure (do
    contract ← settle (environment_to_lens_hub_contract ethereum_node.environment)
    eth_call_result ← call_contract contract encoded block_number
    answer ← answer_or_throw eth_call_result
    decoded ← settle (decode answer)
    pub_count ← settle (ethers.big_number_from decoded)
    pure (success pub_count))

  unfoldable pub get_lens_pub_count_v1 : Value → ℤ → PromiseResult S ℤ
  unfolding read_pub_count
  get_lens_pub_count_v1 profile_id block_number = do
    encoded ← settle (encodings.encode_get_pub_count profile_id)
    read_pub_count encoded block_number (λ answer. resolved (text answer))

  unfoldable pub get_lens_pub_count_v2 : Value → ℤ → PromiseResult S ℤ
  unfolding read_pub_count
  get_lens_pub_count_v2 profile_id block_number = do
    encoded ← settle (encodings.encode_get_profile profile_id)
    read_pub_count encoded block_number encodings.decode_get_profile

  unfoldable pub lens_hub_v1_gateway : LensHubV1Gateway S
  unfolding generate_post_simulation_data_v1 get_on_chain_profile_details_v1 get_lens_pub_count_v1
  lens_hub_v1_gateway = record {
    generate_post_simulation_data = generate_post_simulation_data_v1;
    get_on_chain_profile_details = get_on_chain_profile_details_v1;
    get_lens_pub_count = get_lens_pub_count_v1;
  }

  unfoldable pub lens_hub_v2_gateway : LensHubV2Gateway S
  unfolding generate_post_simulation_data_v2 get_on_chain_profile_details_v2 get_lens_pub_count_v2
  lens_hub_v2_gateway = record {
    generate_post_simulation_data = generate_post_simulation_data_v2;
    get_on_chain_profile_details = get_on_chain_profile_details_v2;
    get_lens_pub_count = get_lens_pub_count_v2;
  }

  -- What the verifiers of publications call.
  unfoldable pub evm_api : Post S RpcBlock → EvmApi S
  unfolding lens_hub_v1_gateway lens_hub_v2_gateway
  evm_api post_block = record {
    lens_hub_v1 = lens_hub_v1_gateway;
    lens_hub_v2 = lens_hub_v2_gateway;
    execute_simulation_transaction = λ call_data block_number.
        execute_simulation_transaction wait post call_data block_number ethereum_node;
    block_hash_exists = λ block_hash. block_hash_exists wait post_block block_hash ethereum_node;
  }

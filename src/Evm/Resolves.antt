-- ===== src/Evm/Resolves.antt =====
-- The calls to an Ethereum node end in a result: an error on the way is an answer, too.
use momoka.Prelude.{
  settled-cases, if◌then◌else◌, subst, ◌∷◌, [], ℕ, ℤ, String, ◌==◌, eq_string, same_refl, Bool,
  true, false, inl, inr, Option, none, some, Settled, resolved, rejected, pure, settle, try_catch,
  >>=-eq-resolved, resolved_inj, ◌≡◌, ◌≢◌, refl, ap, ◌∙◌,
}
use momoka.Common.{
  retry_with_timeout, RetryWithTimeoutOptions, environment_to_lens_hub_contract, number_to_hex,
}
use momoka.Common.Retry.{retry_with_timeout-eq-resolved}
use momoka.Models.{DaResult, success, failure, PromiseResult, MomokaValidatorError}
use momoka.Models.Errors.{simulation_node_could_not_run, invalid_formatted_typed_data}
use momoka.Evm.Types.{EthereumNode, PostWithSigRequest, PostParamsRequest, SignatureRequest}
use momoka.Evm.Interfaces.{Ethers}
use momoka.Evm.JsonRpc.{
  Post, json_rpc_with_timeout, eth_call, call_param, text_param, eth_get_block_by_hash, flag_param,
}
use momoka.Evm.Node.{
  RpcBlock, BigNumbers, text_or_throw, look_for_block, rate_limit_options, answer_or_throw,
  simulate_once, block_exists, execute_simulation_transaction, block_hash_exists,
}
use momoka.Evm.Gateways.{
  evm_api, lens_hub_v1_gateway, lens_hub_v2_gateway, Encodings, encoded_or_failure,
  generate_post_simulation_data_v1, generate_post_simulation_data_v2,
}

-- A success whose value has the property, or the one failure.
pub data Answers {A : Type 0} (P : A → Type 0) (error : MomokaValidatorError)
    : DaResult A Unit → Type 0 where
  answered : {a : A} → P a → Answers P error (success a)
  refused : Answers P error (failure error)

block_exists-answers :
    (block : Option RpcBlock)
    → Answers (λ _. Unit {0}) simulation_node_could_not_run (block_exists block)
unfolding block_exists
block_exists-answers none = answered tt
block_exists-answers (some block) = answered tt

module _ {S A : Type 0} (P : A → Type 0) (error : MomokaValidatorError) where
  -- From every state the promise resolves, to such a result.
  pub Resolves : PromiseResult S A → Type 0
  Resolves m =
      (s : S) → (r : DaResult A Unit) × (t : S) × (m s ≡ (resolved r, t)) × Answers P error r

  caught-Resolves :
      (m : PromiseResult S A)
      → ((s t : S) (r : DaResult A Unit) → m s ≡ (resolved r, t) → Answers P error r)
      → Resolves (try_catch m (λ _. pure (failure error)))
  unfolding Resolves try_catch
  caught-Resolves m answers s = elim (settled-cases (m s)) [
    | inl (r, t, e) ↦ (r, t, rw e refl, answers s t r e)
    | inr (message, t, e) ↦ (failure error, t, rw e refl, refused)
  ]

  retried-Resolves :
      (wait : ℕ → S → S) (fn : PromiseResult S A) (options : RetryWithTimeoutOptions)
      → ((s t : S) (r : DaResult A Unit) → fn s ≡ (resolved r, t) → Answers P error r)
      → Resolves (try_catch (retry_with_timeout wait fn options) (λ _. pure (failure error)))
  retried-Resolves wait fn options answers =
      caught-Resolves (retry_with_timeout wait fn options) (λ s t r h.
        let (x, e) = retry_with_timeout-eq-resolved wait fn options s t r h in answers x t r e)

module _ {S : Type 0} where
  text_or_throw-ne-empty :
      (answer text : String) (b : Bool) (s t : S)
      → (answer == "") ≡ b
      → text_or_throw answer b s ≡ (resolved text, t)
      → text ≢ ""
  unfolding text_or_throw
  text_or_throw-ne-empty answer text true s t e h = λ _. cc
  text_or_throw-ne-empty answer text false s t e h = λ empty.
      let same : answer ≡ "" = cc in
      let is_same : (answer == "") ≡ true = ap (λ x. x == "") same ∙ same_refl {A = String} "" in cc

  answer_or_throw-ne-empty :
      (answer : Option String) (text : String) (s t : S)
      → answer_or_throw answer s ≡ (resolved text, t)
      → text ≢ ""
  unfolding answer_or_throw
  answer_or_throw-ne-empty none text s t h = λ _. cc
  answer_or_throw-ne-empty (some answer) text s t h =
      text_or_throw-ne-empty answer text (answer == "") s t refl h

  simulate_once-answers :
      (post : Post S String) (call_data : String) (block_number : ℤ) (node : EthereumNode) (s t : S)
      (r : DaResult String Unit)
      → simulate_once post call_data block_number node s ≡ (resolved r, t)
      → Answers (λ answer. answer ≢ "") simulation_node_could_not_run r
  unfolding simulate_once
  simulate_once-answers post call_data block_number node s t r h =
      let (contract, s0, e0, k0) =
        >>=-eq-resolved (settle (environment_to_lens_hub_contract node.environment)) _ h in
      let (result, s1, e1, k1) =
        >>=-eq-resolved
          (json_rpc_with_timeout post node.node_url eth_call
            (call_param contract call_data ∷ text_param (number_to_hex block_number) ∷ []) true)
          _ k0 in
      let (answer, s2, e2, k2) = >>=-eq-resolved (answer_or_throw result) _ k1 in
      subst (Answers (λ answer. answer ≢ "") simulation_node_could_not_run) (resolved_inj k2)
        (answered (answer_or_throw-ne-empty result answer s1 s2 e2))

  look_for_block-answers :
      (post : Post S RpcBlock) (block_hash : String) (node : EthereumNode) (s t : S)
      (r : DaResult Bool Unit)
      → look_for_block post block_hash node s ≡ (resolved r, t)
      → Answers (λ _. Unit {0}) simulation_node_could_not_run r
  unfolding look_for_block
  look_for_block-answers post block_hash node s t r h =
      let (block, s0, e0, k0) =
        >>=-eq-resolved
          (json_rpc_with_timeout post node.node_url eth_get_block_by_hash
            (text_param block_hash ∷ flag_param false ∷ []) false)
          _ h in
      subst (Answers (λ _. Unit {0}) simulation_node_could_not_run) (resolved_inj k0)
        (block_exists-answers block)

encoded_or_failure-Resolves :
    (S : Type 0) (encoded : Settled String)
    → Resolves {S = S}
        (λ call_data. encoded ≡ resolved call_data)
        invalid_formatted_typed_data
        (encoded_or_failure encoded)
unfolding encoded_or_failure Resolves try_catch
encoded_or_failure-Resolves S (resolved call_data) s = (success call_data, s, refl, answered refl)
encoded_or_failure-Resolves S (rejected message) s =
    (failure invalid_formatted_typed_data, s, refl, refused)

module _ {S : Type 0} (wait : ℕ → S → S) (ethers : Ethers) (numbers : BigNumbers)
    (encodings : Encodings) (post : Post S String) (post_block : Post S RpcBlock)
    (node : EthereumNode) where
  -- From every state, whatever the node answers and however a request fails: a simulation resolves to
  -- data that is not empty or to SIMULATION_NODE_COULD_NOT_RUN, the look for a block hash to a Boolean
  -- or to the same error, and the simulation data of a post to what the ABI encodes or to
  -- INVALID_FORMATTED_TYPED_DATA. None of them rejects, in every environment.
  pub evm_api-Resolves :
      (call_data block_hash : String) (block_number : ℤ) (delegated : Bool)
      (request : PostWithSigRequest) (params : PostParamsRequest) (signature : SignatureRequest)
      → let api = evm_api wait ethers numbers encodings post node post_block in
        Resolves
          (λ answer. answer ≢ "")
          simulation_node_could_not_run
          (api.execute_simulation_transaction call_data block_number)
        × Resolves (λ _. Unit {0}) simulation_node_could_not_run (api.block_hash_exists block_hash)
        × Resolves
            (λ encoded.
              encodings.encode_post_v1
                (if delegated then "postWithSig_Dispatcher" else "postWithSig")
                request
              ≡ resolved encoded)
            invalid_formatted_typed_data
            (api.lens_hub_v1.generate_post_simulation_data delegated request)
        × Resolves
            (λ encoded. encodings.encode_post_v2 params signature ≡ resolved encoded)
            invalid_formatted_typed_data
            (api.lens_hub_v2.generate_post_simulation_data params signature)
  unfolding evm_api execute_simulation_transaction block_hash_exists lens_hub_v1_gateway
      lens_hub_v2_gateway generate_post_simulation_data_v1 generate_post_simulation_data_v2
  evm_api-Resolves call_data block_hash block_number delegated request params signature = (
    retried-Resolves (λ answer. answer ≢ "") simulation_node_could_not_run wait
        (simulate_once post call_data block_number node) rate_limit_options
        (simulate_once-answers post call_data block_number node),
    retried-Resolves (λ _. Unit {0}) simulation_node_could_not_run wait
        (look_for_block post_block block_hash node) rate_limit_options
        (look_for_block-answers post_block block_hash node),
    elim delegated
        as (λ d.
          Resolves
            (λ encoded.
              encodings.encode_post_v1 (if d then "postWithSig_Dispatcher" else "postWithSig")
                request
              ≡ resolved encoded)
            invalid_formatted_typed_data
            (generate_post_simulation_data_v1 wait ethers numbers encodings post node d request)) [
              | true ↦
                  encoded_or_failure-Resolves S
                    (encodings.encode_post_v1 "postWithSig_Dispatcher" request)
              | false ↦
                  encoded_or_failure-Resolves S (encodings.encode_post_v1 "postWithSig" request)
            ],
    encoded_or_failure-Resolves S (encodings.encode_post_v2 params signature),
  )

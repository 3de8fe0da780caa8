-- ===== src/Evm/Node.antt =====
-- evm/ethereum.ts: the calls to an Ethereum node.
use momoka.Prelude.{
  ℕ, ℤ, String, ◌==◌, eq_string, Bool, true, false, Option, none, some, [], ◌∷◌, Settled, Async,
  pure, throw, settle, try_catch, ◌>>=◌,
}
use momoka.Common.{
  environment_to_lens_hub_contract, number_to_hex, RetryWithTimeoutOptions, retry_with_timeout,
}
use momoka.Models.{Value, DaResult, success, failure, PromiseResult}
use momoka.Models.Errors.{simulation_node_could_not_run}
use momoka.Evm.Types.{EthereumNode, BlockInfo}
use momoka.Evm.JsonRpc.{
  Post, text_param, flag_param, call_param, eth_call, eth_get_block_by_hash,
  eth_get_block_by_number, json_rpc_with_timeout, rate_limit_time,
}

-- What the program reads of a block.
pub record RpcBlock : Type 0 where
  pub number : Value
  pub timestamp : Value

-- ethers: `BigNumber.from(value).toNumber()`, which throws for a value that is no number and for one
-- that is not safe. A timestamp is not negative.
pub record BigNumbers : Type 0 where
  pub to_number : Value → Settled ℤ
  pub to_timestamp : Value → Settled ℕ

-- `number | string`
pub data BlockTag : Type 0 where
  tag_number : ℤ → BlockTag
  tag_text : String → BlockTag

unfoldable pub tag_param : BlockTag → String
tag_param (tag_number n) = number_to_hex n
tag_param (tag_text tag) = tag

-- `{ delayMs: RATE_LIMIT_TIME }`
abbrev pub rate_limit_options : RetryWithTimeoutOptions
rate_limit_options = record { delay_ms = some rate_limit_time; max_retries = none }

unfoldable pub block_exists : Option RpcBlock → DaResult Bool Unit
block_exists none = success false
block_exists (some block) = success true

module _ {S : Type 0} where
  unfoldable pub text_or_throw : String → Bool → Async S String
  text_or_throw answer true = throw "eth_call returned undefined"
  text_or_throw answer false = pure answer

  -- `if (!ethCall) throw …`
  unfoldable pub answer_or_throw : Option String → Async S String
  unfolding text_or_throw
  answer_or_throw none = throw "eth_call returned undefined"
  answer_or_throw (some answer) = text_or_throw answer (answer == "")

  -- The function that `executeSimulationTransaction` gives to `retryWithTimeout`
  unfoldable pub simulate_once : Post S String → String → ℤ → EthereumNode → PromiseResult S String
  unfolding answer_or_throw
  simulate_once post call_data block_number ethereum_node = do
    contract ← settle (environment_to_lens_hub_contract ethereum_node.environment)
    eth_call_result ←
        json_rpc_with_timeout post ethereum_node.node_url eth_call
          (call_param contract call_data ∷ text_param (number_to_hex block_number) ∷ []) true
    answer ← answer_or_throw eth_call_result
    pure (success answer)

  -- The function that `blockHashExists` gives to `retryWithTimeout`
  unfoldable pub look_for_block : Post S RpcBlock → String → EthereumNode → PromiseResult S Bool
  unfolding block_exists
  look_for_block post block_hash ethereum_node = do
    block ←
        json_rpc_with_timeout post ethereum_node.node_url eth_get_block_by_hash
          (text_param block_hash ∷ flag_param false ∷ []) false
    pure (block_exists block)

  -- The properties of null cannot be read.
  unfoldable pub read_block : BigNumbers → Option RpcBlock → Async S BlockInfo
  read_block numbers none = throw "Cannot read properties of null (reading 'number')"
  read_block numbers (some block) = do
    number ← settle (numbers.to_number block.number)
    timestamp ← settle (numbers.to_timestamp block.timestamp)
    pure (record { number = number; timestamp = timestamp })

module _ {S : Type 0} (wait : ℕ → S → S) where
  unfoldable pub execute_simulation_transaction :
      Post S String → String → ℤ → EthereumNode → PromiseResult S String
  unfolding simulate_once
  execute_simulation_transaction post call_data block_number ethereum_node =
      try_catch
        (retry_with_timeout wait (simulate_once post call_data block_number ethereum_node)
          rate_limit_options)
        (λ _. pure (failure simulation_node_could_not_run))

  unfoldable pub block_hash_exists : Post S RpcBlock → String → EthereumNode → PromiseResult S Bool
  unfolding look_for_block
  block_hash_exists post block_hash ethereum_node =
      try_catch
        (retry_with_timeout wait (look_for_block post block_hash ethereum_node) rate_limit_options)
        (λ _. pure (failure simulation_node_could_not_run))

  unfoldable pub get_block :
      BigNumbers → Post S RpcBlock → BlockTag → EthereumNode → Async S BlockInfo
  unfolding read_block tag_param
  get_block numbers post tag ethereum_node =
      retry_with_timeout wait
        (json_rpc_with_timeout post ethereum_node.node_url eth_get_block_by_number
            (text_param (tag_param tag) ∷ flag_param false ∷ []) false
          >>= read_block numbers)
        rate_limit_options

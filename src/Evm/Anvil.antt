-- ===== src/Evm/Anvil.antt =====
-- evm/anvil.ts: the local node and the block that it was forked from. Its two variables are a state beside
-- the rest of the world. The commands that install and start the node are not modelled.
use momoka.Prelude.{
  ℤ, pos, String, Bool, true, false, Option, none, some, [], ◌∷◌, Async, pure, throw, settle,
  try_catch, ◌>>=◌, ◌>>◌, ◌==◌, eq_int, eq_string, if◌then◌else◌,
}
use momoka.Evm.Types.{EthereumNode}
use momoka.Evm.JsonRpc.{
  Post, json_rpc_with_timeout, eth_get_block_by_number, anvil_reset, text_param, flag_param,
  forking_param,
}
use momoka.Evm.Node.{RpcBlock, BigNumbers}

pub record AnvilState (S : Type 0) : Type 0 where
  pub world : S
  pub cached_anvil_current_block_number : Option ℤ
  pub public_node_url : Option String

unfoldable pub local_node_url : String
local_node_url = "http://127.0.0.1:8545/"

module _ {S : Type 0} where
  with_world : {A : Type 0} → Async S A → Async (AnvilState S) A
  with_world m a = ((m a.world).0, record a { world = (m a.world).1 })

  unfoldable pub set_anvil_current_block_number : ℤ → Async (AnvilState S) Unit
  set_anvil_current_block_number block_number a =
      pure tt (record a { cached_anvil_current_block_number = some block_number })

module _ {S : Type 0} (numbers : BigNumbers) (post_block : Post S RpcBlock) where
  unfoldable pub number_of : Option RpcBlock → Async (AnvilState S) ℤ
  number_of none = throw "Cannot read properties of null (reading 'number')"
  number_of (some block) = settle (numbers.to_number block.number)

  unfoldable pub ask_for_block_number : Async (AnvilState S) ℤ
  unfolding number_of with_world set_anvil_current_block_number
  ask_for_block_number = do
    result ← with_world (
        json_rpc_with_timeout post_block local_node_url eth_get_block_by_number
          (text_param "latest" ∷ flag_param false ∷ []) false)
    block_number ← number_of result
    set_anvil_current_block_number block_number
    pure block_number

  -- `if (_cached_anvil_current_block_number)`: 0 is no cached number.
  unfoldable pub cached_or_asked : Option ℤ → Async (AnvilState S) ℤ
  unfolding ask_for_block_number
  cached_or_asked none = ask_for_block_number
  cached_or_asked (some block_number) =
      if block_number == pos 0 then ask_for_block_number else pure block_number

  unfoldable pub get_anvil_current_block_number : Async (AnvilState S) ℤ
  unfolding cached_or_asked
  get_anvil_current_block_number a = cached_or_asked a.cached_anvil_current_block_number a

  unfoldable pub is_anvil_node_alive : Async (AnvilState S) Bool
  unfolding get_anvil_current_block_number
  is_anvil_node_alive =
      try_catch (get_anvil_current_block_number >>= λ _. pure true) (λ _. pure false)

module _ {S : Type 0} (post : Post S Unit) (ethereum_node : EthereumNode) where
  -- `if (!public_node_url) throw …`
  unfoldable pub refork : Option String → ℤ → Async (AnvilState S) Unit
  unfolding with_world set_anvil_current_block_number
  refork none block_number = throw "must call setupAnvilLocalNode before you can refork"
  refork (some url) block_number =
      if url == ""
      then throw "must call setupAnvilLocalNode before you can refork"
      else (with_world (
            json_rpc_with_timeout post ethereum_node.node_url anvil_reset
              (forking_param url block_number ∷ []) false)
          >> set_anvil_current_block_number block_number)

  unfoldable pub anvil_fork_from : ℤ → Async (AnvilState S) Unit
  unfolding refork
  anvil_fork_from block_number a = refork a.public_node_url block_number a

-- ===== src/Evm/JsonRpc.antt =====
-- input-output/json-rpc-with-timeout.ts and evm/jsonrpc-methods.ts. `post` is what axios answers to a POST
-- of the request's JSON; the result's type is what the caller casts it to, null and undefined `none`.
use momoka.Prelude.{ℕ, ℤ, String, Bool, true, false, Option, none, some, List, Async, pure, ◌>>=◌}

pub data JsonRpcMethods : Type 0 where
  eth_get_block_by_number eth_call eth_get_block_by_hash anvil_reset : JsonRpcMethods

-- The parameters that the program sends.
pub data RpcParam : Type 0 where
  text_param : String → RpcParam
  flag_param : Bool → RpcParam
  -- `{ to, data }`
  call_param : (receiver call_data : String) → RpcParam
  -- `{ forking: { jsonRpcUrl, blockNumber } }`
  forking_param : (json_rpc_url : String) → (block_number : ℤ) → RpcParam

-- `id` is 0 and `jsonrpc` is '2.0'.
pub record RpcRequest : Type 0 where
  pub method : JsonRpcMethods
  pub params : List RpcParam

-- `response.data`; `error` is the error's `data`, if there is an error.
pub record RpcResponse (T : Type 0) : Type 0 where
  pub result : Option T
  pub error : Option (Option T)

-- axios, for one type of result: the URL, the request and the timeout in milliseconds.
abbrev pub Post : Type 0 → Type 0 → Type 0
Post S T = String → RpcRequest → ℕ → Async S (RpcResponse T)

abbrev pub rate_limit_time : ℕ
rate_limit_time = 1000

unfoldable pub rpc_answer : {T : Type 0} → Bool → RpcResponse T → Option T
rpc_answer true response = elim response.error [ none ↦ response.result | some content ↦ content ]
rpc_answer false response = response.result

unfoldable pub json_rpc_with_timeout :
    {S T : Type 0} → Post S T → String → JsonRpcMethods → List RpcParam → Bool → Async S (Option T)
unfolding rpc_answer
json_rpc_with_timeout post url method params return_error_data =
    post url (record { method = method; params = params }) 5000 >>= λ response.
    pure (rpc_answer return_error_data response)

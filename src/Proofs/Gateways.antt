-- ===== src/Proofs/Gateways.antt =====
-- proofs/da-proof-gateway.ts and client/client-da-proof-gateway.ts: where a node and a browser client
-- get what a check needs.
use momoka.Prelude.{
  ℕ, ℤ, false, String, Settled, resolved, rejected, Option, none, some, Async, pure, all_of, ◌>>=◌,
  ◌>>◌,
}
use momoka.Models.{DaStructurePublication, DaTimestampProofsResponse}
use momoka.Evm.{EthereumNode, BlockInfo}
use momoka.Evm.JsonRpc.{Post}
use momoka.Evm.Node.{RpcBlock, BigNumbers, tag_number, get_block}
use momoka.Requests.{FetchProvider, get_bundlr_by_id_api}
use momoka.Database.{
  Level, Json, get_tx_db, get_block_db, save_block_db, has_signature_been_used_before_db,
  get_tx_da_metadata_db, get_tx_timestamp_proofs_metadata_db,
}
use momoka.Proofs.Checker.Interfaces.{Fetched, fetched, TxValidatedResult, DaProofsGateway}

-- What is left behind a promise that nobody awaits: what it resolves to is dropped. `unhandled` is what
-- the runtime makes of a rejection that nobody handles. Node ends the process then, so the state that it
-- leaves is that of a process that has ended, and what a run does from there on says nothing of the code.
abbrev pub left_behind : {S A : Type 0} → (String → S → S) → Settled A × S → S
left_behind unhandled (resolved a, t) = t
left_behind unhandled (rejected message, t) = unhandled message t

-- The caller goes on without the result.
unfoldable pub fire_and_forget : {S A : Type 0} → (String → S → S) → Async S A → Async S Unit
fire_and_forget unhandled m s = pure tt (left_behind unhandled (m s))

-- What the gateways ask of axios.
pub record FetchProviders (S : Type 0) : Type 0 where
  pub publications : FetchProvider S DaStructurePublication
  pub timestamp_proofs : FetchProvider S DaTimestampProofsResponse
  pub blocks : Post S RpcBlock

-- JSON of what the database holds.
pub record Formats : Type 0 where
  pub tx_result : Json TxValidatedResult
  pub block_info : Json BlockInfo
  pub publication : Json DaStructurePublication
  pub timestamp_proofs : Json DaTimestampProofsResponse

module _ {S : Type 0} where
  -- `(await cached) || (await fetch)`
  unfoldable pub cached_or :
      {T : Type 0} → Async S (Fetched (Option T)) → Option T → Async S (Fetched (Option T))
  cached_or fetch none = fetch
  cached_or fetch (some value) = pure (fetched (some value))

module _ {S : Type 0} (unhandled : String → S → S) (wait : ℕ → S → S) (numbers : BigNumbers)
    (providers : FetchProviders S) (db : Option (Level S)) (formats : Formats) where
  unfoldable pub block_or_fetch : EthereumNode → ℤ → Option BlockInfo → Async S BlockInfo
  unfolding fire_and_forget
  block_or_fetch ethereum_node block_number (some cached_block) = pure cached_block
  block_or_fetch ethereum_node block_number none = do
    block ← get_block wait numbers providers.blocks (tag_number block_number) ethereum_node
    fire_and_forget unhandled (save_block_db db formats.block_info block)
    pure block

  -- The function that `getBlockRange` maps over the numbers
  unfoldable pub block_of : EthereumNode → ℤ → Async S BlockInfo
  unfolding block_or_fetch
  block_of ethereum_node block_number = do
    cached_block ← get_block_db db formats.block_info block_number
    block_or_fetch ethereum_node block_number cached_block

  unfoldable pub da_proof_gateway : DaProofsGateway S
  unfolding block_of cached_or
  da_proof_gateway = record {
    get_tx_result_from_cache = λ tx_id. get_tx_db db formats.tx_result tx_id;
    get_da_publication = λ tx_id.
        get_tx_da_metadata_db db formats.publication tx_id
        >>= cached_or (get_bundlr_by_id_api wait providers.publications tx_id);
    get_timestamp_proofs = λ timestamp_id tx_id.
        get_tx_timestamp_proofs_metadata_db db formats.timestamp_proofs tx_id
        >>= cached_or (get_bundlr_by_id_api wait providers.timestamp_proofs timestamp_id);
    get_block_range = λ block_numbers ethereum_node. all_of (block_of ethereum_node) block_numbers;
    has_signature_been_used_before = λ signature. has_signature_been_used_before_db db signature;
  }

module _ {S : Type 0} (wait : ℕ → S → S) (numbers : BigNumbers) (providers : FetchProviders S) where
  -- No cache and no signature usage in the client
  unfoldable pub client_da_proof_gateway : DaProofsGateway S
  client_da_proof_gateway = record {
    get_tx_result_from_cache = λ tx_id. pure none;
    get_da_publication = λ tx_id. get_bundlr_by_id_api wait providers.publications tx_id;
    get_timestamp_proofs =
        λ timestamp_id tx_id. get_bundlr_by_id_api wait providers.timestamp_proofs timestamp_id;
    get_block_range = λ block_numbers ethereum_node.
        all_of
          (λ block_number.
            get_block wait numbers providers.blocks (tag_number block_number) ethereum_node)
          block_numbers;
    has_signature_been_used_before = λ signature. pure false;
  }

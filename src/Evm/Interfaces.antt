-- ===== src/Evm/Interfaces.antt =====
-- What the publication checks use of the chain: the pure functions of the ethers library, which is not
-- part of the program, and the two Lens Hub gateways with the calls of evm/ethereum.ts, for the node
-- that a verifier was constructed with.
use momoka.Prelude.{ℤ, String, Bool, List, Settled}
use momoka.Models.{Value, TypedDataDomain, TypedDataField, TypedDataValue, PromiseResult}
use momoka.Evm.Types.{
  SplitSignature, PostWithSigRequest, PostParamsRequest, SignatureRequest, ProfileDetailsV1,
  ProfileDetailsV2,
}

-- ethers: each function that may throw returns a `Settled`.
pub record Ethers : Type 0 where
  -- `BigNumber.from`
  pub big_number_from : Value → Settled ℤ
  -- `toHexString`
  pub to_hex_string : ℤ → String
  -- `utils.verifyTypedData`: the address whose key made the signature
  pub verify_typed_data :
      TypedDataDomain
      → List (String × List TypedDataField)
      → TypedDataValue
      → String
      → Settled String
  -- `utils.splitSignature`
  pub split_signature : String → Settled SplitSignature

pub record LensHubV1Gateway (S : Type 0) : Type 0 where
  pub generate_post_simulation_data : Bool → PostWithSigRequest → PromiseResult S String
  pub get_on_chain_profile_details : ℤ → Value → String → PromiseResult S ProfileDetailsV1
  pub get_lens_pub_count : Value → ℤ → PromiseResult S ℤ

pub record LensHubV2Gateway (S : Type 0) : Type 0 where
  pub generate_post_simulation_data : PostParamsRequest → SignatureRequest → PromiseResult S String
  pub get_on_chain_profile_details : ℤ → Value → String → PromiseResult S ProfileDetailsV2
  pub get_lens_pub_count : Value → ℤ → PromiseResult S ℤ

pub record EvmApi (S : Type 0) : Type 0 where
  pub lens_hub_v1 : LensHubV1Gateway S
  pub lens_hub_v2 : LensHubV2Gateway S
  pub execute_simulation_transaction : String → ℤ → PromiseResult S String
  pub block_hash_exists : String → PromiseResult S Bool

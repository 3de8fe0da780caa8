-- ===== src/Evm/Types.antt =====
-- evm/ethereum.ts (`EthereumNode`, `BlockInfo`, `parseSignature`) and the requests of evm/abi-types that
-- the gateways send.
use momoka.Prelude.{ℕ, ℤ, String, Option, List, Bool}
use momoka.Common.{Environment, Deployment}
use momoka.Models.{Value}

pub record EthereumNode : Type 0 where
  pub environment : Environment
  pub node_url : String
  pub deployment : Option Deployment

pub record BlockInfo : Type 0 where
  pub number : ℤ
  pub timestamp : ℕ

-- `ethers.utils.splitSignature`
pub record SplitSignature : Type 0 where
  pub r : String
  pub s : String
  pub v : ℕ

pub record ParsedSignature : Type 0 where
  pub r : String
  pub s : String
  pub v : ℕ
  pub deadline : Value

-- `PostWithSig_DispatcherRequest` of LensHubV1
pub record PostWithSigRequest : Type 0 where
  pub profile_id : Value
  pub content_uri : Value
  pub collect_module : Value
  pub collect_module_init_data : Value
  pub reference_module : Value
  pub reference_module_init_data : Value
  pub sig : ParsedSignature

-- `PostParamsRequest` and `SignatureRequest` of LensHubV2
pub record PostParamsRequest : Type 0 where
  pub profile_id : Value
  pub content_uri : Value
  pub action_modules : Option (List Value)
  pub action_modules_init_datas : Option (List Value)
  pub reference_module : Value
  pub reference_module_init_data : Value

pub record SignatureRequest : Type 0 where
  pub parsed : ParsedSignature
  pub signer : String

-- What `getOnChainProfileDetails` of each gateway answers.
pub record ProfileDetailsV1 : Type 0 where
  pub sig_nonce : ℤ
  pub current_publication_id : String
  pub dispatcher_address : String
  pub owner_of_address : String

pub record ProfileDetailsV2 : Type 0 where
  pub nonces : ℤ
  pub current_publication_id : String
  pub is_signer_approved_executor : Bool
  pub owner_of_address : String

pub record SignerDetails : Type 0 where
  pub current_publication_id : String
  pub owner_of_address : String

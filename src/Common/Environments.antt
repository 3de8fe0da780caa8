-- ===== src/Common/Environments.antt =====
-- common/environment.ts. An environment or deployment read from the command line may be any text, for
-- which the code's `switch` has a default.
use momoka.Prelude.{ℕ, String, Settled, resolved, rejected}

pub data Environment : Type 0 where
  polygon mumbai amoy : Environment
  other_environment : String → Environment

pub data Deployment : Type 0 where
  production staging local_deployment : Deployment
  other_deployment : String → Deployment

unfoldable pub environment_to_chain_id : Environment → Settled ℕ
environment_to_chain_id polygon = resolved 137
environment_to_chain_id mumbai = resolved 80001
environment_to_chain_id amoy = resolved 80002
environment_to_chain_id (other_environment _) = rejected "Invalid environment"

unfoldable pub environment_to_lens_hub_contract : Environment → Settled String
environment_to_lens_hub_contract polygon = resolved "0xDb46d1Dc155634FbC732f92E853b10B288AD5a1d"
environment_to_lens_hub_contract mumbai = resolved "0x60Ae865ee4C725cd04353b5AAb364553f56ceF82"
environment_to_lens_hub_contract amoy = resolved "0xA2574D9DdB6A325Ad2Be838Bd854228B80215148"
environment_to_lens_hub_contract (other_environment _) = rejected "Invalid environment"

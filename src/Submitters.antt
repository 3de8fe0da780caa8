-- ===== src/Submitters.antt =====
-- momoka-node/src/submitters.ts.
pub mod Laws
use momoka.Prelude.{
  String, to_lower_case, Bool, Option, none, some, List, [], ◌∷◌, Settled, resolved, rejected,
  includes, eq_string,
}
use momoka.Common.{
  Environment, polygon, mumbai, amoy, other_environment, Deployment, production, staging,
  local_deployment, other_deployment,
}

-- The deployment is PRODUCTION where none is given.
abbrev pub or_production : Option Deployment → Deployment
or_production none = production
or_production (some deployment) = deployment

get_submitters_of : Deployment → Environment → Settled (List String)
get_submitters_of production polygon =
    resolved (to_lower_case "0xBe29464B9784a0d8956f29630d8bc4D7B5737435" ∷ [])
get_submitters_of production mumbai =
    resolved (to_lower_case "0xF1143C45953066718dE115578cf31c237B062a15" ∷ [])
get_submitters_of production amoy =
    resolved (to_lower_case "0x085be9a079aB75608fB794f2D288A375856e3f60" ∷ [])
get_submitters_of staging polygon = rejected "Not Supported"
get_submitters_of staging mumbai =
    resolved (to_lower_case "0x55307bfae6DF8988F59FE20272bC68792b130415" ∷ [])
get_submitters_of staging amoy =
    resolved (to_lower_case "0xC1b3BF1D611f1148F1799E90f7342860499Ba9D9" ∷ [])
get_submitters_of local_deployment polygon = rejected "Not Supported"
get_submitters_of local_deployment mumbai =
    resolved (to_lower_case "0x8Fc176aA6FC843D3422f0C1832f1b9E17be00C1c" ∷ [])
get_submitters_of local_deployment amoy =
    resolved (to_lower_case "0xcD7739d0b2ceFAb809FEF4e839a55b2627B60205" ∷ [])
get_submitters_of (other_deployment _) environment = rejected "Invalid deployment"
get_submitters_of deployment (other_environment _) = rejected "Invalid environment"

unfoldable pub get_submitters : Environment → Option Deployment → Settled (List String)
unfolding get_submitters_of
get_submitters environment deployment = get_submitters_of (or_production deployment) environment

abbrev includes_address : Settled (List String) → String → Settled Bool
includes_address (resolved submitters) address =
    resolved (includes submitters (to_lower_case address))
includes_address (rejected message) address = rejected message

unfoldable pub is_valid_submitter : Environment → String → Option Deployment → Settled Bool
unfolding get_submitters
is_valid_submitter environment address deployment =
    includes_address (get_submitters environment deployment) address

-- ===== src/Submitters/Laws.antt =====
-- Who is a valid submitter, against a table of the seven addresses.
use momoka.Prelude.{
  String, ◌≡◌, refl, ◌↔◌, true, Option, none, some, to_lower_case, resolved, arith, eq_iff,
}
use momoka.Common.{
  Environment, polygon, mumbai, amoy, Deployment, production, staging, local_deployment,
}
use mathlib.Core.List.{[], ◌∷◌}
use momoka.Submitters.{is_valid_submitter, or_production, includes_address}

-- The address that may submit, in lower case.
abbrev pub submitter_address : Deployment → Environment → Option String
submitter_address production polygon = some "0xbe29464b9784a0d8956f29630d8bc4d7b5737435"
submitter_address production mumbai = some "0xf1143c45953066718de115578cf31c237b062a15"
submitter_address production amoy = some "0x085be9a079ab75608fb794f2d288a375856e3f60"
submitter_address staging mumbai = some "0x55307bfae6df8988f59fe20272bc68792b130415"
submitter_address staging amoy = some "0xc1b3bf1d611f1148f1799e90f7342860499ba9d9"
submitter_address local_deployment mumbai = some "0x8fc176aa6fc843d3422f0c1832f1b9e17be00c1c"
submitter_address local_deployment amoy = some "0xcd7739d0b2cefab809fef4e839a55b2627b60205"
submitter_address _ _ = none

address_case :
    (submitter address : String)
    → (includes_address (resolved (submitter ∷ [])) address ≡ resolved true)
      ↔ (some submitter ≡ some (to_lower_case address))
address_case submitter address = ground (arith, eq_iff submitter (to_lower_case address))

table_case :
    (deployment : Deployment) (environment : Environment) (address : String)
    → (is_valid_submitter environment address (some deployment) ≡ resolved true)
      ↔ (submitter_address deployment environment ≡ some (to_lower_case address))
unfolding is_valid_submitter to_lower_case
table_case production polygon address =
    address_case (to_lower_case "0xBe29464B9784a0d8956f29630d8bc4D7B5737435") address
table_case production mumbai address =
    address_case (to_lower_case "0xF1143C45953066718dE115578cf31c237B062a15") address
table_case production amoy address =
    address_case (to_lower_case "0x085be9a079aB75608fB794f2D288A375856e3f60") address
table_case staging mumbai address =
    address_case (to_lower_case "0x55307bfae6DF8988F59FE20272bC68792b130415") address
table_case staging amoy address =
    address_case (to_lower_case "0xC1b3BF1D611f1148F1799E90f7342860499Ba9D9") address
table_case local_deployment mumbai address =
    address_case (to_lower_case "0x8Fc176aA6FC843D3422f0C1832f1b9E17be00C1c") address
table_case local_deployment amoy address =
    address_case (to_lower_case "0xcD7739d0b2ceFAb809FEF4e839a55b2627B60205") address
table_case _ _ address = (λ h. cc, λ h. cc)

or_production_case :
    (environment : Environment) (address : String) (deployment : Option Deployment)
    → is_valid_submitter environment address deployment
      ≡ is_valid_submitter environment address (some (or_production deployment))
unfolding is_valid_submitter
or_production_case environment address deployment = refl

-- An address is a valid submitter exactly when the table has an address for the environment and the
-- deployment (PRODUCTION if none is given) and it is that one, whatever the case of its letters.
pub is_valid_submitter-iff-table :
    (environment : Environment) (address : String) (deployment : Option Deployment)
    → (is_valid_submitter environment address deployment ≡ resolved true)
      ↔ (submitter_address (or_production deployment) environment ≡ some (to_lower_case address))
is_valid_submitter-iff-table environment address deployment =
    rw or_production_case (table_case (or_production deployment) environment address)

-- ===== src/Proofs/Submissions.antt =====
-- proofs/check-da-proof.ts and client/check-da-proof-client.ts: the two checkers that the program puts
-- together, over what it asks of the libraries and of the network.
use momoka.Prelude.{ℕ, String, Option, Async}
use momoka.Models.{
  DaStructurePublication, DaPublicationWithTimestampProofsBatchResult, PromiseWithContextResult,
}
use momoka.Evm.{Ethers, EthereumNode, EvmApi}
use momoka.Evm.JsonRpc.{Post}
use momoka.Evm.Node.{BigNumbers}
use momoka.Evm.Gateways.{Encodings, evm_api}
use momoka.Requests.{FetchProvider, BundlrTx}
use momoka.Database.{Level}
use momoka.Proofs.Gateways.{FetchProviders, Formats, da_proof_gateway, client_da_proof_gateway}
use momoka.Proofs.Verifiers.{
  Messages, HandlerWorkerRequest, HandlerAnswer, da_proof_verifier, client_da_proof_verifier,
}
use momoka.Proofs.Utils as Utils
use momoka.Proofs.Checker.{check_da_proof, check_da_proof_with_metadata}
use momoka.Proofs.Checker.Interfaces.{CheckDaSubmissionOptions}

-- The libraries and the network: axios, ethers, ethereum-multicall, time, and what the runtime makes
-- of a rejection that nobody handles.
pub record Services (S : Type 0) : Type 0 where
  pub wait : ℕ → S → S
  pub unhandled : String → S → S
  pub ethers : Ethers
  pub numbers : BigNumbers
  pub encodings : Encodings
  pub eth_calls : Post S String
  pub providers : FetchProviders S
  pub transactions : FetchProvider S BundlrTx

module _ {S : Type 0} (services : Services S) where
  abbrev pub api_of : EthereumNode → EvmApi S
  api_of ethereum_node =
      evm_api services.wait services.ethers services.numbers services.encodings services.eth_calls
        ethereum_node services.providers.blocks

  -- What a check resolves to.
  abbrev pub Checked : Type 0
  Checked = PromiseWithContextResult S DaStructurePublication DaStructurePublication

  -- The node's, over its database and its worker pool
  module _ (db : Option (Level S)) (formats : Formats)
      (execute : HandlerWorkerRequest → Async S HandlerAnswer) (ethereum_node : EthereumNode) where
    unfoldable pub check_da_proof_on_node : String → CheckDaSubmissionOptions → Checked
    check_da_proof_on_node tx_id options =
        check_da_proof (da_proof_verifier services.wait services.transactions execute)
          (da_proof_gateway services.unhandled services.wait services.numbers services.providers db
            formats)
          services.ethers (api_of ethereum_node) ethereum_node tx_id options

    unfoldable pub check_da_proof_with_metadata_on_node :
        String → DaPublicationWithTimestampProofsBatchResult → CheckDaSubmissionOptions → Checked
    check_da_proof_with_metadata_on_node tx_id b options =
        check_da_proof_with_metadata (da_proof_verifier services.wait services.transactions execute)
          (da_proof_gateway services.unhandled services.wait services.numbers services.providers db
            formats)
          services.ethers (api_of ethereum_node) ethereum_node tx_id b options

  -- The browser client's
  unfoldable pub check_da_proof_in_client :
      Messages → Utils.Providers S → EthereumNode → String → CheckDaSubmissionOptions → Checked
  check_da_proof_in_client messages arweave ethereum_node tx_id options =
      check_da_proof (client_da_proof_verifier services.wait services.transactions messages arweave)
        (client_da_proof_gateway services.wait services.numbers services.providers) services.ethers
        (api_of ethereum_node) ethereum_node tx_id options

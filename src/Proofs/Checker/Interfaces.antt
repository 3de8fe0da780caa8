-- ===== src/Proofs/Checker/Interfaces.antt =====
-- The interfaces `DAProofsVerifier` and `DAProofsGateway` of proofs/da-proof-checker.ts, which a node and
-- a browser client implement, proofs/models/check-da-submisson-options.ts and
-- input-output/tx-validated-results.ts.
use momoka.Prelude.{ℤ, String, Bool, true, false, Option, List, Async}
use momoka.Common.{Environment, Deployment}
use momoka.Models.{DaStructurePublication, DaTimestampProofsResponse, MomokaValidatorError}
use momoka.Evm.{EthereumNode, BlockInfo}

-- `A | TimeoutError`
pub data Fetched (A : Type 0) : Type 0 where
  timeout_error : Fetched A
  fetched : A → Fetched A

pub data TxValidatedResult : Type 0 where
  validated_success : (proof_tx_id : String) → DaStructurePublication → TxValidatedResult
  validated_failure :
      (proof_tx_id : String)
      → (failure_reason : MomokaValidatorError) → Option DaStructurePublication
      → (extra_error_info : Option String) → TxValidatedResult

-- Logging is left out.
pub record CheckDaSubmissionOptions : Type 0 where
  pub verify_pointer : Bool
  pub by_pass_db : Bool

abbrev pub get_default_check_da_submission_options : CheckDaSubmissionOptions
get_default_check_da_submission_options = record { verify_pointer = true; by_pass_db = false }

pub record DaProofsVerifier (S : Type 0) : Type 0 where
  -- the address, and the publication as the method leaves it
  pub extract_address : DaStructurePublication → Async S (String × DaStructurePublication)
  pub verify_timestamp_signature : DaStructurePublication → Async S Bool
  pub verify_transaction_submitter :
      Environment → String → Option Deployment → Async S (Fetched Bool)

pub record DaProofsGateway (S : Type 0) : Type 0 where
  pub get_tx_result_from_cache : String → Async S (Option TxValidatedResult)
  pub get_da_publication : String → Async S (Fetched (Option DaStructurePublication))
  pub get_timestamp_proofs : String → String → Async S (Fetched (Option DaTimestampProofsResponse))
  pub get_block_range : List ℤ → EthereumNode → Async S (List BlockInfo)
  pub has_signature_been_used_before : String → Async S Bool

-- ===== src/Proofs/Checker/Lookups.antt =====
-- What `DaProofChecker` looks up before it checks: the cache, the gateway and the timestamp proofs.
use momoka.Prelude.{
  String, Bool, true, false, Option, some, none, resolved, Async, >>=-eq-resolved, ◌≡◌,
  replace_first, eq_string,
}
use momoka.Models.{DaStructurePublication, DaTimestampProofsResponse, success}
use momoka.Evm.{Ethers, EvmApi, EthereumNode}
use momoka.Proofs.Checker.{
  already_checked, check_uncached, publication_known, proofs_known, submitter_known,
  check_da_proof_using,
}
use momoka.Proofs.Checker.Interfaces.{
  DaProofsVerifier, DaProofsGateway, CheckDaSubmissionOptions, Fetched, fetched, timeout_error,
}
use momoka.Proofs.Checker.Soundness.{SubmissionAccepted, check_da_proof_data-SubmissionAccepted}

module _ {S : Type 0} (verifier : DaProofsVerifier S) (gateway : DaProofsGateway S)
    (ethers : Ethers) (evm : EvmApi S) (ethereum_node : EthereumNode)
    (check_pointer : String → Async S Bool) where
  -- What an accepted id that is not in the cache has shown: the publication under the id without
  -- `ar://`, its timestamp proofs, whose submitter was verified, and the acceptance of the submission.
  pub record FetchedAccepted (tx_id : String) (verify_pointer : Bool)
      (result : DaStructurePublication) (s s' : S) : Type 0 where
    pub publication : DaStructurePublication
    pub proofs : DaTimestampProofsResponse
    pub found : S
    pub proven : S
    pub submitted : S
    pub is_fetched :
        gateway.get_da_publication (replace_first "ar://" tx_id) s
        ≡ (resolved (fetched (some publication)), found)
    pub is_proven :
        gateway.get_timestamp_proofs publication.timestamp_proofs.response.id
          (replace_first "ar://" tx_id)
          found
        ≡ (resolved (fetched (some proofs)), proven)
    pub is_submitted :
        verifier.verify_transaction_submitter ethereum_node.environment
          publication.timestamp_proofs.response.id ethereum_node.deployment proven
        ≡ (resolved (fetched true), submitted)
    pub is_accepted :
        SubmissionAccepted verifier gateway ethers evm ethereum_node check_pointer publication
          proofs verify_pointer result submitted s'

  -- With the database by-passed, an id is accepted only if its publication and its timestamp proofs
  -- were fetched, under the id without `ar://`, the proofs' submitter was verified, and the submission
  -- was accepted.
  pub check_da_proof_using-FetchedAccepted :
      (tx_id : String) (verify_pointer : Bool) (result : DaStructurePublication) (s s' : S)
      → check_da_proof_using verifier gateway ethers evm ethereum_node check_pointer tx_id
          (record { verify_pointer = verify_pointer; by_pass_db = true })
          s
        ≡ (resolved (success result), s')
      → FetchedAccepted tx_id verify_pointer result s s'
  unfolding check_da_proof_using check_uncached already_checked publication_known proofs_known
      submitter_known
  check_da_proof_using-FetchedAccepted tx_id verify_pointer result s s' h =
      let (found, t, e, h1) =
        >>=-eq-resolved (gateway.get_da_publication id)
          (publication_known verifier gateway ethers evm ethereum_node check_pointer options id)
          h in
      from_publication found t e h1
    where
      options : CheckDaSubmissionOptions
      options = record { verify_pointer = verify_pointer; by_pass_db = true }

      id : String
      id = replace_first "ar://" tx_id

      from_submitter :
          (p : DaStructurePublication) (proofs : DaTimestampProofsResponse) (t u : S)
          → gateway.get_da_publication id s ≡ (resolved (fetched (some p)), t)
          → gateway.get_timestamp_proofs p.timestamp_proofs.response.id id t
            ≡ (resolved (fetched (some proofs)), u)
          → (submitter : Fetched Bool) (v : S)
          → verifier.verify_transaction_submitter ethereum_node.environment
              p.timestamp_proofs.response.id ethereum_node.deployment u
            ≡ (resolved submitter, v)
          → submitter_known verifier gateway ethers evm ethereum_node check_pointer options p proofs
              submitter v
            ≡ (resolved (success result), s')
          → FetchedAccepted tx_id verify_pointer result s s'
      from_submitter p proofs t u e e1 timeout_error v e2 k = cc
      from_submitter p proofs t u e e1 (fetched false) v e2 k = cc
      from_submitter p proofs t u e e1 (fetched true) v e2 k = record {
        publication = p;
        proofs = proofs;
        found = t;
        proven = u;
        submitted = v;
        is_fetched = e;
        is_proven = e1;
        is_submitted = e2;
        is_accepted =
            check_da_proof_data-SubmissionAccepted verifier gateway ethers evm ethereum_node
              check_pointer p proofs options result v s' k;
      }

      from_proofs :
          (p : DaStructurePublication) (t : S)
          → gateway.get_da_publication id s ≡ (resolved (fetched (some p)), t)
          → (proofs : Fetched (Option DaTimestampProofsResponse)) (u : S)
          → gateway.get_timestamp_proofs p.timestamp_proofs.response.id id t ≡ (resolved proofs, u)
          → proofs_known verifier gateway ethers evm ethereum_node check_pointer options p proofs u
            ≡ (resolved (success result), s')
          → FetchedAccepted tx_id verify_pointer result s s'
      from_proofs p t e timeout_error u e1 k = cc
      from_proofs p t e (fetched none) u e1 k = cc
      from_proofs p t e (fetched (some proofs)) u e1 k =
          let (submitter, v, e2, k1) =
            >>=-eq-resolved
              (verifier.verify_transaction_submitter ethereum_node.environment
                p.timestamp_proofs.response.id ethereum_node.deployment)
              (submitter_known verifier gateway ethers evm ethereum_node check_pointer options p
                proofs)
              k in
          from_submitter p proofs t u e e1 submitter v e2 k1

      from_publication :
          (found : Fetched (Option DaStructurePublication)) (t : S)
          → gateway.get_da_publication id s ≡ (resolved found, t)
          → publication_known verifier gateway ethers evm ethereum_node check_pointer options id
              found t
            ≡ (resolved (success result), s')
          → FetchedAccepted tx_id verify_pointer result s s'
      from_publication timeout_error t e k = cc
      from_publication (fetched none) t e k = cc
      from_publication (fetched (some p)) t e k =
          let (proofs, u, e1, k1) =
            >>=-eq-resolved (gateway.get_timestamp_proofs p.timestamp_proofs.response.id id)
              (proofs_known verifier gateway ethers evm ethereum_node check_pointer options p) k in
          from_proofs p t e proofs u e1 k1

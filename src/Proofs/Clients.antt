-- ===== src/Proofs/Clients.antt =====
-- A browser client gets and verifies what a check needs as a node does that has no database.
use mathlib.Core.Path.{fun_ext}
use momoka.Prelude.{
  Bool, ℕ, ℤ, String, Option, none, some, Settled, resolved, rejected, Async, pure, settle, all_of,
  ◌>>=◌, settled-cases, >>=-eq-resolved, inl, inr, ◌≡◌, refl, ap, ◌∙◌,
}
use momoka.Models.{DaStructurePublication}
use momoka.Evm.{EthereumNode, BlockInfo}
use momoka.Evm.Node.{BigNumbers, tag_number, get_block}
use momoka.Requests.{FetchProvider, BundlrTx}
use momoka.Database.{
  get_tx_db, get_block_db, save_block_db, has_signature_been_used_before_db, get_tx_da_metadata_db,
  get_tx_timestamp_proofs_metadata_db,
}
use momoka.Proofs.Checker.Interfaces.{DaProofsVerifier}
use momoka.Proofs.Gateways.{
  FetchProviders, Formats, fire_and_forget, cached_or, block_or_fetch, block_of, da_proof_gateway,
  client_da_proof_gateway,
}
use momoka.Proofs.Verifiers.{
  Messages, evm_verify_message, address_answer, validity_answer, deep_clone, without_signature,
  HandlerWorkerRequest, HandlerAnswer, bundlr_verify_receipt, execute_worker,
  evm_verify_message_worker, bundlr_verify_receipt_worker, as_address, as_validity,
  da_proof_verifier, client_da_proof_verifier,
}
use momoka.Proofs.Utils as Utils

module _ {S A : Type 0} where
  >>=-pure : (m : Async S A) → (m >>= λ a. pure a) ≡ m
  >>=-pure m = fun_ext λ s. elim (settled-cases (m s)) [
    | inl (a, t, e) ↦ rw e refl
    | inr (message, t, e) ↦ rw e refl
  ]

module _ {S : Type 0} (unhandled : String → S → S) (wait : ℕ → S → S) (numbers : BigNumbers)
    (providers : FetchProviders S) (formats : Formats) where
  block_of-no_db :
      (node : EthereumNode) (n : ℤ)
      → block_of unhandled wait numbers providers none formats node n
        ≡ get_block wait numbers providers.blocks (tag_number n) node
  unfolding block_of block_or_fetch get_block_db save_block_db fire_and_forget
  block_of-no_db node n = >>=-pure (get_block wait numbers providers.blocks (tag_number n) node)

  gateway-no_db :
      da_proof_gateway unhandled wait numbers providers none formats
      ≡ client_da_proof_gateway wait numbers providers
  unfolding da_proof_gateway client_da_proof_gateway get_tx_db has_signature_been_used_before_db
      get_tx_da_metadata_db get_tx_timestamp_proofs_metadata_db cached_or
  gateway-no_db =
      ap
        (λ (f : EthereumNode → ℤ → Async S BlockInfo).
          record (client_da_proof_gateway wait numbers providers) {
            get_block_range = λ block_numbers node. all_of (f node) block_numbers;
          })
        (fun_ext λ node. fun_ext λ n. block_of-no_db node n)

module _ {S : Type 0} (wait : ℕ → S → S) (transactions : FetchProvider S BundlrTx)
    (messages : Messages) (arweave : Utils.Providers S) where
  abbrev node_verifier : DaProofsVerifier S
  node_verifier = da_proof_verifier wait transactions (execute_worker messages arweave)

  abbrev client_verifier : DaProofsVerifier S
  client_verifier = client_da_proof_verifier wait transactions messages arweave

  address-in_worker :
      (p : DaStructurePublication) (signature : Option String)
      → ◌≡◌ {A = Async S (String × DaStructurePublication)}
          (settle (deep_clone signature) >>= λ sig.
            execute_worker messages arweave (evm_verify_message p sig) >>= λ answer.
            pure (as_address answer, p))
          (settle (deep_clone signature) >>= λ sig.
            settle (messages.verify_message (messages.stringify p) sig) >>= λ address.
            pure (address, p))
  unfolding execute_worker evm_verify_message_worker as_address deep_clone
  address-in_worker p none = refl
  address-in_worker p (some signature) =
      fun_ext λ s. answered (messages.verify_message (messages.stringify p) signature) s
    where
      answered :
          (r : Settled String) (s : S)
          → ◌≡◌ {A = Settled (String × DaStructurePublication) × S}
              (((settle r >>= λ address. pure (address_answer address)) >>= λ answer.
                  pure (as_address answer, p))
                s)
              ((settle r >>= λ address. pure (address, p)) s)
      answered (resolved address) s = refl
      answered (rejected message) s = refl

  validity-in_worker :
      (m : Async S Bool)
      → ((m >>= λ valid. pure (validity_answer valid)) >>= λ answer. pure (as_validity answer)) ≡ m
  unfolding as_validity
  validity-in_worker m = fun_ext λ s. elim (settled-cases (m s)) [
    | inl (a, t, e) ↦ rw e refl
    | inr (message, t, e) ↦ rw e refl
  ]

  verifier-in_worker : node_verifier ≡ client_verifier
  unfolding da_proof_verifier client_da_proof_verifier execute_worker bundlr_verify_receipt_worker
  verifier-in_worker =
      ap
        (λ (f : DaStructurePublication → Async S (String × DaStructurePublication)).
          record node_verifier { extract_address = f })
        (fun_ext λ p. address-in_worker (without_signature p) p.signature)
      ∙ ap
          (λ (f : DaStructurePublication → Async S Bool). record client_verifier {
            verify_timestamp_signature = f;
          })
          (fun_ext
            λ p. validity-in_worker (Utils.verify_receipt p.timestamp_proofs.response arweave))

module _ {S : Type 0} (wait : ℕ → S → S) (transactions : FetchProvider S BundlrTx)
    (messages : Messages) (arweave : Utils.Providers S)
    (execute : HandlerWorkerRequest → Async S HandlerAnswer) where
  -- What a worker thread answers, the pool answers. Of a request whose handler rejects nothing is known:
  -- the pool never answers it.
  pub record Answers : Type 0 where
    pub answer :
        (request : HandlerWorkerRequest) (a : HandlerAnswer) (s t : S)
        → execute_worker messages arweave request s ≡ (resolved a, t)
        → execute request s ≡ (resolved a, t)

  -- The node's verifier over the pool, and the client's.
  abbrev pooled : DaProofsVerifier S
  pooled = da_proof_verifier wait transactions execute

  abbrev direct : DaProofsVerifier S
  direct = client_da_proof_verifier wait transactions messages arweave

  address-pooled :
      Answers
      → (p : DaStructurePublication) (signature : Option String)
        (x : String × DaStructurePublication) (s t : S)
      → (settle (deep_clone signature) >>= λ sig.
            execute_worker messages arweave (evm_verify_message p sig) >>= λ answer.
            pure (as_address answer, p))
          s
        ≡ (resolved x, t)
      → (settle (deep_clone signature) >>= λ sig.
            execute (evm_verify_message p sig) >>= λ answer. pure (as_address answer, p))
          s
        ≡ (resolved x, t)
  unfolding deep_clone
  address-pooled answers p none x s t h = cc
  address-pooled answers p (some signature) x s t h =
      let (a, u, e, k) =
        >>=-eq-resolved (execute_worker messages arweave (evm_verify_message p signature)) _ h in
      rw (answers.answer (evm_verify_message p signature) a s u e) k

  validity-pooled :
      Answers
      → (request : HandlerWorkerRequest) (x : Bool) (s t : S)
      → (execute_worker messages arweave request >>= λ answer. pure (as_validity answer)) s
        ≡ (resolved x, t)
      → (execute request >>= λ answer. pure (as_validity answer)) s ≡ (resolved x, t)
  validity-pooled answers request x s t h =
      let (a, u, e, k) = >>=-eq-resolved (execute_worker messages arweave request) _ h in
      rw (answers.answer request a s u e) k

  -- If a pool answers what its worker threads answer, then what a browser client's verifier answers of a
  -- publication, the address that signed it and whether its receipt is valid, a node's verifier answers
  -- too, with the same publication left and the same requests. The test of the timestamp proofs' submitter
  -- is the same, and so is, without a database, all that the checks get from a gateway.
  pub da_proof_verifier-client :
      Answers
      → (unhandled : String → S → S) (numbers : BigNumbers) (providers : FetchProviders S)
        (formats : Formats)
      → ((p : DaStructurePublication) (x : String × DaStructurePublication) (s t : S)
          → direct.extract_address p s ≡ (resolved x, t)
          → pooled.extract_address p s ≡ (resolved x, t))
        × ((p : DaStructurePublication) (x : Bool) (s t : S)
            → direct.verify_timestamp_signature p s ≡ (resolved x, t)
            → pooled.verify_timestamp_signature p s ≡ (resolved x, t))
        × (pooled.verify_transaction_submitter ≡ direct.verify_transaction_submitter)
        × (da_proof_gateway unhandled wait numbers providers none formats
            ≡ client_da_proof_gateway wait numbers providers)
  unfolding da_proof_verifier client_da_proof_verifier
  da_proof_verifier-client answers unhandled numbers providers formats =
      let same = verifier-in_worker wait transactions messages arweave in
      (
        λ p x s t h.
            address-pooled answers (without_signature p) p.signature x s t
              (ap (λ v. v.extract_address p s) same ∙ h),
        λ p x s t h.
            validity-pooled answers (bundlr_verify_receipt p.timestamp_proofs.response) x s t
              (ap (λ v. v.verify_timestamp_signature p s) same ∙ h),
        refl,
        gateway-no_db unhandled wait numbers providers formats,
      )

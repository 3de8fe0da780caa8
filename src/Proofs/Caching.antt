-- ===== src/Proofs/Caching.antt =====
-- proofs/da-proof-gateway.ts and the database: the blocks of `getBlockRange`, and the results of checks.
use momoka.Prelude.{
  Async, ℕ, ℤ, Bool, false, String, Option, none, some, resolved, rejected, try_catch,
  >>=-eq-resolved, resolved_inj, settled-cases, inl, inr, ◌≡◌, refl, sym, ap, ◌∙◌, subst,
  to_decimal,
}
use momoka.Evm.{Ethers, EvmApi, EthereumNode, BlockInfo}
use momoka.Evm.Node.{BigNumbers, tag_number, get_block}
use momoka.Database.{
  Level, Json, block, db_key, read_json, write_or_throw, get_block_db, save_block_db, save_tx_db,
}
use momoka.Database.RoundTrips.{LevelLaws, get_block_db-save_block_db, get_tx_db-save_tx_db}
use momoka.Models.{
  DaStructurePublication, DaPublicationWithTimestampProofsBatchResult, DaResult, success, failed,
}
use momoka.Proofs.Checker.{
  tx_already_checked, already_checked, check_uncached, check_da_proof_using, metadata_uncached,
  check_da_proof_with_metadata_using,
}
use momoka.Proofs.Checker.Interfaces.{DaProofsVerifier, CheckDaSubmissionOptions}
use momoka.Proofs.Batch.{build_tx_validation_result}
use momoka.Proofs.Gateways.{
  FetchProviders, Formats, fire_and_forget, left_behind, block_or_fetch, block_of, da_proof_gateway,
}

module _ {S : Type 0} (level : Level S) where
  -- What the code relies on of Level here: nothing is changed by a get, and a put does not fail.
  pub record IsReliable : Type 0 where
    pub laws : LevelLaws level
    pub gets : (key : String) (s : S) → (level.get key s).1 ≡ s
    pub puts : (key value : String) (s : S) → (t : S) × (level.put key value s ≡ (resolved tt, t))

  -- Reading changes nothing, whatever is found.
  read_json-unchanged :
      {A : Type 0} (json : Json A) (key : String) (s : S)
      → IsReliable
      → (read_json level json key s).1 ≡ s
  unfolding read_json try_catch
  read_json-unchanged {A} json key s reliable = elim (settled-cases (level.get key s)) [
    | inl (text, t, e) ↦
        let kept : t ≡ s = ap (λ r. r.1) (sym e) ∙ reliable.gets key s in
        elim (settled-cases (json.parse text, t)) [
          | inl (a, u, p) ↦
              let parsed : json.parse text ≡ resolved a = ap (λ r. r.0) p in rw e (rw parsed kept)
          | inr (message, u, p) ↦
              let parsed : json.parse text ≡ rejected message = ap (λ r. r.0) p in
              rw e (rw parsed kept)
        ]
    | inr (message, t, e) ↦ rw e (ap (λ r. r.1) (sym e) ∙ reliable.gets key s)
  ]

  get_block_db-unchanged :
      (json : Json BlockInfo) (n : ℤ) (s : S)
      → IsReliable
      → (get_block_db (some level) json n s).1 ≡ s
  unfolding get_block_db
  get_block_db-unchanged json n s reliable =
      read_json-unchanged json (db_key block (to_decimal n)) s reliable

  -- A block is in the database from its writing on.
  saved-read :
      (unhandled : String → S → S) (json : Json BlockInfo) (b : BlockInfo) (s : S)
      → IsReliable
      → json.parse (json.stringify b) ≡ resolved b
      → let t = left_behind unhandled (save_block_db (some level) json b s) in
        get_block_db (some level) json b.number t ≡ (resolved (some b), t)
  unfolding save_block_db write_or_throw try_catch
  saved-read unhandled json b s reliable readable =
      let (t, put) = reliable.puts (db_key block (to_decimal b.number)) (json.stringify b) s in
      let saved : save_block_db (some level) json b s ≡ (resolved tt, t) = rw put refl in
      subst (λ x. get_block_db (some level) json b.number x ≡ (resolved (some b), x))
        (ap (left_behind unhandled) (sym saved))
        (get_block_db-save_block_db level reliable.laws json b s t readable saved)

module _ {S : Type 0} (unhandled : String → S → S) (wait : ℕ → S → S) (numbers : BigNumbers)
    (providers : FetchProviders S) (level : Level S) (formats : Formats)
    (ethereum_node : EthereumNode) (n : ℤ) where
  -- The node answers the block that it was asked for.
  pub record AnswersNumber : Type 0 where
    pub number :
        (b : BlockInfo) (s t : S)
        → get_block wait numbers providers.blocks (tag_number n) ethereum_node s ≡ (resolved b, t)
        → b.number ≡ n

  found-again :
      IsReliable level
      → AnswersNumber
      → (b : BlockInfo) → formats.block_info.parse (formats.block_info.stringify b) ≡ resolved b
      → (s s1 t : S) (cached : Option BlockInfo)
      → get_block_db (some level) formats.block_info n s ≡ (resolved cached, s1)
      → block_or_fetch unhandled wait numbers providers
          (some level)
          formats
          ethereum_node
          n
          cached
          s1
        ≡ (resolved b, t)
      → get_block_db (some level) formats.block_info n t ≡ (resolved (some b), t)
  unfolding block_or_fetch fire_and_forget
  found-again reliable answers b readable s s1 t (some c) e k =
      let same : c ≡ b = resolved_inj k in
      let left : s1 ≡ t = ap (λ r. r.1) k in
      let kept : s ≡ s1 =
        sym (get_block_db-unchanged level formats.block_info n s reliable) ∙ ap (λ r. r.1) e in
      ap (get_block_db (some level) formats.block_info n) (sym (kept ∙ left))
      ∙ e
      ∙ ap (λ x. (resolved (some x), s1)) same
      ∙ ap (λ x. (resolved (some b), x)) left
  found-again reliable answers b readable s s1 t none e k =
      let (c, u, fetched, rest) =
        >>=-eq-resolved (get_block wait numbers providers.blocks (tag_number n) ethereum_node) _
          k in
      let same : c ≡ b = resolved_inj rest in
      let left : left_behind unhandled (save_block_db (some level) formats.block_info c u) ≡ t =
        ap (λ r. r.1) rest in
      subst (λ x. get_block_db (some level) formats.block_info n t ≡ (resolved (some x), t)) same
        (subst (λ x. get_block_db (some level) formats.block_info n x ≡ (resolved (some c), x)) left
          (subst
            (λ m.
              get_block_db (some level) formats.block_info m
                (left_behind unhandled (save_block_db (some level) formats.block_info c u))
              ≡ (
                resolved (some c),
                left_behind unhandled (save_block_db (some level) formats.block_info c u),
              ))
            (answers.number c s1 u fetched)
            (saved-read level unhandled formats.block_info c u reliable (
              subst (λ x. formats.block_info.parse (formats.block_info.stringify x) ≡ resolved x)
                (sym same) readable))))

  -- If a block was found, in the database or by the node, and the database is reliable, the node answers
  -- the number that it was asked for, and the JSON of the block is read as it, then the block is found
  -- again, and finding it again changes nothing.
  pub block_of-again :
      IsReliable level
      → AnswersNumber
      → (b : BlockInfo) → formats.block_info.parse (formats.block_info.stringify b) ≡ resolved b
      → (s t : S)
      → block_of unhandled wait numbers providers (some level) formats ethereum_node n s
        ≡ (resolved b, t)
      → block_of unhandled wait numbers providers (some level) formats ethereum_node n t
        ≡ (resolved b, t)
  unfolding block_of block_or_fetch
  block_of-again reliable answers b readable s t h =
      let (cached, s1, e, k) =
        >>=-eq-resolved (get_block_db (some level) formats.block_info n)
          (block_or_fetch unhandled wait numbers providers (some level) formats ethereum_node n)
          h in
      let found = found-again reliable answers b readable s s1 t cached e k in rw found refl

module _ {S : Type 0} (verifier : DaProofsVerifier S) (ethers : Ethers) (evm : EvmApi S)
    (ethereum_node : EthereumNode) (check_pointer : String → Async S Bool)
    (unhandled : String → S → S) (wait : ℕ → S → S) (numbers : BigNumbers)
    (providers : FetchProviders S) (level : Level S) (formats : Formats) where
  -- If the result of a check was saved under an id, as `processPublication` saves it, in a store that gives
  -- back what was put, and its JSON is read as it, then both checks of that id answer that result from
  -- there, if the database is not by-passed, with the same error and the same publication beside it, and
  -- change nothing.
  pub checks-saved :
      LevelLaws level
      → (tx_id : String) (result : DaResult DaStructurePublication DaStructurePublication)
      → let saved = build_tx_validation_result tx_id result in
        formats.tx_result.parse (formats.tx_result.stringify saved) ≡ resolved saved
        → (s t : S)
        → save_tx_db
            (some level)
            formats.tx_result
            tx_id
            (build_tx_validation_result tx_id result)
            s
          ≡ (resolved tt, t)
        → (b : DaPublicationWithTimestampProofsBatchResult) (verify_pointer : Bool)
        → let gateway = da_proof_gateway unhandled wait numbers providers (some level) formats in
          let options : CheckDaSubmissionOptions = record {
            verify_pointer = verify_pointer;
            by_pass_db = false;
          } in
          (check_da_proof_using verifier gateway ethers evm ethereum_node check_pointer tx_id
              options t
            ≡ (resolved result, t))
          × (check_da_proof_with_metadata_using verifier gateway ethers evm ethereum_node
                check_pointer tx_id b options t
              ≡ (resolved result, t))
  unfolding check_da_proof_using check_uncached already_checked tx_already_checked
      check_da_proof_with_metadata_using metadata_uncached da_proof_gateway
      build_tx_validation_result
  checks-saved laws tx_id (success p) readable s t h b verify_pointer =
      let found = get_tx_db-save_tx_db level laws formats.tx_result tx_id _ s t readable h in
      (rw found refl, rw found refl)
  checks-saved laws tx_id (failed reason context) readable s t h b verify_pointer =
      let found = get_tx_db-save_tx_db level laws formats.tx_result tx_id _ s t readable h in
      (rw found refl, rw found refl)

-- ===== src/Proofs/Publications/Simulation.antt =====
-- What a success of `verifySimulation` says.
use momoka.Prelude.{ℤ, String, resolved, both, ◌≡◌, ap, ◌∙◌, eq_int, add_one}
use momoka.Models.{text, DaStructurePublication, success, PromiseResult}
use momoka.Models.Chain.{lift, compute, chained, compute-eq-success, lift-eq-success}
use momoka.Evm.{Ethers, EvmApi, ParsedSignature}
use momoka.Proofs.Publications.Post.{
  compare_results, get_expected_result, verify_simulation_v1, verify_simulation_v2, post_request_v1,
  post_request_v2, parse_signature,
}
use momoka.Proofs.Publications.Base.{who_signed_typed_data}
use momoka.Proofs.Publications.Signers.{who_signed_typed_data-eq-success}
use momoka.Proofs.Publications.Comparison.{expected_and_simulated, simulated_then_expected}

module _ {S : Type 0} (ethers : Ethers) (evm : EvmApi S) where
  -- The simulation of a V1 post at its block gave the id after the profile's count there, and it was
  -- of the post that was signed.
  pub record SimulatedV1 (p : DaStructurePublication) (simulated : String) (s s' : S) : Type 0 where
    pub sig : ParsedSignature
    pub data' : String
    pub count : ℤ
    pub generated : S
    pub sent : S
    pub is_parsed :
        parse_signature ethers p.chain_proofs.this_publication.signature
          p.chain_proofs.this_publication.typed_data.value.deadline
        ≡ resolved sig
    pub is_generated :
        evm.lens_hub_v1.generate_post_simulation_data
          p.chain_proofs.this_publication.signed_by_delegate
          (post_request_v1 p sig)
          s
        ≡ (resolved (success data'), generated)
    pub is_simulated :
        evm.execute_simulation_transaction data' p.chain_proofs.this_publication.block_number
          generated
        ≡ (resolved (success simulated), sent)
    pub is_counted :
        evm.lens_hub_v1.get_lens_pub_count
          p.chain_proofs.this_publication.typed_data.value.profile_id
          p.chain_proofs.this_publication.block_number sent
        ≡ (resolved (success count), s')
    pub is_next : ethers.big_number_from (text simulated) ≡ resolved (add_one count)

  pub verify_simulation_v1-Simulated :
      (p : DaStructurePublication) {simulated : String} {s s' : S}
      → verify_simulation_v1 ethers evm p s ≡ (resolved (success simulated), s')
      → SimulatedV1 p simulated s s'
  unfolding verify_simulation_v1
  verify_simulation_v1-Simulated p {simulated} {s} {s'} h =
      let proof = p.chain_proofs.this_publication in
      let value = proof.typed_data.value in
      let run : String → PromiseResult S String =
        λ data'. evm.execute_simulation_transaction data' proof.block_number in
      let pub_count = evm.lens_hub_v1.get_lens_pub_count value.profile_id proof.block_number in
      chained (compute (parse_signature ethers proof.signature value.deadline)) _ h (λ sig t e h1.
        chained
          (evm.lens_hub_v1.generate_post_simulation_data proof.signed_by_delegate
            (post_request_v1 p sig))
          _ h1
          (λ data' generated e1 h2.
            chained (lift (both (run data') (get_expected_result ethers evm pub_count))) _ h2
              (λ results u e2 h3.
                let (parsed, same) =
                  compute-eq-success (parse_signature ethers proof.signature value.deadline) e in
                let (count, sent, ran, found, is_next) =
                  simulated_then_expected ethers evm p (run data') pub_count results e2 h3 in
                record {
                  sig = sig;
                  data' = data';
                  count = count;
                  generated = generated;
                  sent = sent;
                  is_parsed = parsed;
                  is_generated =
                      ap
                        (evm.lens_hub_v1.generate_post_simulation_data proof.signed_by_delegate
                          (post_request_v1 p sig))
                        same
                      ∙ e1;
                  is_simulated = ran;
                  is_counted = found;
                  is_next = is_next;
                })))

  -- The simulation of a V2 post at its block gave the id after the profile's count there, and it was
  -- of the post that was signed, by whose key signed it.
  pub record SimulatedV2 (p : DaStructurePublication) (simulated : String) (s s' : S) : Type 0 where
    pub who_signed : String
    pub sig : ParsedSignature
    pub data' : String
    pub count : ℤ
    pub generated : S
    pub counted : S
    pub recovered :
        ethers.verify_typed_data p.chain_proofs.this_publication.typed_data.domain
          p.chain_proofs.this_publication.typed_data.types
          p.chain_proofs.this_publication.typed_data.value p.chain_proofs.this_publication.signature
        ≡ resolved who_signed
    pub is_parsed :
        parse_signature ethers p.chain_proofs.this_publication.signature
          p.chain_proofs.this_publication.typed_data.value.deadline
        ≡ resolved sig
    pub is_generated :
        evm.lens_hub_v2.generate_post_simulation_data
          (post_request_v2 p)
          (record { parsed = sig; signer = who_signed })
          s
        ≡ (resolved (success data'), generated)
    pub is_counted :
        evm.lens_hub_v2.get_lens_pub_count
          p.chain_proofs.this_publication.typed_data.value.profile_id
          p.chain_proofs.this_publication.block_number generated
        ≡ (resolved (success count), counted)
    pub is_simulated :
        evm.execute_simulation_transaction data' p.chain_proofs.this_publication.block_number
          counted
        ≡ (resolved (success simulated), s')
    pub is_next : ethers.big_number_from (text simulated) ≡ resolved (add_one count)

  pub verify_simulation_v2-Simulated :
      (p : DaStructurePublication) {simulated : String} {s s' : S}
      → verify_simulation_v2 ethers evm p s ≡ (resolved (success simulated), s')
      → SimulatedV2 p simulated s s'
  unfolding verify_simulation_v2
  verify_simulation_v2-Simulated p {simulated} {s} {s'} h =
      let proof = p.chain_proofs.this_publication in
      let typed = proof.typed_data in
      let run : String → PromiseResult S String =
        λ data'. evm.execute_simulation_transaction data' proof.block_number in
      let pub_count =
        evm.lens_hub_v2.get_lens_pub_count typed.value.profile_id proof.block_number in
      chained (who_signed_typed_data ethers typed.domain typed.types typed.value proof.signature) _
        h
        (λ who t0 e0 h0.
          chained (compute (parse_signature ethers proof.signature typed.value.deadline)) _ h0
            (λ sig t e h1.
              chained
                (evm.lens_hub_v2.generate_post_simulation_data (post_request_v2 p)
                  (record { parsed = sig; signer = who }))
                _ h1
                (λ data' generated e1 h2.
                  chained (lift (get_expected_result ethers evm pub_count)) _ h2
                    (λ expected u e2 h3.
                      chained (lift (run data'))
                        (λ simulated_result. compare_results ethers evm p simulated_result expected)
                        h3
                        (λ result v e3 h4.
                          let (recovered, same0) =
                            who_signed_typed_data-eq-success ethers typed.domain typed.types
                              typed.value proof.signature e0 in
                          let (parsed, same) =
                            compute-eq-success
                              (parse_signature ethers proof.signature typed.value.deadline) e in
                          let (count, is_result, found, is_next, ended) =
                            expected_and_simulated ethers evm p pub_count result expected
                              (lift-eq-success (get_expected_result ethers evm pub_count) e2) h4 in
                          record {
                            who_signed = who;
                            sig = sig;
                            data' = data';
                            count = count;
                            generated = generated;
                            counted = u;
                            recovered = recovered;
                            is_parsed = parsed;
                            is_generated =
                                ap
                                  (evm.lens_hub_v2.generate_post_simulation_data (post_request_v2 p)
                                    (record { parsed = sig; signer = who }))
                                  (same0 ∙ same)
                                ∙ e1;
                            is_counted = found;
                            is_simulated =
                                lift-eq-success (run data') e3
                                ∙ ap (λ x. (resolved x, v)) is_result
                                ∙ ap (λ x. (resolved (success simulated), x)) ended;
                            is_next = is_next;
                          })))))

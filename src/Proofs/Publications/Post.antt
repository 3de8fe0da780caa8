-- ===== src/Proofs/Publications/Post.antt =====
-- proofs/publications/post: da-post-verifier-v1.ts, da-post-verifier-v2.ts, index.ts, and
-- `parseSignature` of evm/ethereum.ts.
use momoka.Prelude.{
  ℤ, String, Bool, true, false, not, ◌&&◌, Option, none, [], ◌∷◌, Settled, resolved, rejected,
  settle, is_present, ◌==◌, if◌then◌else◌, add_one, both, eq_int,
}
use momoka.Models.{
  Value, text, DaStructurePublication, EventParams, DaResult, PromiseResult, succeed, fail,
  post_created, eq_action,
}
use momoka.Models.Chain.{◌>>=◌, ◌>>◌, guard, lift, compute, of_result}
use momoka.Evm.{Ethers, EvmApi, ParsedSignature, PostWithSigRequest, PostParamsRequest}
use momoka.Proofs.Publications.Checks.{
  Verdict, any_of, differs, arrays_differ, is_not_empty, empty_byte, number_differs,
  unless_mismatch, matched,
}
use momoka.Proofs.Publications.Base.{who_signed_typed_data}
use momoka.Models.Errors.{potential_reorg, simulation_failed, invalid_pointer_set_not_needed}

unfoldable pub is_da_post_publication_v1 : DaStructurePublication → Bool
is_da_post_publication_v1 p = p.type == post_created && not (is_present p.event.post_params)

-- The parameters, if the publication is a V2 post.
unfoldable pub is_da_post_publication_v2 : DaStructurePublication → Option EventParams
is_da_post_publication_v2 p = if p.type == post_created then p.event.post_params else none

unfoldable pub equal_numbers : ℤ → Settled ℤ → Settled Bool
equal_numbers expected (resolved n) = resolved (expected == n)
equal_numbers expected (rejected message) = rejected message

module _ (ethers : Ethers) where
  unfoldable pub parse_signature : String → Value → Settled ParsedSignature
  parse_signature signature deadline = elim (ethers.split_signature signature) [
    | resolved split ↦
        resolved (record { r = split.r; s = split.s; v = split.v; deadline = deadline })
    | rejected message ↦ rejected message
  ]

  -- `expected.eq(simulated)`, the second a text
  unfoldable pub big_number_eq : ℤ → String → Settled Bool
  unfolding equal_numbers
  big_number_eq expected simulated =
      equal_numbers expected (ethers.big_number_from (text simulated))

  -- `DAPostVerifierV1.verifyEventWithTypedData`
  unfoldable pub verify_post_event_v1 : DaStructurePublication → String → Verdict
  verify_post_event_v1 p simulated_pub_result =
      let event = p.event in
      let value = p.chain_proofs.this_publication.typed_data.value in
      unless_mismatch
        (any_of (
          number_differs ethers simulated_pub_result event.pub_id
          ∷ differs value.profile_id event.profile_id
          ∷ differs value.content_uri event.content_uri
          ∷ differs value.collect_module event.collect_module
          ∷ differs event.collect_module_return_data empty_byte
          ∷ differs value.reference_module event.reference_module
          ∷ differs event.reference_module_return_data empty_byte
          ∷ differs value.collect_module_init_data empty_byte
          ∷ differs value.reference_module_init_data empty_byte
          ∷ []))
        matched

  -- `DAPostVerifierV2.verifyEventWithTypedData`
  unfoldable pub verify_post_event_v2 : EventParams → DaStructurePublication → String → Verdict
  verify_post_event_v2 params p simulated_pub_result =
      let event = p.event in
      let value = p.chain_proofs.this_publication.typed_data.value in
      unless_mismatch
        (any_of (
          number_differs ethers simulated_pub_result event.pub_id
          ∷ differs value.profile_id params.profile_id
          ∷ differs value.content_uri params.content_uri
          ∷ arrays_differ value.action_modules params.action_modules
          ∷ arrays_differ value.action_modules_init_datas params.action_modules_init_datas
          ∷ differs value.reference_module params.reference_module
          ∷ differs value.reference_module_init_data params.reference_module_init_data
          ∷ is_not_empty event.action_modules_init_return_datas
          ∷ differs event.reference_module_init_return_data empty_byte
          ∷ []))
        matched

pub data DaPostVerifier : Type 0 where
  post_v1 : DaStructurePublication → DaPostVerifier
  post_v2 : EventParams → DaStructurePublication → DaPostVerifier

-- The request of `generatePostSimulationData` of each verifier.
abbrev pub post_request_v1 : DaStructurePublication → ParsedSignature → PostWithSigRequest
post_request_v1 p sig =
    let value = p.chain_proofs.this_publication.typed_data.value in
    record {
      profile_id = value.profile_id;
      content_uri = value.content_uri;
      collect_module = value.collect_module;
      collect_module_init_data = value.collect_module_init_data;
      reference_module = value.reference_module;
      reference_module_init_data = value.reference_module_init_data;
      sig = sig;
    }

abbrev pub post_request_v2 : DaStructurePublication → PostParamsRequest
post_request_v2 p =
    let value = p.chain_proofs.this_publication.typed_data.value in
    record {
      profile_id = value.profile_id;
      content_uri = value.content_uri;
      action_modules = value.action_modules;
      action_modules_init_datas = value.action_modules_init_datas;
      reference_module = value.reference_module;
      reference_module_init_data = value.reference_module_init_data;
    }

-- `!exists` of a value of type `DAResult<boolean>`: an object is never falsy.
abbrev pub object_is_truthy : DaResult Bool Unit → Bool
object_is_truthy _ = true

module _ {S : Type 0} (ethers : Ethers) (evm : EvmApi S) where
  -- The end of both: the simulated result, if it was the expected one.
  unfoldable pub compare_equal : DaStructurePublication → String → Bool → PromiseResult S String
  compare_equal p simulated true = succeed simulated
  compare_equal p simulated false = do
    exists ← lift (evm.block_hash_exists p.chain_proofs.this_publication.block_hash)
    guard (object_is_truthy exists) potential_reorg
    fail simulation_failed

  -- What both verifiers do with the simulated and the expected result.
  unfoldable pub compare_results :
      DaStructurePublication → DaResult String Unit → DaResult ℤ Unit → PromiseResult S String
  unfolding compare_equal
  compare_results p simulated_result expected_result = do
    simulated ← of_result simulated_result
    expected ← of_result expected_result
    equal ← compute (big_number_eq ethers expected simulated)
    compare_equal p simulated equal

  -- `getExpectedResult` of each verifier, over its gateway's `getLensPubCount`
  unfoldable pub get_expected_result : PromiseResult S ℤ → PromiseResult S ℤ
  get_expected_result lens_pub_count = do
    publication_count ← lens_pub_count
    succeed (add_one publication_count)

  -- `DAPostVerifierV1.verifySimulation`
  unfoldable pub verify_simulation_v1 : DaStructurePublication → PromiseResult S String
  verify_simulation_v1 p = do
    let proof = p.chain_proofs.this_publication
    let value = proof.typed_data.value
    sig ← compute (parse_signature ethers proof.signature value.deadline)
    data' ←
        evm.lens_hub_v1.generate_post_simulation_data proof.signed_by_delegate
          (post_request_v1 p sig)
    results ← lift (
        both (evm.execute_simulation_transaction data' proof.block_number) (
          get_expected_result
            (evm.lens_hub_v1.get_lens_pub_count value.profile_id proof.block_number)))
    compare_results p results.0 results.1

  -- `DAPostVerifierV2.verifySimulation`
  unfoldable pub verify_simulation_v2 : DaStructurePublication → PromiseResult S String
  verify_simulation_v2 p = do
    let proof = p.chain_proofs.this_publication
    let typed_data = proof.typed_data
    let value = typed_data.value
    who_signed ←
        who_signed_typed_data ethers typed_data.domain typed_data.types value proof.signature
    signature ← compute (parse_signature ethers proof.signature value.deadline)
    data' ←
        evm.lens_hub_v2.generate_post_simulation_data (post_request_v2 p)
          (record { parsed = signature; signer = who_signed })
    expected_result ← lift (
        get_expected_result
          (evm.lens_hub_v2.get_lens_pub_count value.profile_id proof.block_number))
    simulated_result ← lift (evm.execute_simulation_transaction data' proof.block_number)
    compare_results p simulated_result expected_result

  unfoldable pub check_da_post : DaPostVerifier → PromiseResult S Unit
  check_da_post (post_v1 p) = do
    guard (not (is_present p.chain_proofs.pointer)) invalid_pointer_set_not_needed
    simulated ← verify_simulation_v1 p
    settle (verify_post_event_v1 ethers p simulated)
  check_da_post (post_v2 params p) = do
    guard (not (is_present p.chain_proofs.pointer)) invalid_pointer_set_not_needed
    simulated ← verify_simulation_v2 p
    settle (verify_post_event_v2 ethers params p simulated)

-- ===== src/Proofs/Publications/PostAccepted.antt =====
-- What a success of the checks of a post says.
use momoka.Prelude.{
  String, true, not, Option, some, none, resolved, ◌≡◌, refl, ap, subst, eq_int, is_present,
}
use momoka.Models.{success}
use momoka.Models.Errors.{invalid_pointer_set_not_needed}
use momoka.Models.Chain.{chained, guarded-eq-success}
use momoka.Evm.{Ethers, EvmApi}
use momoka.Proofs.Publications.Post.{
  DaPostVerifier, post_v1, post_v2, verify_simulation_v1, verify_simulation_v2, check_da_post,
}
use momoka.Proofs.Publications.Events.Post.{
  IsPostEventV1, IsPostEventV2, verify_post_event_v1-eq-success_iff,
  verify_post_event_v2-eq-success_iff,
}
use momoka.Proofs.Publications.Simulation.{
  SimulatedV1, SimulatedV2, verify_simulation_v1-Simulated, verify_simulation_v2-Simulated,
}

is_present-eq-false : {A : Type 0} (o : Option A) → not (is_present o) ≡ true → o ≡ none
is_present-eq-false none h = refl
is_present-eq-false (some a) h = cc

module _ {S : Type 0} (ethers : Ethers) (evm : EvmApi S) where
  -- What an accepted post has shown: no pointer, a simulation, and its event.
  pub PostAccepted : DaPostVerifier → S → S → Type 0
  PostAccepted (post_v1 p) s s' =
      (simulated : String) × (p.chain_proofs.pointer ≡ none)
      × SimulatedV1 ethers evm p simulated s s'
      × IsPostEventV1 ethers p simulated
  PostAccepted (post_v2 params p) s s' =
      (simulated : String) × (p.chain_proofs.pointer ≡ none)
      × SimulatedV2 ethers evm p simulated s s'
      × IsPostEventV2 ethers params p simulated

  -- A post that passes has no pointer, its simulation at its block gave the id after the profile's
  -- count, and its event agrees with what was signed and with the simulation.
  pub check_da_post-Accepted :
      (verifier : DaPostVerifier) (s s' : S)
      → check_da_post ethers evm verifier s ≡ (resolved (success tt), s')
      → PostAccepted verifier s s'
  unfolding check_da_post PostAccepted
  check_da_post-Accepted (post_v1 p) s s' h =
      let (absent, h1) =
        guarded-eq-success (not (is_present p.chain_proofs.pointer)) invalid_pointer_set_not_needed
          _ h in
      chained (verify_simulation_v1 ethers evm p) _ h1 (λ simulated t e h2. (
        simulated,
        is_present-eq-false p.chain_proofs.pointer absent,
        subst (SimulatedV1 ethers evm p simulated s) (ap (λ r. r.1) h2)
            (verify_simulation_v1-Simulated ethers evm p e),
        (verify_post_event_v1-eq-success_iff ethers p simulated).0 (ap (λ r. r.0) h2),
      ))
  check_da_post-Accepted (post_v2 params p) s s' h =
      let (absent, h1) =
        guarded-eq-success (not (is_present p.chain_proofs.pointer)) invalid_pointer_set_not_needed
          _ h in
      chained (verify_simulation_v2 ethers evm p) _ h1 (λ simulated t e h2. (
        simulated,
        is_present-eq-false p.chain_proofs.pointer absent,
        subst (SimulatedV2 ethers evm p simulated s) (ap (λ r. r.1) h2)
            (verify_simulation_v2-Simulated ethers evm p e),
        (verify_post_event_v2-eq-success_iff ethers params p simulated).0 (ap (λ r. r.0) h2),
      ))

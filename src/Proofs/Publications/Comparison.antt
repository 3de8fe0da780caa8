-- ===== src/Proofs/Publications/Comparison.antt =====
-- What the comparison of the simulated and the expected result of a post answers.
use momoka.Prelude.{
  ℤ, String, Bool, true, false, Settled, resolved, rejected, both, both-eq-resolved, ◌≡◌, ◌≢◌, inl,
  inr, resolved_inj, Bool-cases, subst, ◌==◌, arith, refl, ap, ◌∙◌, sym, eq_int, add_one,
}
use momoka.Models.{
  text, DaStructurePublication, DaResult, success, failure, failed, PromiseResult, succeed, fail,
}
use momoka.Models.Errors.{simulation_failed, potential_reorg}
use momoka.Models.Chain.{
  lift, guard, compute, ◌>>=◌, ◌>>◌, chained, succeed-eq-success, compute-eq-success,
  lift-eq-success,
}
use momoka.Evm.{Ethers, EvmApi}
use momoka.Proofs.Publications.Post.{
  big_number_eq, object_is_truthy, compare_results, get_expected_result, compare_equal,
  equal_numbers,
}

equal_numbers-eq-true : (r : Settled ℤ) (n : ℤ) → equal_numbers n r ≡ resolved true → r ≡ resolved n
unfolding equal_numbers
equal_numbers-eq-true (resolved m) n h = ap resolved (sym ((eq_int.is_same_iff n m).0 cc))
equal_numbers-eq-true (rejected message) n h = cc

module _ {S : Type 0} (ethers : Ethers) (evm : EvmApi S) where
  compare_equal-eq-success :
      (p : DaStructurePublication) (simulated : String) (equal : Bool) {r : String} {s s' : S}
      → compare_equal ethers evm p simulated equal s ≡ (resolved (success r), s')
      → (equal ≡ true) × (simulated ≡ r) × (s ≡ s')
  unfolding compare_equal
  compare_equal-eq-success p simulated true h = (refl, cc, cc)
  compare_equal-eq-success p simulated false {r} {s} {s'} h =
      chained (lift (evm.block_hash_exists p.chain_proofs.this_publication.block_hash))
        (λ exists. guard (object_is_truthy exists) potential_reorg >> fail simulation_failed) h
        (λ exists t e
            (k : fail {S = S} {A = String} simulation_failed t ≡ (resolved (success r), s')).
          cc)

  compare_results-eq-success :
      (p : DaStructurePublication) (simulated : DaResult String Unit) (expected : DaResult ℤ Unit)
      {r : String} {s s' : S}
      → compare_results ethers evm p simulated expected s ≡ (resolved (success r), s')
      → (n : ℤ) × (simulated ≡ success r)
        × (expected ≡ success n)
        × (ethers.big_number_from (text r) ≡ resolved n)
        × (s ≡ s')
  unfolding compare_results big_number_eq
  compare_results-eq-success p (success simulated) (success n) {r} h =
      chained (compute (big_number_eq ethers n simulated)) (compare_equal ethers evm p simulated) h
        (λ equal t e k.
          let (is_equal, same) = compute-eq-success (big_number_eq ethers n simulated) e in
          let (equals, same', ended) = compare_equal-eq-success p simulated equal k in
          (
            n,
            ap success same',
            refl,
            equal_numbers-eq-true (ethers.big_number_from (text r)) n (
                ap (λ x. equal_numbers n (ethers.big_number_from (text x))) (sym same')
                ∙ is_equal
                ∙ ap resolved equals),
            same ∙ ended,
          ))
  compare_results-eq-success p (success simulated) (failed error context) h = cc
  compare_results-eq-success p (failed error context) expected h = cc

  get_expected_result-eq-success :
      (lens_pub_count : PromiseResult S ℤ) {n : ℤ} {s s' : S}
      → get_expected_result ethers evm lens_pub_count s ≡ (resolved (success n), s')
      → (count : ℤ) × (lens_pub_count s ≡ (resolved (success count), s')) × (add_one count ≡ n)
  unfolding get_expected_result
  get_expected_result-eq-success lens_pub_count h =
      chained lens_pub_count (λ count. succeed (add_one count)) h
        (λ count t e k.
          let (same, ended) = succeed-eq-success k in
          (count, e ∙ ap (λ x. (resolved (success count), x)) ended, same))

  -- The two calls of a simulation and the comparison behind them, in the order of each verifier.
  pub expected_and_simulated :
      (p : DaStructurePublication) (pub_count : PromiseResult S ℤ)
      (simulated : DaResult String Unit) (expected : DaResult ℤ Unit) {r : String} {t u v s' : S}
      → get_expected_result ethers evm pub_count t ≡ (resolved expected, u)
      → compare_results ethers evm p simulated expected v ≡ (resolved (success r), s')
      → (count : ℤ) × (simulated ≡ success r)
        × (pub_count t ≡ (resolved (success count), u))
        × (ethers.big_number_from (text r) ≡ resolved (add_one count))
        × (v ≡ s')
  expected_and_simulated p pub_count simulated expected {r} {t} {u} {v} {s'} e h =
      let (n, same, counted, is_next, ended) = compare_results-eq-success p simulated expected h in
      let (count, found, next) =
        get_expected_result-eq-success pub_count {n = n} {s = t} {s' = u}
          (e ∙ ap (λ x. (resolved x, u)) counted) in
      (count, same, found, is_next ∙ ap resolved (sym next), ended)

  pub simulated_then_expected :
      (p : DaStructurePublication) (run : PromiseResult S String) (pub_count : PromiseResult S ℤ)
      (results : DaResult String Unit × DaResult ℤ Unit) {r : String} {t u s' : S}
      → lift (both run (get_expected_result ethers evm pub_count)) t
        ≡ (resolved (success results), u)
      → compare_results ethers evm p results.0 results.1 u ≡ (resolved (success r), s')
      → (count : ℤ) × (sent : S) × (run t ≡ (resolved (success r), sent))
        × (pub_count sent ≡ (resolved (success count), s'))
        × (ethers.big_number_from (text r) ≡ resolved (add_one count))
  simulated_then_expected p run pub_count results {r} {t} {u} {s'} e h =
      let (sent, ran, expected) =
        both-eq-resolved run (get_expected_result ethers evm pub_count)
          (lift-eq-success (both run (get_expected_result ethers evm pub_count)) e) in
      let (count, same, found, is_next, ended) =
        expected_and_simulated p pub_count results.0 results.1 expected h in
      (
        count,
        sent,
        ran ∙ ap (λ x. (resolved x, sent)) same,
        found ∙ ap (λ x. (resolved (success count), x)) ended,
        is_next,
      )

  -- What the comparison of two results that are there may answer.
  pub data Compared (simulated : String) (expected : ℤ) : DaResult String Unit → Type 0 where
    agreed :
        ethers.big_number_from (text simulated) ≡ resolved expected
        → Compared simulated expected (success simulated)
    differed :
        {n : ℤ}
        → ethers.big_number_from (text simulated) ≡ resolved n
        → n ≢ expected
        → Compared simulated expected (failure simulation_failed)

  compare_equal-false :
      (p : DaStructurePublication) (simulated : String) (r : DaResult String Unit) (s s' : S)
      → compare_equal ethers evm p simulated false s ≡ (resolved r, s')
      → failure simulation_failed ≡ r
  unfolding compare_equal
  compare_equal-false p simulated r s s' h =
      answered (evm.block_hash_exists p.chain_proofs.this_publication.block_hash s) h
    where
      answered :
          (q : Settled (DaResult Bool Unit) × S)
          → (lift (λ _. q) >>= λ exists.
                guard (object_is_truthy exists) potential_reorg >> fail simulation_failed)
              s
            ≡ (resolved r, s')
          → failure simulation_failed ≡ r
      answered (resolved exists, t) k = resolved_inj k
      answered (rejected message, t) k = cc

  -- With both results at hand, the comparison answers, unless a call rejects, the simulation if it is the
  -- expected number, and SIMULATION_FAILED if it is another number, whether or not the node knows the
  -- block's hash: never POTENTIAL_REORG.
  pub compare_results_cases :
      (p : DaStructurePublication) (simulated : String) (expected : ℤ) (r : DaResult String Unit)
      (s s' : S)
      → compare_results ethers evm p (success simulated) (success expected) s ≡ (resolved r, s')
      → Compared simulated expected r
  unfolding compare_results big_number_eq compare_equal equal_numbers
  compare_results_cases p simulated expected r s s' h =
      compared (ethers.big_number_from (text simulated)) refl h
    where
      compared :
          (q : Settled ℤ)
          → ethers.big_number_from (text simulated) ≡ q
          → (compute (equal_numbers expected q) >>= compare_equal ethers evm p simulated) s
            ≡ (resolved r, s')
          → Compared simulated expected r
      compared (resolved n) e k = elim (Bool-cases (expected == n)) [
        | inl same ↦
            let equal : expected ≡ n = (eq_int.is_same_iff expected n).0 same in
            let passed : success simulated ≡ r = resolved_inj (
              subst
                (λ b.
                  (compute (resolved b) >>= compare_equal ethers evm p simulated) s
                  ≡ (resolved r, s'))
                same k) in
            subst (Compared simulated expected) passed (agreed (e ∙ ap resolved (sym equal)))
        | inr other ↦
            let unequal : n ≢ expected =
              λ u. ground (arith, u, other, eq_int.is_same_iff expected n) in
            let refused : failure simulation_failed ≡ r = compare_equal-false p simulated r s s' (
              subst
                (λ b.
                  (compute (resolved b) >>= compare_equal ethers evm p simulated) s
                  ≡ (resolved r, s'))
                other k) in
            subst (Compared simulated expected) refused (differed e unequal)
      ]
      compared (rejected message) e k = cc

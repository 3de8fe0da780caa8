-- ===== src/Proofs/Publications/Checks.antt =====
-- The comparisons of the `verifyEventWithTypedData` methods: a chain of `||` whose operands may throw.
use momoka.Prelude.{
  ℕ, zero, suc, ◌+◌, ap, ◌∙◌, ℤ, String, Bool, true, false, not, Option, List, [], ◌∷◌, Settled,
  resolved, rejected, ◌≡◌, refl, ◌↔◌, All, add_one, arith, length, nat_eq, ◌==◌, eq_int, some, none,
}
use momoka.Models.{Value, text, strictly_equal, DaResult, success, failure}
use momoka.Models.Errors.{event_mismatch}
use momoka.Common.{arrays_equal, same_arrays, equal_from}
use momoka.Evm.{Ethers}

-- A `Result` of a method that may throw.
abbrev pub Verdict : Type 0
Verdict = Settled (DaResult Unit Unit)

-- `a || b || …`, from the left
unfoldable pub any_of : List (Settled Bool) → Settled Bool
any_of [] = resolved false
any_of (resolved true ∷ rest) = resolved true
any_of (resolved false ∷ rest) = any_of rest
any_of (rejected message ∷ rest) = rejected message

-- `a !== b`
unfoldable pub differs : Value → Value → Settled Bool
differs a b = resolved (not (strictly_equal a b))

abbrev negated : Settled Bool → Settled Bool
negated (resolved b) = resolved (not b)
negated (rejected message) = rejected message

-- `!arraysEqual(a, b)`
unfoldable pub arrays_differ : Option (List Value) → Option (List Value) → Settled Bool
arrays_differ a b = negated (arrays_equal a b)

-- `array.length !== 0`
unfoldable pub is_not_empty : Option (List Value) → Settled Bool
is_not_empty (some values) = resolved (not (nat_eq (length values) 0))
is_not_empty none = rejected "Cannot read properties of undefined (reading 'length')"

-- `EMPTY_BYTE` of evm/ethereum.ts
abbrev pub empty_byte : Value
empty_byte = text "0x"

unfoldable pub compared : Settled String → Value → Settled Bool
compared (resolved id) pub_id = differs (text id) pub_id
compared (rejected message) pub_id = rejected message

unfoldable pub numbers_differ : Settled ℤ → Settled ℤ → Settled Bool
numbers_differ (resolved n) (resolved m) = resolved (not (n == m))
numbers_differ (resolved n) (rejected message) = rejected message
numbers_differ (rejected message) _ = rejected message

module _ (ethers : Ethers) where
  -- `BigNumber.from(count).add(1).toHexString()`
  unfoldable pub next_pub_id : String → Settled String
  next_pub_id count = elim (ethers.big_number_from (text count)) [
    | resolved n ↦ resolved (ethers.to_hex_string (add_one n))
    | rejected message ↦ rejected message
  ]

  -- `BigNumber.from(count).add(1).toHexString() !== pubId`
  unfoldable pub next_pub_id_differs : String → Value → Settled Bool
  unfolding next_pub_id compared
  next_pub_id_differs count pub_id = compared (next_pub_id count) pub_id

  -- `!BigNumber.from(result).eq(pubId)`
  unfoldable pub number_differs : String → Value → Settled Bool
  unfolding numbers_differ
  number_differs result pub_id =
      numbers_differ (ethers.big_number_from (text result)) (ethers.big_number_from pub_id)

-- `if (differs) return failure(EVENT_MISMATCH)`, and what follows it
unfoldable pub unless_mismatch : Settled Bool → Verdict → Verdict
unless_mismatch (resolved true) next = resolved (failure event_mismatch)
unless_mismatch (resolved false) next = next
unless_mismatch (rejected message) next = rejected message

abbrev pub matched : Verdict
matched = resolved (success tt)

-- Two values are the same to `===`.
abbrev pub Same : Value → Value → Type 0
Same a b = strictly_equal a b ≡ true

-- Each element is the same to `===` as the one at its place, and there are as many.
pub SameElements : List Value → List Value → Type 0
SameElements [] [] = Unit
SameElements (x ∷ xs) (y ∷ ys) = Same x y × SameElements xs ys
SameElements _ _ = ⊥

-- Two arrays that are there have the same elements.
pub SameArrays : Option (List Value) → Option (List Value) → Type 0
SameArrays (some xs) (some ys) = SameElements xs ys
SameArrays _ _ = ⊥

-- The loop over two arrays, behind their first elements.
equal_from-suc :
    (x y : Value) (xs ys : List Value) (left i : ℕ)
    → equal_from (x ∷ xs) (y ∷ ys) left (suc i) ≡ equal_from xs ys left i
unfolding equal_from
equal_from-suc x y xs ys zero i = refl
equal_from-suc x y xs ys (suc left) i =
    let next : suc i + 1 ≡ suc (i + 1) = omega arith in
    let rest =
      ap (equal_from (x ∷ xs) (y ∷ ys) left) next ∙ equal_from-suc x y xs ys left (i + 1) in
    rw rest refl

same_arrays_iff : (xs ys : List Value) → (same_arrays xs ys ≡ true) ↔ SameElements xs ys
unfolding same_arrays equal_from SameElements
same_arrays_iff [] [] = (λ h. tt, λ h. refl)
same_arrays_iff [] (y ∷ ys) = (λ h. ground arith, λ h. absurd h)
same_arrays_iff (x ∷ xs) [] = (λ h. ground arith, λ h. absurd h)
same_arrays_iff (x ∷ xs) (y ∷ ys) =
    let rest : equal_from (x ∷ xs) (y ∷ ys) (length xs) 1 ≡ equal_from xs ys (length xs) 0 =
      equal_from-suc x y xs ys (length xs) 0 in
    let (f, g) = same_arrays_iff xs ys in ground (arith, rest, f, g)

pub arrays_equal_iff :
    (a b : Option (List Value)) → (arrays_equal a b ≡ resolved true) ↔ SameArrays a b
unfolding arrays_equal SameArrays
arrays_equal_iff (some xs) (some ys) =
    (λ h. (same_arrays_iff xs ys).0 cc, λ h. ap resolved ((same_arrays_iff xs ys).1 h))
arrays_equal_iff none b = (λ h. cc, λ h. absurd h)
arrays_equal_iff (some xs) none = (λ h. cc, λ h. absurd h)

-- A chain is false exactly when each of its operands is.
pub any_of-eq-false_iff :
    (tests : List (Settled Bool))
    → (any_of tests ≡ resolved false) ↔ All (λ test. test ≡ resolved false) tests
unfolding any_of
any_of-eq-false_iff [] = ground arith
any_of-eq-false_iff (resolved true ∷ rest) = ground arith
any_of-eq-false_iff (resolved false ∷ rest) =
    (λ h. (refl, (any_of-eq-false_iff rest).0 h), λ h. (any_of-eq-false_iff rest).1 h.1)
any_of-eq-false_iff (rejected message ∷ rest) = ground arith

-- ===== src/Common/Arrays.antt =====
-- utils/arrays-equal.ts, over the values of a submission. The `length` of `undefined` throws.
use momoka.Prelude.{
  ℕ, zero, suc, ◌+◌, Option, none, some, List, Bool, true, false, not, Settled, resolved, rejected,
  length, get_elem?, nat_eq, if◌then◌else◌,
}
use momoka.Models.{Value, undefined, strictly_equal}

abbrev at : List Value → ℕ → Value
at xs i = elim (get_elem? xs i) [ none ↦ undefined | some v ↦ v ]

-- The loop from `i`, with `left` rounds to go.
unfoldable pub equal_from : List Value → List Value → ℕ → ℕ → Bool
equal_from xs ys zero i = true
equal_from xs ys (suc left) i =
    if not (strictly_equal (at xs i) (at ys i)) then false else equal_from xs ys left (i + 1)

unfoldable pub same_arrays : List Value → List Value → Bool
unfolding equal_from
same_arrays array1 array2 =
    if not (nat_eq (length array1) (length array2))
    then false
    else equal_from array1 array2 (length array1) 0

unfoldable pub arrays_equal : Option (List Value) → Option (List Value) → Settled Bool
unfolding same_arrays
arrays_equal (some array1) (some array2) = resolved (same_arrays array1 array2)
arrays_equal none _ = rejected "Cannot read properties of undefined (reading 'length')"
arrays_equal (some array1) none = rejected "Cannot read properties of undefined (reading 'length')"

-- ===== src/Common/Chunks.antt =====
-- What `chunkArray` returns.
use mathlib.Core.List.{flatten, append-nil}
use momoka.Prelude.{
  ℕ, zero, suc, ◌≤◌, ◌<◌, ◌≡◌, refl, ap, ◌∙◌, none, some, List, [], ◌∷◌, ◌++◌, length, take, drop,
  All, length-take, length-drop, take-append-drop, ltb, arith, inl, inr, Bool-cases,
}
use momoka.Common.Helpers.{chunk_loop, chunk_array}

module _ {A : Type 0} where
  -- Chunks that, put together, are the array, none longer than `size`.
  pub record IsChunking (arr : List A) (size : ℕ) (chunks : List (List A)) : Type 0 where
    pub joined : flatten chunks ≡ arr
    pub short : All (λ (chunk : List A). length chunk ≤ size) chunks

  chunk_loop-IsChunking :
      (fuel : ℕ) (arr : List A) (size : ℕ)
      → 0 < size
      → length arr < fuel
      → (chunks : List (List A)) × (chunk_loop fuel arr size ≡ some chunks)
        × IsChunking arr size chunks
  unfolding chunk_loop flatten
  chunk_loop-IsChunking zero arr size p h = absurd (omega arith)
  chunk_loop-IsChunking (suc fuel) arr size p h = elim (Bool-cases (ltb size (length arr))) [
    | inl longer ↦
        let (chunks, e, c) =
          chunk_loop-IsChunking fuel (drop size arr) size p
            (ground (arith, length-drop size arr)) in
        (
          take size arr ∷ chunks,
          rw (longer, e),
          record {
            joined = ap (λ r. take size arr ++ r) c.joined ∙ take-append-drop size arr;
            short = (omega (arith, length-take size arr), c.short);
          },
        )
    | inr fits ↦ (arr ∷ [], rw fits, record { joined = append-nil arr; short = (ground arith, tt) })
  ]

  -- For a size above 0 the recursion ends with chunks that, put together, are the array, none
  -- longer than the size.
  pub chunk_array-IsChunking :
      (arr : List A) (size : ℕ)
      → 0 < size
      → (chunks : List (List A)) × (chunk_array arr size ≡ some chunks) × IsChunking arr size chunks
  unfolding chunk_array
  chunk_array-IsChunking arr size p =
      chunk_loop-IsChunking (suc (length arr)) arr size p (omega arith)

  -- For size 0 the recursion of a non-empty array never ends, whatever the fuel.
  chunk_loop-zero : (fuel : ℕ) (x : A) (xs : List A) → chunk_loop fuel (x ∷ xs) 0 ≡ none
  unfolding chunk_loop
  chunk_loop-zero zero x xs = refl
  chunk_loop-zero (suc fuel) x xs = rw (chunk_loop-zero fuel x xs) (ground arith)

-- ===== src/Proofs/ClosestBlock/Laws.antt =====
-- Which block `getClosestBlock` returns.
use momoka.Prelude.{
  ℕ, ◌≤◌, ◌<◌, ◌≡◌, refl, ◌∙◌, subst, List, [], ◌∷◌, resolved, All, arith, ◌⊎◌, inl, inr,
}
use native.Mathlib.Nat.{le_trans}
use momoka.Common.{unix_timestamp_to_milliseconds}
use momoka.Evm.{BlockInfo}
use momoka.Proofs.ClosestBlock.{abs_difference, time_of, closer, reduce_closer, get_closest_block}

-- The block is one of the list.
abbrev pub Among : BlockInfo → List BlockInfo → Type 0
Among block [] = ⊥
Among block (b ∷ bs) = (block ≡ b) ⊎ Among block bs

-- How far the time of a block is from the target, in milliseconds.
abbrev pub distance : ℕ → BlockInfo → ℕ
distance target block = abs_difference (time_of block) target

Among-drop :
    (block prev curr closest : BlockInfo) (blocks : List BlockInfo)
    → (closest ≡ prev) ⊎ (closest ≡ curr)
    → Among block (closest ∷ blocks)
    → Among block (prev ∷ curr ∷ blocks)
Among-drop block prev curr closest blocks (inl c) (inl m) = inl (m ∙ c)
Among-drop block prev curr closest blocks (inr c) (inl m) = inr (inl (m ∙ c))
Among-drop block prev curr closest blocks c (inr m) = inr (inr m)

module _ (target : ℕ) where
  -- The block is no farther from the target than any block of the list that is not after the target.
  abbrev pub IsNearest : BlockInfo → List BlockInfo → Type 0
  IsNearest block blocks =
      All (λ b. time_of b ≤ target → distance target block ≤ distance target b) blocks

  closer-le :
      (prev curr : BlockInfo)
      → (distance target (closer target prev curr) ≤ distance target prev)
        × (time_of curr ≤ target → distance target (closer target prev curr) ≤ distance target curr)
  unfolding closer
  closer-le prev curr = (ground arith, λ h. ground arith)

  closer_cases :
      (prev curr : BlockInfo) → (closer target prev curr ≡ prev) ⊎ (closer target prev curr ≡ curr)
  unfolding closer
  closer_cases prev curr = ground arith

  reduce_closer-le :
      (prev : BlockInfo) (blocks : List BlockInfo)
      → (distance target (reduce_closer target prev blocks) ≤ distance target prev)
        × IsNearest (reduce_closer target prev blocks) blocks
  unfolding reduce_closer
  reduce_closer-le prev [] = (omega arith, tt)
  reduce_closer-le prev (curr ∷ blocks) =
      let (near, nearest) = reduce_closer-le (closer target prev curr) blocks in
      let (here, there) = closer-le prev curr in
      (le_trans near here, ((λ h. le_trans near (there h)), nearest))

  reduce_closer-Among :
      (prev : BlockInfo) (blocks : List BlockInfo)
      → Among (reduce_closer target prev blocks) (prev ∷ blocks)
  unfolding reduce_closer
  reduce_closer-Among prev [] = inl refl
  reduce_closer-Among prev (curr ∷ blocks) =
      let closest = closer target prev curr in
      Among-drop (reduce_closer target closest blocks) prev curr closest blocks
        (closer_cases prev curr) (reduce_closer-Among closest blocks)

-- The block that is returned is one of those given, and no block that is not after the target is
-- nearer to the target, which is the given timestamp times 1000.
pub get_closest_block-IsNearest :
    (blocks : List BlockInfo) (target_timestamp : ℕ) {block : BlockInfo}
    → get_closest_block blocks target_timestamp ≡ resolved block
    → Among block blocks × IsNearest (unix_timestamp_to_milliseconds target_timestamp) block blocks
unfolding get_closest_block
get_closest_block-IsNearest [] target_timestamp h = cc
get_closest_block-IsNearest (b ∷ bs) target_timestamp {block} h =
    let target = unix_timestamp_to_milliseconds target_timestamp in
    let same : reduce_closer target b bs ≡ block = cc in
    let (near, nearest) = reduce_closer-le target b bs in
    subst (λ c. Among c (b ∷ bs) × IsNearest target c (b ∷ bs)) same
      (reduce_closer-Among target b bs, ((λ _. near), nearest))

-- The target is the given timestamp times 1000, although the checker gives it a time in milliseconds:
-- for blocks whose times in seconds grow and whose last time in seconds is at most the given
-- timestamp, the closest of the three is always the last.
pub get_closest_block-last :
    (first second third : BlockInfo) (target_timestamp : ℕ)
    → first.timestamp < second.timestamp
    → second.timestamp < third.timestamp
    → third.timestamp ≤ target_timestamp
    → get_closest_block (first ∷ second ∷ third ∷ []) target_timestamp ≡ resolved third
unfolding get_closest_block unix_timestamp_to_milliseconds
get_closest_block-last first second third target_timestamp p q r = ground arith

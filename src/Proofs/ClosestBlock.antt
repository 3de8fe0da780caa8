-- ===== src/Proofs/ClosestBlock.antt =====
-- `getClosestBlock` of proofs/utils.ts.
pub mod Laws
use momoka.Prelude.{ℕ, ◌-◌, List, [], ◌∷◌, Settled, resolved, rejected, ltb, leb, if◌then◌else◌}
use momoka.Common.{unix_timestamp_to_milliseconds}
use momoka.Evm.{BlockInfo}

-- `Math.abs(a - b)`
abbrev pub abs_difference : ℕ → ℕ → ℕ
abs_difference a b = if leb b a then a - b else b - a

-- The time of a block in milliseconds.
abbrev pub time_of : BlockInfo → ℕ
time_of block = unix_timestamp_to_milliseconds block.timestamp

-- The callback of `reduce`.
unfoldable pub closer : ℕ → BlockInfo → BlockInfo → BlockInfo
closer target prev curr =
    let prev_timestamp = unix_timestamp_to_milliseconds prev.timestamp in
    let curr_timestamp = unix_timestamp_to_milliseconds curr.timestamp in
    if ltb target curr_timestamp
    then prev
    else if ltb (abs_difference curr_timestamp target) (abs_difference prev_timestamp target)
    then curr
    else prev

unfoldable pub reduce_closer : ℕ → BlockInfo → List BlockInfo → BlockInfo
reduce_closer target prev [] = prev
reduce_closer target prev (curr ∷ blocks) = reduce_closer target (closer target prev curr) blocks

-- `reduce` without an initial value throws on an empty array.
unfoldable pub get_closest_block : List BlockInfo → ℕ → Settled BlockInfo
unfolding reduce_closer closer
get_closest_block [] target_timestamp = rejected "Reduce of empty array with no initial value"
get_closest_block (block ∷ blocks) target_timestamp =
    resolved (reduce_closer (unix_timestamp_to_milliseconds target_timestamp) block blocks)

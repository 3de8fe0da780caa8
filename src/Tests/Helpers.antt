-- ===== src/Tests/Helpers.antt =====
-- The helpers on concrete data.
use momoka.Prelude.{ℕ, zero, suc, ◌≡◌, refl, arith, some, resolved, rejected, Async, pos}
use momoka.Common.{RetryWithTimeoutOptions, retry_with_timeout, unix_timestamp_to_milliseconds}
use momoka.Common.Retry.{
  no_rejection, one_more, retry_with_timeout-resolved, retry_with_timeout-rejected,
}
use momoka.Evm.{BlockInfo}
use momoka.Proofs.ClosestBlock.{get_closest_block, reduce_closer, closer}
use momoka.Proofs.ClosestBlock.Laws.{
  Among, IsNearest, get_closest_block-IsNearest, get_closest_block-last,
}
use momoka.Tests.Samples.{sample_blocks, second_block}

-- The delay is no part of the state, which counts the calls.
abbrev no_wait : ℕ → ℕ → ℕ
no_wait milliseconds s = s

-- Resolves at the third call.
abbrev third_time : Async ℕ ℕ
third_time zero = (rejected "timeout", 1)
third_time (suc zero) = (rejected "timeout", 2)
third_time (suc (suc n)) = (resolved 9, suc (suc (suc n)))

abbrev never : Async ℕ ℕ
never n = (rejected "timeout", suc n)

abbrev one_retry : RetryWithTimeoutOptions
one_retry = record { delay_ms = some 5; max_retries = some 1 }

retry_with_timeout-resolved_example :
    retry_with_timeout no_wait third_time one_retry 0 ≡ (resolved 9, 3)
retry_with_timeout-resolved_example =
    retry_with_timeout-resolved no_wait third_time one_retry
      (one_more refl (one_more refl no_rejection)) (omega arith) refl

-- With maxRetries 1 the function is called three times.
retry_with_timeout-rejected_example :
    retry_with_timeout no_wait never one_retry 0 ≡ (rejected "timeout", 3)
retry_with_timeout-rejected_example =
    retry_with_timeout-rejected no_wait never one_retry (one_more refl (one_more refl no_rejection))
      refl

abbrev third_block : BlockInfo
third_block = record { number = pos 101; timestamp = 1680000001 }

closest_run : get_closest_block sample_blocks 1680000000 ≡ resolved second_block
unfolding get_closest_block reduce_closer closer unix_timestamp_to_milliseconds
closest_run = refl

get_closest_block-IsNearest_example :
    Among second_block sample_blocks
    × IsNearest (unix_timestamp_to_milliseconds 1680000000) second_block sample_blocks
get_closest_block-IsNearest_example =
    get_closest_block-IsNearest sample_blocks 1680000000 closest_run

-- A receipt of the time of the second block, in milliseconds.
get_closest_block-last_example :
    get_closest_block sample_blocks 1680000000000 ≡ resolved third_block
get_closest_block-last_example =
    get_closest_block-last (record { number = pos 99; timestamp = 1679999998 }) second_block
      third_block 1680000000000 (omega arith) (omega arith) (omega arith)

-- ===== src/Common/Helpers.antt =====
-- common/helpers.ts and utils/number-to-hex.ts. `wait` is what passes while the program sleeps.
use momoka.Prelude.{
  ℕ, zero, suc, ◌+◌, ◌*◌, ◌<>◌, String, ℤ, to_hex, Option, none, some, List, [], ◌∷◌, Async,
  Settled, pure, throw, try_catch, ◌>>◌, length, take, drop, ltb, if◌then◌else◌,
}

unfoldable pub unix_timestamp_to_milliseconds : ℕ → ℕ
unix_timestamp_to_milliseconds unix_timestamp = unix_timestamp * 1000

unfoldable pub number_to_hex : ℤ → String
number_to_hex n = "0x" <> to_hex n

-- `decode` is `Buffer`, from base64 to text, and `parse` is `JSON.parse`.
unfoldable pub base64_string_to_json :
    {A : Type 0} → (String → String) → (String → Settled A) → String → Settled A
base64_string_to_json decode parse base64_string = parse (decode base64_string)

-- `[chunk, ...rest]`
abbrev pub prepend {ℓ} : {A : Type ℓ} → A → Option (List A) → Option (List A)
prepend x none = none
prepend x (some xs) = some (x ∷ xs)

-- Chunks of an array. The recursion of the code is on a shorter array only if `size` is not 0, so it
-- takes fuel, and `none` is a recursion that has not ended.
unfoldable pub chunk_loop {ℓ} : {A : Type ℓ} → ℕ → List A → ℕ → Option (List (List A))
chunk_loop zero arr size = none
chunk_loop (suc fuel) arr size =
    let rest = prepend (take size arr) (chunk_loop fuel (drop size arr) size) in
    if ltb size (length arr) then rest else some (arr ∷ [])

-- An array of n elements has ended its recursion within n + 1 calls.
unfoldable pub chunk_array {ℓ} : {A : Type ℓ} → List A → ℕ → Option (List (List A))
unfolding chunk_loop
chunk_array arr size = chunk_loop (suc (length arr)) arr size

-- `options.maxRetries || 10`: 0 is no setting.
abbrev pub or_default : Option ℕ → ℕ → ℕ
or_default none d = d
or_default (some zero) d = d
or_default (some (suc n)) d = suc n

pub record RetryWithTimeoutOptions : Type 0 where
  pub delay_ms : Option ℕ
  pub max_retries : Option ℕ

abbrev pub sleep : {S : Type 0} → (ℕ → S → S) → ℕ → Async S Unit
sleep wait milliseconds s = pure tt (wait milliseconds s)

module _ {S A : Type 0} (wait : ℕ → S → S) where
  -- The loop of `retryWithTimeout`. `left` is maxRetries + 1 - attempt, so the test
  -- `attempt <= maxRetries` of the handler is that `left` is not 0.
  unfoldable pub retry_loop : Async S A → ℕ → ℕ → Async S A
  retry_loop fn delay_ms zero = try_catch fn throw
  retry_loop fn delay_ms (suc left) =
      try_catch fn (λ _. sleep wait delay_ms >> retry_loop fn delay_ms left)

  unfoldable pub retry_with_timeout : Async S A → RetryWithTimeoutOptions → Async S A
  unfolding retry_loop
  retry_with_timeout fn options =
      retry_loop fn (or_default options.delay_ms 100) (or_default options.max_retries 10 + 1)

module _ {S : Type 0} (wait : ℕ → S → S) where
  -- `if (sleepAfterEach) await sleep(sleepAfterEach)`
  unfoldable pub sleep_after : Option ℕ → Async S Unit
  sleep_after none = pure tt
  sleep_after (some zero) = pure tt
  sleep_after (some (suc n)) = sleep wait (suc n)

  -- The first rounds of `runForever`, which ends only where its function rejects.
  unfoldable pub run_rounds : ℕ → Async S Unit → Option ℕ → Async S Unit
  unfolding sleep_after
  run_rounds zero fn sleep_after_each = pure tt
  run_rounds (suc n) fn sleep_after_each =
      fn >> (sleep_after sleep_after_each >> run_rounds n fn sleep_after_each)

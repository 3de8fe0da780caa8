-- ===== src/Common/Retry.antt =====
-- How often `retryWithTimeout` calls its function.
use momoka.Prelude.{
  settled-cases, inl, inr, subst, ℕ, zero, suc, ◌+◌, ◌≤◌, ◌≡◌, ◌∙◌, String, Async, Settled, throw,
  resolved, rejected, try_catch, arith,
}
use momoka.Common.Helpers.{retry_loop, retry_with_timeout, RetryWithTimeoutOptions, or_default}

module _ {S A : Type 0} (wait : ℕ → S → S) (fn : Async S A) (delay_ms : ℕ) where
  -- `Rejections n s t`: from `s`, n calls in a row reject, each followed by the delay, and lead to `t`.
  pub data Rejections : ℕ → S → S → Type 0 where
    no_rejection : {s : S} → Rejections zero s s
    one_more :
        {n : ℕ} {s t u : S} {message : String}
        → fn s ≡ (rejected message, t)
        → Rejections n (wait delay_ms t) u
        → Rejections (suc n) s u

  retry_loop-resolved :
      (left : ℕ) {n : ℕ} {s t u : S} {a : A}
      → Rejections n s t
      → n ≤ left
      → fn t ≡ (resolved a, u)
      → retry_loop wait fn delay_ms left s ≡ (resolved a, u)
  unfolding retry_loop try_catch
  retry_loop-resolved zero no_rejection h e = rw e
  retry_loop-resolved (suc left) no_rejection h e = rw e
  retry_loop-resolved zero (one_more p r) h e = absurd (omega arith)
  retry_loop-resolved (suc left) (one_more p r) h e =
      rw p (retry_loop-resolved left r (omega arith) e)

  retry_loop-rejected :
      (left : ℕ) {s t u : S} {message : String}
      → Rejections left s t
      → fn t ≡ (rejected message, u)
      → retry_loop wait fn delay_ms left s ≡ (rejected message, u)
  unfolding retry_loop try_catch
  retry_loop-rejected zero no_rejection e = rw e
  retry_loop-rejected (suc left) (one_more p r) e = rw p (retry_loop-rejected left r e)

module _ {S A : Type 0} (wait : ℕ → S → S) (fn : Async S A)
    (options : RetryWithTimeoutOptions) where
  abbrev pub retries : ℕ
  retries = or_default options.max_retries 10

  abbrev pub delay : ℕ
  delay = or_default options.delay_ms 100

  -- If at most maxRetries + 1 calls reject before one resolves, the result is what that call
  -- resolved to, in the state that it left.
  pub retry_with_timeout-resolved :
      {n : ℕ} {s t u : S} {a : A}
      → Rejections wait fn delay n s t
      → n ≤ retries + 1
      → fn t ≡ (resolved a, u)
      → retry_with_timeout wait fn options s ≡ (resolved a, u)
  unfolding retry_with_timeout
  retry_with_timeout-resolved r h e = retry_loop-resolved wait fn delay (retries + 1) r h e

  -- If maxRetries + 1 calls reject and so does the next, the last error is thrown and no further
  -- call is made: the function is called maxRetries + 2 times.
  pub retry_with_timeout-rejected :
      {s t u : S} {message : String}
      → Rejections wait fn delay (retries + 1) s t
      → fn t ≡ (rejected message, u)
      → retry_with_timeout wait fn options s ≡ (rejected message, u)
  unfolding retry_with_timeout
  retry_with_timeout-rejected r e = retry_loop-rejected wait fn delay (retries + 1) r e

module _ {S A : Type 0} (wait : ℕ → S → S) (fn : Async S A) where
  -- The loop after its first call.
  abbrev again : ℕ → ℕ → Settled A × S → Async S A
  again delay_ms left x =
      try_catch (λ _. x) (λ _ u. retry_loop wait fn delay_ms left (wait delay_ms u))

  retry_loop-eq-resolved :
      (delay_ms left : ℕ) (s t : S) (a : A)
      → retry_loop wait fn delay_ms left s ≡ (resolved a, t)
      → (x : S) × (fn x ≡ (resolved a, t))
  unfolding retry_loop try_catch
  retry_loop-eq-resolved delay_ms zero s t a h = elim (settled-cases (fn s)) [
    | inl (b, u, e) ↦ (s, e ∙ subst (λ x. try_catch (λ _. x) throw s ≡ (resolved a, t)) e h)
    | inr (message, u, e) ↦
        let k = subst (λ x. try_catch (λ _. x) throw s ≡ (resolved a, t)) e h in cc
  ]
  retry_loop-eq-resolved delay_ms (suc left) s t a h = elim (settled-cases (fn s)) [
    | inl (b, u, e) ↦ (s, e ∙ subst (λ x. again delay_ms left x s ≡ (resolved a, t)) e h)
    | inr (message, u, e) ↦
        retry_loop-eq-resolved delay_ms left (wait delay_ms u) t a
          (subst (λ x. again delay_ms left x s ≡ (resolved a, t)) e h)
  ]

  -- What a retried function resolves to is what one of its calls resolved to.
  pub retry_with_timeout-eq-resolved :
      (options : RetryWithTimeoutOptions) (s t : S) (a : A)
      → retry_with_timeout wait fn options s ≡ (resolved a, t)
      → (x : S) × (fn x ≡ (resolved a, t))
  unfolding retry_with_timeout
  retry_with_timeout-eq-resolved options s t a h =
      retry_loop-eq-resolved (or_default options.delay_ms 100)
        (or_default options.max_retries 10 + 1) s t a h

-- ===== src/Models/Chain.antt =====
-- Chaining functions that return a promise of a `DAResult`: the code's
-- `if (result.isFailure()) return failure(result.failure)` after each awaited call.
use momoka.Prelude.{
  ◌≡◌, refl, some, Bool, true, false, Settled, resolved, rejected, Async, continue,
}
use momoka.Models.Errors.{MomokaValidatorError}
use momoka.Models.Results.{
  DaResult, success, failed, PromiseResult, PromiseWithContextResult, succeed, fail,
}

module _ {S A B : Type 0} where
  abbrev pub proceed : DaResult A Unit → (A → PromiseResult S B) → PromiseResult S B
  proceed (success a) f = f a
  proceed (failed error context) f = fail error

  infixl 10 ◌>>=◌ ◌>>◌
  abbrev pub ◌>>=◌ : PromiseResult S A → (A → PromiseResult S B) → PromiseResult S B
  ◌>>=◌ m f s = continue (m s).0 (λ r. proceed r f) (m s).1

  abbrev pub ◌>>◌ : PromiseResult S A → PromiseResult S B → PromiseResult S B
  m >> n = m >>= λ _. n

  -- A chain that succeeds has succeeded at each link.
  pub >>=-eq-success :
      (m : PromiseResult S A) (f : A → PromiseResult S B) {b : B} {s s' : S}
      → (m >>= f) s ≡ (resolved (success b), s')
      → (a : A) × (t : S) × (m s ≡ (resolved (success a), t)) × (f a t ≡ (resolved (success b), s'))
  >>=-eq-success m f {b} {s} {s'} h = resume (m s) refl h
    where
      resume :
          (r : Settled (DaResult A Unit) × S)
          → m s ≡ r
          → continue r.0 (λ a. proceed a f) r.1 ≡ (resolved (success b), s')
          → (a : A) × (t : S) × (m s ≡ (resolved (success a), t))
            × (f a t ≡ (resolved (success b), s'))
      resume (resolved (success a), t) e k = (a, t, e, k)
      resume (resolved (failed error context), t) e k = cc
      resume (rejected message, t) e k = cc

module _ {S A B C : Type 0} where
  -- The same, with what follows from each link's success.
  pub chained :
      (m : PromiseResult S A) (f : A → PromiseResult S B) {b : B} {s s' : S}
      → (m >>= f) s ≡ (resolved (success b), s')
      → ((a : A) (t : S) → m s ≡ (resolved (success a), t) → f a t ≡ (resolved (success b), s') → C)
      → C
  chained m f h next = let (a, t, e, k) = >>=-eq-success m f h in next a t e k

module _ {S A : Type 0} where
  pub succeed-eq-success :
      {a b : A} {s s' : S} → succeed a s ≡ (resolved (success b), s') → (a ≡ b) × (s ≡ s')
  succeed-eq-success h = (cc, cc)

module _ {S : Type 0} where
  -- `if (!condition) return failure(error)`
  abbrev pub guard : Bool → MomokaValidatorError → PromiseResult S Unit
  guard true error = succeed tt
  guard false error = fail error

  pub guard-eq-success :
      (b : Bool) (error : MomokaValidatorError) {u : Unit {0}} {s s' : S}
      → guard b error s ≡ (resolved (success u), s')
      → (b ≡ true) × (s ≡ s')
  guard-eq-success true error h = (refl, cc)
  guard-eq-success false error h = cc

module _ {S B : Type 0} where
  -- What follows a guard.
  pub guarded-eq-success :
      (b : Bool) (error : MomokaValidatorError) (next : PromiseResult S B) {x : B} {s s' : S}
      → (guard b error >> next) s ≡ (resolved (success x), s')
      → (b ≡ true) × (next s ≡ (resolved (success x), s'))
  guarded-eq-success true error next h = (refl, h)
  guarded-eq-success false error next h = cc

abbrev lift_settled : {A : Type 0} → Settled A → Settled (DaResult A Unit)
lift_settled (resolved a) = resolved (success a)
lift_settled (rejected message) = rejected message

module _ {S A : Type 0} where
  -- The value of a promise that is no `DAResult`, in a function that returns one.
  abbrev pub lift : Async S A → PromiseResult S A
  lift m s = (lift_settled (m s).0, (m s).1)

  -- The value of synchronous code that may throw.
  abbrev pub compute : Settled A → PromiseResult S A
  compute r s = (lift_settled r, s)

  pub lift-eq-success :
      (m : Async S A) {a : A} {s s' : S}
      → lift m s ≡ (resolved (success a), s')
      → m s ≡ (resolved a, s')
  lift-eq-success m {a} {s} {s'} h = drop_lift (m s) h
    where
      drop_lift :
          (r : Settled A × S)
          → ◌≡◌ {A = Settled (DaResult A Unit) × S}
              (lift_settled r.0, r.1)
              (resolved (success a), s')
          → r ≡ (resolved a, s')
      drop_lift (resolved b, t) k = cc
      drop_lift (rejected message, t) k = cc

  pub compute-eq-success :
      (r : Settled A) {a : A} {s s' : S}
      → compute r s ≡ (resolved (success a), s')
      → (r ≡ resolved a) × (s ≡ s')
  compute-eq-success (resolved b) h = (cc, cc)
  compute-eq-success (rejected message) h = cc

attach : {A C : Type 0} → Settled (DaResult A Unit) → C → Settled (DaResult A C)
attach (resolved (success a)) context = resolved (success a)
attach (resolved (failed error _)) context = resolved (failed error (some context))
attach (rejected message) context = rejected message

module _ {S A : Type 0} where
  -- A result that is at hand: `if (result.isFailure()) return failure(result.failure)`.
  abbrev pub of_result : DaResult A Unit → PromiseResult S A
  of_result (success a) = succeed a
  of_result (failed error context) = fail error

  pub of_result-eq-success :
      (r : DaResult A Unit) {a : A} {s s' : S}
      → of_result r s ≡ (resolved (success a), s')
      → (r ≡ success a) × (s ≡ s')
  of_result-eq-success (success b) h = (cc, cc)
  of_result-eq-success (failed error context) h = cc

module _ {S A C : Type 0} where
  -- `if (result.isFailure()) return failureWithContext(result.failure, context)`
  unfoldable pub with_context : C → PromiseResult S A → PromiseWithContextResult S A C
  unfolding attach
  with_context context m s = (attach (m s).0 context, (m s).1)

  pub with_context-eq-success :
      (context : C) (m : PromiseResult S A) {a : A} {s s' : S}
      → with_context context m s ≡ (resolved (success a), s')
      → m s ≡ (resolved (success a), s')
  unfolding with_context
  with_context-eq-success context m {a} {s} {s'} h = detach (m s) h
    where
      detach :
          (r : Settled (DaResult A Unit) × S)
          → ◌≡◌ {A = Settled (DaResult A C) × S}
              (attach r.0 context, r.1)
              (resolved (success a), s')
          → r ≡ (resolved (success a), s')
      detach (resolved (success b), t) k = cc
      detach (resolved (failed error _), t) k = cc
      detach (rejected message, t) k = cc

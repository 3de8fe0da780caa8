-- ===== src/Models/Results.antt =====
-- da-result.ts: `DAResult`, and the ways in which the code chains functions that return one.
use momoka.Prelude.{Option, none, some, Bool, true, false, resolved, Async}
use momoka.Models.Errors.{MomokaValidatorError}

-- `Success<A> | Failure<MomokaValidatorError, C>`; the context of a `Failure` may be undefined.
pub data DaResult (A C : Type 0) : Type 0 where
  success : A → DaResult A C
  failed : MomokaValidatorError → Option C → DaResult A C

abbrev pub is_success : {A C : Type 0} → DaResult A C → Bool
is_success (success a) = true
is_success (failed error context) = false

-- A promise of a result that has no context.
abbrev pub PromiseResult : Type 0 → Type 0 → Type 0
PromiseResult S A = Async S (DaResult A Unit)

-- A promise of a result with a context.
abbrev pub PromiseWithContextResult : Type 0 → Type 0 → Type 0 → Type 0
PromiseWithContextResult S A C = Async S (DaResult A C)

-- `failure(error)`
abbrev pub failure : {A C : Type 0} → MomokaValidatorError → DaResult A C
failure error = failed error none

-- `failureWithContext(error, context)`
abbrev pub failure_with_context : {A C : Type 0} → MomokaValidatorError → C → DaResult A C
failure_with_context error context = failed error (some context)

module _ {S A : Type 0} where
  abbrev pub succeed : A → PromiseResult S A
  succeed a s = (resolved (success a), s)

  abbrev pub fail : MomokaValidatorError → PromiseResult S A
  fail error s = (resolved (failure error), s)

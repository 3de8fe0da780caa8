-- ===== src/Prelude/Promises.antt =====
-- Functions that return a promise, over the state that they may change. An awaited promise resolves or
-- rejects; what was changed before a rejection stays changed, so the state comes back beside the error.
use Prim.Native.String.{String}
use mathlib.Core.Path.{◌≡◌, refl, ap, ◌∙◌}
use mathlib.Core.Logic.{◌⊎◌, inl, inr}
use mathlib.Core.List.{List, [], ◌∷◌}

pub data Settled {ℓ} (A : Type ℓ) : Type ℓ where
  resolved : A → Settled A
  rejected : String → Settled A

abbrev pub Async {ℓ} : Type ℓ → Type ℓ → Type ℓ
Async S A = S → Settled A × S

module _ {ℓ} {S A : Type ℓ} where
  -- `Promise.resolve(a)`
  abbrev pub pure : A → Async S A
  pure a s = (resolved a, s)

  -- `throw new Error(message)`
  abbrev pub throw : String → Async S A
  throw message s = (rejected message, s)

  -- A result of synchronous code that may throw.
  abbrev pub settle : Settled A → Async S A
  settle r s = (r, s)

  handle : Settled A → (String → Async S A) → Async S A
  handle (resolved a) handler s = (resolved a, s)
  handle (rejected message) handler s = handler message s

  -- `try { … } catch (error) { … }`
  unfoldable pub try_catch : Async S A → (String → Async S A) → Async S A
  unfolding handle
  try_catch body handler s = handle (body s).0 handler (body s).1

-- What an awaited promise resolves to is one value.
pub resolved_inj :
    {S A : Type 0} {a b : A} {s t : S}
    → ◌≡◌ {A = Settled A × S} (resolved a, s) (resolved b, t)
    → a ≡ b
resolved_inj h = cc

module _ {ℓ} {S A : Type ℓ} where
  -- A split on what an awaited promise did, that keeps the equation.
  pub settled-cases :
      (r : Settled A × S)
      → ((a : A) × (t : S) × (r ≡ (resolved a, t)))
        ⊎ ((message : String) × (t : S) × (r ≡ (rejected message, t)))
  settled-cases (resolved a, t) = inl (a, t, refl)
  settled-cases (rejected message, t) = inr (message, t, refl)

join_settled {ℓ} : {B : Type ℓ} → Settled B → Settled (List B) → Settled (List B)
join_settled (resolved b) (resolved bs) = resolved (b ∷ bs)
join_settled (resolved b) (rejected message) = rejected message
join_settled (rejected message) _ = rejected message

module _ {ℓ} {S A B : Type ℓ} where
  abbrev pub continue : Settled A → (A → Async S B) → Async S B
  continue (resolved a) f s = f a s
  continue (rejected message) f s = (rejected message, s)

  infixl 10 ◌>>=◌ ◌>>◌
  abbrev pub ◌>>=◌ : Async S A → (A → Async S B) → Async S B
  ◌>>=◌ m f s = continue (m s).0 f (m s).1

  abbrev pub ◌>>◌ : Async S A → Async S B → Async S B
  m >> n = m >>= λ _. n

  -- What an awaited promise leaves, when it resolves, and when its continuation does.
  pub >>=-eq-resolved :
      (m : Async S A) (f : A → Async S B) {b : B} {s s' : S}
      → (m >>= f) s ≡ (resolved b, s')
      → (a : A) × (t : S) × (m s ≡ (resolved a, t)) × (f a t ≡ (resolved b, s'))
  >>=-eq-resolved m f {b} {s} {s'} h = resume (m s) refl h
    where
      resume :
          (r : Settled A × S)
          → m s ≡ r
          → continue r.0 f r.1 ≡ (resolved b, s')
          → (a : A) × (t : S) × (m s ≡ (resolved a, t)) × (f a t ≡ (resolved b, s'))
      resume (resolved a, t) e k = (a, t, e, k)
      resume (rejected message, t) e k = cc

  -- `await Promise.all(array.map(f))`: every call is made, in the array's order, whether or not an
  -- earlier one rejects; the result is the array of values, or the first rejection.
  unfoldable pub all_of : (A → Async S B) → List A → Async S (List B)
  unfolding join_settled
  all_of f [] s = (resolved [], s)
  all_of f (x ∷ xs) s = let (r, t) = f x s in let (rs, u) = all_of f xs t in (join_settled r rs, u)

  pub all_of-cons :
      (f : A → Async S B) (x : A) (xs : List A) {s t u : S} {b : B} {bs : List B}
      → f x s ≡ (resolved b, t)
      → all_of f xs t ≡ (resolved bs, u)
      → all_of f (x ∷ xs) s ≡ (resolved (b ∷ bs), u)
  unfolding all_of
  all_of-cons f x xs p q = rw (p, all_of) (rw (q, all_of))

abbrev join_pair : {A B : Type 0} → Settled A → Settled B → Settled (A × B)
join_pair (resolved a) (resolved b) = resolved (a, b)
join_pair (resolved a) (rejected message) = rejected message
join_pair (rejected message) _ = rejected message

-- `await Promise.all([m, n])` of two calls: both are made.
abbrev pub both : {S A B : Type 0} → Async S A → Async S B → Async S (A × B)
both m n s = (join_pair (m s).0 (n (m s).1).0, (n (m s).1).1)

pub both-eq-resolved :
    {S A B : Type 0} (m : Async S A) (n : Async S B) {p : A × B} {s s' : S}
    → both m n s ≡ (resolved p, s')
    → (t : S) × (m s ≡ (resolved p.0, t)) × (n t ≡ (resolved p.1, s'))
both-eq-resolved {S} {A} {B} m n {p} {s} {s'} h = split (m s) refl (n (m s).1) refl h
  where
    split :
        (r : Settled A × S)
        → m s ≡ r
        → (q : Settled B × S) → n r.1 ≡ q
        → ◌≡◌ {A = Settled (A × B) × S} (join_pair r.0 q.0, q.1) (resolved p, s')
        → (t : S) × (m s ≡ (resolved p.0, t)) × (n t ≡ (resolved p.1, s'))
    split (resolved a, t) e (resolved b, u) e' k =
        let same : ◌≡◌ {A = A × B} (a, b) p = cc in
        let ended : u ≡ s' = cc in
        (
          t,
          e ∙ ap (λ q. (resolved q.0, t)) same,
          e' ∙ ap (λ q. (resolved q.1, u)) same ∙ ap (λ x. (resolved p.1, x)) ended,
        )
    split (resolved a, t) e (rejected message, u) e' k = cc
    split (rejected message, t) e q e' k = cc

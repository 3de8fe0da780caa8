-- ===== src/Proofs/Publications/Events.antt =====
-- When the `verifyEventWithTypedData` methods succeed: what the children share.
pub mod Post
pub mod Comment
pub mod Mirror
pub mod Quote
use momoka.Prelude.{
  String, Bool, true, false, Option, some, none, Settled, resolved, rejected, ◌≡◌, refl, subst, ◌↔◌,
  arith, [], ◌∷◌, List, ℤ, ◌==◌, eq_int, same_refl, not,
}
use momoka.Models.{
  Value, text, strictly_equal, DaResult, success, DaStructurePublication, EventParams,
}
use momoka.Common.{arrays_equal}
use momoka.Evm.{Ethers}
use momoka.Proofs.Publications.Checks.{
  Verdict, any_of, differs, arrays_differ, is_not_empty, empty_byte, next_pub_id,
  next_pub_id_differs, compared, number_differs, numbers_differ, unless_mismatch, matched, Same,
  SameArrays, arrays_equal_iff, any_of-eq-false_iff,
}

pub differs_iff : (a b : Value) → (differs a b ≡ resolved false) ↔ Same a b
unfolding differs
differs_iff a b = ground arith

pub arrays_differ_iff :
    (a b : Option (List Value)) → (arrays_differ a b ≡ resolved false) ↔ SameArrays a b
unfolding arrays_differ
arrays_differ_iff a b =
    let (f, g) = arrays_equal_iff a b in
    (λ h. f (ground arith), λ h. let same = g h in ground (arith, same))

pub is_not_empty_iff :
    (values : Option (List Value)) → (is_not_empty values ≡ resolved false) ↔ (values ≡ some [])
unfolding is_not_empty
is_not_empty_iff (some []) = ground arith
is_not_empty_iff (some (v ∷ vs)) = ground arith
is_not_empty_iff none = ground arith

unless_mismatch-eq-success_iff :
    (test : Settled Bool) (next : Verdict)
    → (unless_mismatch test next ≡ resolved (success tt))
      ↔ ((test ≡ resolved false) × (next ≡ resolved (success tt)))
unfolding unless_mismatch
unless_mismatch-eq-success_iff (resolved true) next = ground arith
unless_mismatch-eq-success_iff (resolved false) next = ground arith
unless_mismatch-eq-success_iff (rejected message) next = ground arith

-- Each of the propositions.
abbrev pub AllOf : List (Type 0) → Type 0
AllOf [] = Unit
AllOf (P ∷ Ps) = P × AllOf Ps

-- What a chain of tests leaves when it is false.
pub record Rejects (tests : List (Settled Bool)) (Ps : List (Type 0)) : Type 0 where
  iff : (any_of tests ≡ resolved false) ↔ AllOf Ps

pub done : Rejects [] []
unfolding any_of
done = record { iff = (λ h. tt, λ p. refl) }

infixr 5 ◌&◌
pub ◌&◌ :
    {P : Type 0} {Ps : List (Type 0)} {test : Settled Bool} {tests : List (Settled Bool)}
    → (test ≡ resolved false) ↔ P
    → Rejects tests Ps
    → Rejects (test ∷ tests) (P ∷ Ps)
◌&◌ {test} {tests} (f, f') r = record {
  iff = (
    λ h.
        let (a, b) = (any_of-eq-false_iff (test ∷ tests)).0 h in
        (f a, r.iff.0 ((any_of-eq-false_iff tests).1 b)),
    λ (p, q).
        (any_of-eq-false_iff (test ∷ tests)).1 (f' p, (any_of-eq-false_iff tests).0 (r.iff.1 q)),
  );
}

-- A chain alone, and one behind a test before it.
pub checked_at_once :
    {Ps : List (Type 0)} {tests : List (Settled Bool)}
    → Rejects tests Ps
    → (unless_mismatch (any_of tests) matched ≡ resolved (success tt)) ↔ AllOf Ps
checked_at_once {tests} r =
    let (b, b') = unless_mismatch-eq-success_iff (any_of tests) matched in
    (λ h. r.iff.0 (b h).0, λ p. b' (r.iff.1 p, refl))

pub checked_in_turn :
    {P : Type 0} {Ps : List (Type 0)} {first : Settled Bool} {tests : List (Settled Bool)}
    → (first ≡ resolved false) ↔ P
    → Rejects tests Ps
    → (unless_mismatch first (unless_mismatch (any_of tests) matched) ≡ resolved (success tt))
      ↔ AllOf (P ∷ Ps)
checked_in_turn {first} {tests} (f, f') r =
    let (a, a') = unless_mismatch-eq-success_iff first (unless_mismatch (any_of tests) matched) in
    let (b, b') = checked_at_once r in
    (λ h. let (x, y) = a h in (f x, b y), λ (p, q). a' (f' p, b' q))

-- Two numbers that are read are the same.
abbrev pub AgreeOn : Settled ℤ → Settled ℤ → Type 0
AgreeOn a b = (n : ℤ) × (a ≡ resolved n) × (b ≡ resolved n)

numbers_differ_iff : (a b : Settled ℤ) → (numbers_differ a b ≡ resolved false) ↔ AgreeOn a b
unfolding numbers_differ
numbers_differ_iff (resolved n) (resolved m) =
    (λ h. (n, refl, ground arith), λ (k, p, q). ground arith)
numbers_differ_iff (resolved n) (rejected message) = (λ h. cc, λ (k, p, q). cc)
numbers_differ_iff (rejected message) b = (λ h. cc, λ (k, p, q). cc)

module _ (ethers : Ethers) where
  -- The id is the one after the count, in hexadecimal.
  abbrev pub IsNextPubId : String → Value → Type 0
  IsNextPubId count pub_id =
      (id : String) × (next_pub_id ethers count ≡ resolved id) × Same (text id) pub_id

  -- The text and the id of the event are the same number.
  abbrev pub IsSameNumber : String → Value → Type 0
  IsSameNumber result pub_id =
      AgreeOn (ethers.big_number_from (text result)) (ethers.big_number_from pub_id)

  pub number_differs_iff :
      (result : String) (pub_id : Value)
      → (number_differs ethers result pub_id ≡ resolved false) ↔ IsSameNumber result pub_id
  unfolding number_differs
  number_differs_iff result pub_id = numbers_differ_iff _ _

  pub next_pub_id_differs_iff :
      (count : String) (pub_id : Value)
      → (next_pub_id_differs ethers count pub_id ≡ resolved false) ↔ IsNextPubId count pub_id
  unfolding next_pub_id_differs compared
  next_pub_id_differs_iff count pub_id = compare (next_pub_id ethers count) refl
    where
      compare :
          (r : Settled String)
          → next_pub_id ethers count ≡ r
          → (compared r pub_id ≡ resolved false) ↔ IsNextPubId count pub_id
      compare (resolved id) e = (
        λ h. (id, e, (differs_iff _ _).0 h),
        λ (i, e', h). (differs_iff _ _).1 (subst (λ x. Same (text x) pub_id) (ground arith) h),
      )
      compare (rejected message) e = (λ h. cc, λ (i, e', h). cc)

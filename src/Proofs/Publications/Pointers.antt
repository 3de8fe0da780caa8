-- ===== src/Proofs/Publications/Pointers.antt =====
-- What a success of the checks of a comment, a mirror or a quote says.
use momoka.Prelude.{String, Bool, true, false, Option, some, none, resolved, Async, ◌≡◌, refl}
use momoka.Models.{PublicationPointer, on_da, on_evm_chain, DaPublicationPointerType, success}
use momoka.Models.Errors.{publication_none_da, pointer_failed_verification}
use momoka.Models.Chain.{
  lift, guard, chained, guarded-eq-success, guard-eq-success, lift-eq-success,
}
use momoka.Proofs.Publications.Base.{is_on_da, check_location, verify_pointer_first}

is_on_da-eq-true : (type : DaPublicationPointerType) → is_on_da type ≡ true → type ≡ on_da
is_on_da-eq-true on_da h = refl
is_on_da-eq-true on_evm_chain h = cc

module _ {S : Type 0} (check_pointer : String → Async S Bool) where
  -- The pointer is on the data availability layer; if it is to be verified, what it points at passed
  -- its check, and if not, nothing was run.
  pub record PointerAccepted (verify_pointer : Bool) (pointer : Option PublicationPointer)
      (s s' : S) : Type 0 where
    pub target : PublicationPointer
    pub is_given : pointer ≡ some target
    pub is_on_da_layer : target.type ≡ on_da
    pub is_checked : verify_pointer ≡ true → check_pointer target.location s ≡ (resolved true, s')
    pub is_unchecked : verify_pointer ≡ false → s ≡ s'

  location_checked :
      (location : String) {u : Unit {0}} {s s' : S}
      → check_location check_pointer true location s ≡ (resolved (success u), s')
      → check_pointer location s ≡ (resolved true, s')
  unfolding check_location
  location_checked location {u} {s} {s'} h =
      chained (lift (check_pointer location)) (λ passed. guard passed pointer_failed_verification) h
        (λ passed t e k.
          let (passing, same) =
            guard-eq-success passed pointer_failed_verification {u = u} {s = t} {s' = s'} k in
          let checked = lift-eq-success (check_pointer location) e in cc)

  location_skipped :
      (location : String) {u : Unit {0}} {s s' : S}
      → check_location check_pointer false location s ≡ (resolved (success u), s')
      → s ≡ s'
  unfolding check_location
  location_skipped location h = cc

  pub verify_pointer_first-PointerAccepted :
      (verify_pointer : Bool) (pointer : Option PublicationPointer) {u : Unit {0}} {s s' : S}
      → verify_pointer_first check_pointer verify_pointer pointer s ≡ (resolved (success u), s')
      → PointerAccepted verify_pointer pointer s s'
  unfolding verify_pointer_first
  verify_pointer_first-PointerAccepted verify_pointer none h = cc
  verify_pointer_first-PointerAccepted true (some pointer) h =
      let (on, k) =
        guarded-eq-success (is_on_da pointer.type) publication_none_da
          (check_location check_pointer true pointer.location) h in
      record {
        target = pointer;
        is_given = refl;
        is_on_da_layer = is_on_da-eq-true pointer.type on;
        is_checked = λ _. location_checked pointer.location k;
        is_unchecked = λ e. cc;
      }
  verify_pointer_first-PointerAccepted false (some pointer) h =
      let (on, k) =
        guarded-eq-success (is_on_da pointer.type) publication_none_da
          (check_location check_pointer false pointer.location) h in
      record {
        target = pointer;
        is_given = refl;
        is_on_da_layer = is_on_da-eq-true pointer.type on;
        is_checked = λ e. cc;
        is_unchecked = λ _. location_skipped pointer.location k;
      }

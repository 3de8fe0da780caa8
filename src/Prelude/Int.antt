-- ===== src/Prelude/Int.antt =====
-- Integers: the numbers of the program that may be negative (a block number less one, a BigNumber).
use Prim.Native.Nat.{ℕ, zero, suc}
use mathlib.Core.Path.{◌≡◌, refl}
use mathlib.Core.Logic.{◌↔◌, ◌≢◌}
use mathlib.Core.Bool.{Bool, true, false}
use native.Mathlib.Omega.{arith}
use momoka.Prelude.Tests.{ltb, nat_eq, StrictlyComparable}

-- `negsuc n` is -(n + 1).
pub data ℤ : Type 0 where
  pos : ℕ → ℤ
  negsuc : ℕ → ℤ

abbrev pub add_one : ℤ → ℤ
add_one (pos n) = pos (suc n)
add_one (negsuc zero) = pos 0
add_one (negsuc (suc n)) = negsuc n

abbrev pub sub_one : ℤ → ℤ
sub_one (pos zero) = negsuc 0
sub_one (pos (suc n)) = pos n
sub_one (negsuc n) = negsuc (suc n)

abbrev pub int_eq : ℤ → ℤ → Bool
int_eq (pos a) (pos b) = nat_eq a b
int_eq (negsuc a) (negsuc b) = nat_eq a b
int_eq _ _ = false

abbrev pub int_lt : ℤ → ℤ → Bool
int_lt (pos a) (pos b) = ltb a b
int_lt (negsuc a) (negsuc b) = ltb b a
int_lt (negsuc a) (pos b) = true
int_lt (pos a) (negsuc b) = false

pub int_eq_iff : (a b : ℤ) → (int_eq a b ≡ true) ↔ (a ≡ b)
int_eq_iff (pos a) (pos b) = ground arith
int_eq_iff (negsuc a) (negsuc b) = ground arith
int_eq_iff (pos a) (negsuc b) = ground arith
int_eq_iff (negsuc a) (pos b) = ground arith

instance abbrev pub eq_int : StrictlyComparable ℤ
eq_int = record { is_same = int_eq; is_same_iff = int_eq_iff }

pub add_one-sub_one : (a : ℤ) → add_one (sub_one a) ≡ a
add_one-sub_one (pos zero) = refl
add_one-sub_one (pos (suc n)) = refl
add_one-sub_one (negsuc n) = refl

pub ne-add_one : (a : ℤ) → a ≢ add_one a
ne-add_one (pos n) = ground arith
ne-add_one (negsuc zero) = ground arith
ne-add_one (negsuc (suc n)) = ground arith

pub ne-sub_one : (a : ℤ) → a ≢ sub_one a
ne-sub_one (pos zero) = ground arith
ne-sub_one (pos (suc n)) = ground arith
ne-sub_one (negsuc n) = ground arith

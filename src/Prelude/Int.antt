-- ===== src/Prelude/Int.antt =====
-- Go's `int` and `int64`: integers, with the wrap-around of int64 addition written out.
use Prim.Native.Nat.{ℕ, ◌+◌, ◌-◌, ◌≤◌}
use mathlib.Core.Bool.{Bool, true, false}
use mathlib.Core.Path.{◌≡◌, refl}
use mathlib.Core.Logic.{◌≢◌}
use native.Mathlib.Omega.{arith}
use didcomm_prober.Prelude.Tests.{ltb, leb, eqb, if◌then◌else◌}

-- `negsuc n` is -(n + 1).
pub data ℤ : Type 0 where
  pos : ℕ → ℤ
  negsuc : ℕ → ℤ

-- a < b
abbrev pub lt_int : ℤ → ℤ → Bool
lt_int (pos a) (pos b) = ltb a b
lt_int (pos a) (negsuc b) = false
lt_int (negsuc a) (pos b) = true
lt_int (negsuc a) (negsuc b) = ltb b a

-- a ≤ b
abbrev pub le_int : ℤ → ℤ → Bool
le_int (pos a) (pos b) = leb a b
le_int (pos a) (negsuc b) = false
le_int (negsuc a) (pos b) = true
le_int (negsuc a) (negsuc b) = leb b a

abbrev pub eq_int : ℤ → ℤ → Bool
eq_int (pos a) (pos b) = eqb a b
eq_int (pos a) (negsuc b) = false
eq_int (negsuc a) (pos b) = false
eq_int (negsuc a) (negsuc b) = eqb a b

-- the largest int64, 2 ^ 63 - 1
abbrev pub max_int64 : ℕ
max_int64 = 9223372036854775807

-- x + 1 on int64: the largest value wraps to the smallest
unfoldable pub add_one64 : ℤ → ℤ
add_one64 (pos a) = if eqb a max_int64 then negsuc max_int64 else pos (a + 1)
add_one64 (negsuc a) = if eqb a 0 then pos 0 else negsuc (a - 1)

-- the smallest int64 is `negsuc max_int64`
abbrev pub IsInt64 : ℤ → Type 0
IsInt64 (pos a) = a ≤ max_int64
IsInt64 (negsuc a) = a ≤ max_int64

pub add_one64-IsInt64 : (x : ℤ) → IsInt64 x → IsInt64 (add_one64 x)
unfolding add_one64
add_one64-IsInt64 (pos a) h = ground arith
add_one64-IsInt64 (negsuc a) h = ground arith

-- Below the largest value the sum is the next integer.
pub lt-add_one64 : (x : ℤ) → lt_int x (pos max_int64) ≡ true → lt_int x (add_one64 x) ≡ true
unfolding add_one64
lt-add_one64 (pos a) h = ground arith
lt-add_one64 (negsuc a) h = ground arith

pub le_int_of_lt : (x y : ℤ) → lt_int x y ≡ true → le_int x y ≡ true
le_int_of_lt (pos a) (pos b) h = ground arith
le_int_of_lt (pos a) (negsuc b) h = cc
le_int_of_lt (negsuc a) (pos b) h = refl
le_int_of_lt (negsuc a) (negsuc b) h = ground arith

pub le_int_of_not-lt : (x y : ℤ) → lt_int x y ≡ false → le_int y x ≡ true
le_int_of_not-lt (pos a) (pos b) h = ground arith
le_int_of_not-lt (pos a) (negsuc b) h = refl
le_int_of_not-lt (negsuc a) (pos b) h = cc
le_int_of_not-lt (negsuc a) (negsuc b) h = ground arith

pub le_int_refl : (x : ℤ) → le_int x x ≡ true
le_int_refl (pos a) = ground arith
le_int_refl (negsuc a) = ground arith

pub le_int_trans : (x y z : ℤ) → le_int x y ≡ true → le_int y z ≡ true → le_int x z ≡ true
le_int_trans (pos a) (pos b) (pos c) h k = ground arith
le_int_trans (negsuc a) (negsuc b) (negsuc c) h k = ground arith
le_int_trans (negsuc a) y (pos c) h k = refl
le_int_trans (pos a) (negsuc b) z h k = cc
le_int_trans (pos a) (pos b) (negsuc c) h k = cc
le_int_trans (negsuc a) (pos b) (negsuc c) h k = cc

pub lt_int_irrefl : (x : ℤ) → lt_int x x ≡ false
lt_int_irrefl (pos a) = ground arith
lt_int_irrefl (negsuc a) = ground arith

pub eq_int_refl : (x : ℤ) → eq_int x x ≡ true
eq_int_refl (pos a) = ground arith
eq_int_refl (negsuc a) = ground arith

pub eq_int_sound : (x y : ℤ) → eq_int x y ≡ true → x ≡ y
eq_int_sound (pos a) (pos b) h = ground arith
eq_int_sound (pos a) (negsuc b) h = cc
eq_int_sound (negsuc a) (pos b) h = cc
eq_int_sound (negsuc a) (negsuc b) h = ground arith

pub lt_int_of_le : (x y : ℤ) → le_int x y ≡ true → x ≢ y → lt_int x y ≡ true
lt_int_of_le (pos a) (pos b) h k = ground arith
lt_int_of_le (pos a) (negsuc b) h k = cc
lt_int_of_le (negsuc a) (pos b) h k = refl
lt_int_of_le (negsuc a) (negsuc b) h k = ground arith

pub le_int_of_not-le : (x y : ℤ) → le_int x y ≡ false → le_int y x ≡ true
le_int_of_not-le (pos a) (pos b) h = ground arith
le_int_of_not-le (pos a) (negsuc b) h = refl
le_int_of_not-le (negsuc a) (pos b) h = cc
le_int_of_not-le (negsuc a) (negsuc b) h = ground arith

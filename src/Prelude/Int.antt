-- ===== src/Prelude/Int.antt =====
-- Go's int64 values as integers, with the wrap-around of a sum written out.
use Prim.Native.Nat.{ℕ, ◌-◌, ◌%◌, ◌^◌}
use mathlib.Core.Bool.{Bool, true, false}
use passfs.Prelude.Eq.{nat_beq}
use passfs.Prelude.Tests.{ltb, if◌then◌else◌}

-- `negsuc n` is -(n + 1).
pub data ℤ : Type 0 where
  pos : ℕ → ℤ
  negsuc : ℕ → ℤ

abbrev pub int_beq : ℤ → ℤ → Bool
int_beq (pos a) (pos b) = nat_beq a b
int_beq (negsuc a) (negsuc b) = nat_beq a b
int_beq (pos a) (negsuc b) = false
int_beq (negsuc a) (pos b) = false

abbrev pub int_ltb : ℤ → ℤ → Bool
int_ltb (pos a) (pos b) = ltb a b
int_ltb (negsuc a) (negsuc b) = ltb b a
int_ltb (pos a) (negsuc b) = false
int_ltb (negsuc a) (pos b) = true

-- The int64 whose bits are those of the number.
abbrev pub wrap_int64 : ℕ → ℤ
wrap_int64 n = let w = n % 2 ^ 64 in if ltb w (2 ^ 63) then pos w else negsuc (2 ^ 64 - 1 - w)

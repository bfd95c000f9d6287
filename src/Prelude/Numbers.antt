-- ===== src/Prelude/Numbers.antt =====
-- Signed integers over the native numbers, and the decimals that stand for Python floats read
-- from a literal.
use Prim.Native.Nat.{ℕ, zero, suc, ◌+◌, ◌/◌, ◌^◌}
use mathlib.Core.Bool.{Bool, true, false}
use autosys_clone.Prelude.Tests.{ltb, ◌==◌}

-- `negsuc n` is -(n + 1).
pub data ℤ : Type 0 where
  pos : ℕ → ℤ
  negsuc : ℕ → ℤ

abbrev pub pos_part : ℤ → ℕ
pos_part (pos n) = n
pos_part (negsuc n) = 0

abbrev pub neg_part : ℤ → ℕ
neg_part (pos n) = 0
neg_part (negsuc n) = suc n

-- The integer of magnitude `n`, negative on request; -0 is 0.
abbrev pub signed : Bool → ℕ → ℤ
signed false n = pos n
signed true zero = pos zero
signed true (suc n) = negsuc n

abbrev pub ltb_ℤ : ℤ → ℤ → Bool
ltb_ℤ a b = ltb (pos_part a + neg_part b) (pos_part b + neg_part a)

abbrev pub eqb_ℤ : ℤ → ℤ → Bool
eqb_ℤ a b = pos_part a + neg_part b == pos_part b + neg_part a

-- The value (-1)^minus * digits / 10^places.
pub record Decimal : Type 0 where
  pub minus : Bool
  pub digits : ℕ
  pub places : ℕ

-- `int(...)` of the float: towards zero.
abbrev pub truncate : Decimal → ℤ
truncate d = signed d.minus (d.digits / 10 ^ d.places)

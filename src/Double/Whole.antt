-- ===== src/Double/Whole.antt =====
-- A type that has the operations of `Double` and meets the laws of `IsIeee`, for the witnesses and
-- the tests: integers, with the quotient and the square root rounded towards zero.
pub mod Root
use minas_flink.Prelude.{ℕ, zero, suc, ◌*◌, ◌/◌, ◌≡◌, false, arith, leb, if◌then◌else◌}
use minas_flink.Prelude.Int.{ℤ, pos, negsuc, ◌+ℤ◌, ◌-ℤ◌, ◌*ℤ◌, leb_ℤ, ltb_ℤ, sub_ℕ}
use minas_flink.Double.{Double, IsIeee}

-- The largest number up to `r` whose square is at most `n`.
isqrt_from : ℕ → ℕ → ℕ
isqrt_from zero n = 0
isqrt_from (suc r) n = let rest = isqrt_from r n in if leb (suc r * suc r) n then suc r else rest

unfoldable pub sqrt_ℤ : ℤ → ℤ
unfolding isqrt_from
sqrt_ℤ (pos n) = pos (isqrt_from n n)
sqrt_ℤ (negsuc n) = pos 0

abbrev div_ℤ : ℤ → ℤ → ℤ
div_ℤ (pos a) (pos b) = pos (a / b)
div_ℤ (pos a) (negsuc b) = sub_ℕ 0 (a / suc b)
div_ℤ (negsuc a) (pos b) = sub_ℕ 0 (suc a / b)
div_ℤ (negsuc a) (negsuc b) = pos (suc a / suc b)

abbrev abs_ℤ : ℤ → ℤ
abs_ℤ (pos n) = pos n
abs_ℤ (negsuc n) = pos (suc n)

instance abbrev pub whole_double : Double ℤ
whole_double = record {
  nought = pos 0;
  add = ◌+ℤ◌;
  sub = ◌-ℤ◌;
  mul = ◌*ℤ◌;
  div = div_ℤ;
  sqrt = sqrt_ℤ;
  fabs = abs_ℤ;
  of_nat = pos;
  le = leb_ℤ;
  lt = ltb_ℤ;
}

grows : (m s v : ℤ) → leb_ℤ s m ≡ false → leb_ℤ (s +ℤ v *ℤ v) m ≡ false
unfolding ◌+ℤ◌ ◌*ℤ◌
grows m s v h = ground arith

pub Whole-IsIeee : IsIeee ℤ
Whole-IsIeee = record {
  number_of_le = λ x y h. ground arith;
  le_trans = λ x y z h k. ground arith;
  le_of_not-le = λ x y hx hy h. ground arith;
  not-le_of_lt = λ x y h. ground arith;
  le_of_not-lt = λ x y hx hy h. ground arith;
  add-mul_grows = grows;
}

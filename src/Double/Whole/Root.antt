-- ===== src/Double/Whole/Root.antt =====
-- The square root of the integers of Double/Whole is monotone.
use minas_flink.Prelude.{
  ℕ, zero, suc, ◌*◌, ◌≤◌, ◌≡◌, sym, ap₂, subst, false, ◌+◌, true, inl, inr, arith, leb, Bool-cases,
  ◌==◌,
}
use minas_flink.Prelude.Int.{ℤ, pos, negsuc, ◌-ℤ◌, ◌*ℤ◌, leb_ℤ, pos_part, neg_part, sub_ℕ}
use minas_flink.Double.{HasRoot}
use minas_flink.Double.Whole.{whole_double, isqrt_from, sqrt_ℤ}

isqrt_from-square : (r n : ℕ) → isqrt_from r n * isqrt_from r n ≤ n
unfolding isqrt_from
isqrt_from-square zero n = omega arith
isqrt_from-square (suc r) n = elim (Bool-cases (leb (suc r * suc r) n)) [
  | inl fits ↦ rw fits (ground (arith, fits))
  | inr above ↦ rw above (isqrt_from-square r n)
]

isqrt_from-le : (r n : ℕ) → isqrt_from r n ≤ r
unfolding isqrt_from
isqrt_from-le zero n = omega arith
isqrt_from-le (suc r) n = elim (Bool-cases (leb (suc r * suc r) n)) [
  | inl fits ↦ rw fits (omega arith)
  | inr above ↦ rw above (omega (arith, isqrt_from-le r n))
]

below : (r n t : ℕ) → t ≤ suc r → t * t ≤ n → leb (suc r * suc r) n ≡ false → t ≤ r
below r n t le square above = elim (Bool-cases (t == suc r)) [
  | inl same ↦
      let e : t ≡ suc r = ground (arith, same) in
      let fits : suc r * suc r ≤ n = subst (λ x. x * x ≤ n) e square in
      absurd (ground (arith, above, fits))
  | inr less ↦ ground (arith, less)
]

isqrt_from-greatest : (r n t : ℕ) → t ≤ r → t * t ≤ n → t ≤ isqrt_from r n
unfolding isqrt_from
isqrt_from-greatest zero n t le square = le
isqrt_from-greatest (suc r) n t le square = elim (Bool-cases (leb (suc r * suc r) n)) [
  | inl fits ↦ rw fits le
  | inr above ↦ rw above (isqrt_from-greatest r n t (below r n t le square above) square)
]

sqrt_mono :
    (x y : ℤ) → leb_ℤ (pos 0) x ≡ true → leb_ℤ x y ≡ true → leb_ℤ (sqrt_ℤ x) (sqrt_ℤ y) ≡ true
unfolding sqrt_ℤ
sqrt_mono (pos a) (pos b) h k =
    let le : a ≤ b = ground (arith, k) in
    let root : isqrt_from a a ≤ isqrt_from b b =
      isqrt_from-greatest b b (isqrt_from a a) (omega (arith, isqrt_from-le a a))
        (omega (arith, isqrt_from-square a a)) in
    ground (arith, root)
sqrt_mono (pos a) (negsuc b) h k = absurd (ground (arith, k))
sqrt_mono (negsuc a) y h k = absurd (ground (arith, h))

pos_part-swap : (x y : ℤ) → pos_part (x -ℤ y) ≡ neg_part (y -ℤ x)
unfolding ◌-ℤ◌
pos_part-swap x y = ground arith

square_swap :
    (a b : ℕ) → sub_ℕ (a * a + b * b) (a * b + b * a) ≡ sub_ℕ (b * b + a * a) (b * a + a * b)
square_swap a b = ap₂ (λ m n. sub_ℕ m n) (omega arith) (omega arith)

sub_swap : (x y : ℤ) → (x -ℤ y) *ℤ (x -ℤ y) ≡ (y -ℤ x) *ℤ (y -ℤ x)
unfolding ◌*ℤ◌
sub_swap x y =
    rw (pos_part-swap x y, sym (pos_part-swap y x))
      (square_swap (neg_part (y -ℤ x)) (pos_part (y -ℤ x)))

pub Whole-HasRoot : HasRoot ℤ
Whole-HasRoot = record { sub_swap = sub_swap; sqrt_mono = sqrt_mono }

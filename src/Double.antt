-- ===== src/Double.antt =====
-- The C type `double`: src/base.c computes with it by the operations below and by no others, so the
-- model takes the type and its operations as an instance argument.
pub mod Whole
use minas_flink.Prelude.{ℕ, ◌≡◌, Bool, true, false}

pub record Double (W : Type 0) : Type 0 where
  pub nought : W
  pub add : W → W → W
  pub sub : W → W → W
  pub mul : W → W → W
  pub div : W → W → W
  pub sqrt : W → W
  pub fabs : W → W
  pub of_nat : ℕ → W
  pub le : W → W → Bool
  pub lt : W → W → Bool

-- NaN is the value that is not `<=` itself.
abbrev pub IsNumber : {W : Type 0} ⦃d : Double W⦄ → W → Type 0
IsNumber ⦃d⦄ x = d.le x x ≡ true

-- What the proofs take from IEEE 754: the order is a preorder of the numbers that is total on them,
-- and adding a square to a sum does not bring it back below a bound.
pub record IsIeee (W : Type 0) ⦃d : Double W⦄ : Type 0 where
  pub number_of_le : (x y : W) → d.le x y ≡ true → IsNumber x × IsNumber y
  pub le_trans : (x y z : W) → d.le x y ≡ true → d.le y z ≡ true → d.le x z ≡ true
  pub le_of_not-le : (x y : W) → IsNumber x → IsNumber y → d.le x y ≡ false → d.le y x ≡ true
  pub not-le_of_lt : (x y : W) → d.lt x y ≡ true → d.le y x ≡ false
  pub le_of_not-lt : (x y : W) → IsNumber x → IsNumber y → d.lt x y ≡ false → d.le y x ≡ true
  pub add-mul_grows : (m s v : W) → d.le s m ≡ false → d.le (d.add s (d.mul v v)) m ≡ false

-- Two more facts of IEEE 754: the square of a difference does not depend on the order
-- of its numbers, and the root is monotone.
pub record HasRoot (W : Type 0) ⦃d : Double W⦄ : Type 0 where
  pub sub_swap : (x y : W) → d.mul (d.sub x y) (d.sub x y) ≡ d.mul (d.sub y x) (d.sub y x)
  pub sqrt_mono :
      (x y : W) → d.le d.nought x ≡ true → d.le x y ≡ true → d.le (d.sqrt x) (d.sqrt y) ≡ true

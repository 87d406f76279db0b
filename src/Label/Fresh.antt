-- ===== src/Label/Fresh.antt =====
-- The loop that looks for the label of the next novelty.
use native.Mathlib.Decide.{ℕ_discrete}
use minas_flink.Prelude.{
  ℕ, zero, suc, ◌+◌, ◌≤◌, ◌<◌, ◌≡◌, true, false, arith, u64_mod, add64, inl, inr, Bool-cases,
}
use minas_flink.Label.{is_reserved, advance, next_free_label}

reserved_lt : (label : ℕ) → is_reserved label ≡ true → label < 128
unfolding is_reserved
reserved_lt label h = ground arith

-- With fuel for the labels up to 128 the loop ends by its test, at the first label that is free.
advance-free :
    (fuel label : ℕ)
    → 128 ≤ fuel + label
    → 0 < fuel
    → fuel + label < u64_mod
    → let label' = advance fuel label in
      (is_reserved label' ≡ false)
      × (label < label')
      × (label' ≤ fuel + label)
      × ((j : ℕ) → label < j → j < label' → is_reserved j ≡ true)
unfolding advance
advance-free zero label enough some_fuel small = absurd (omega arith)
advance-free (suc fuel) label enough some_fuel small =
    let e : add64 label 1 ≡ suc label = omega arith in
    rw e (elim (Bool-cases (is_reserved (suc label))) [
      | inr free ↦ rw free (free, omega arith, omega arith, λ j h k. absurd (omega arith))
      | inl reserved ↦
          let low = reserved_lt (suc label) reserved in
          let (free, up, bound, between) =
            advance-free fuel (suc label) (omega arith) (omega arith) (omega arith) in
          rw reserved (
            free,
            omega arith,
            omega arith,
            λ j h k. elim (ℕ_discrete j (suc label)) [
              | yes here ↦ rw here reserved
              | no there ↦ between j (omega arith) k
            ],
          )
    ])

-- If the label is at least 128 below 2^64, the loop that moves `nextLabel` on ends. The label that it
-- stops at is greater, is neither a letter nor '-', and every label that it passes is one of those.
pub next_free_label-free :
    (label : ℕ)
    → label + 128 < u64_mod
    → let label' = next_free_label label in
      (is_reserved label' ≡ false)
      × (label < label')
      × ((j : ℕ) → label < j → j < label' → is_reserved j ≡ true)
unfolding next_free_label
next_free_label-free label small =
    let (free, up, _, between) = advance-free 128 label (omega arith) (omega arith) (omega arith) in
    (free, up, between)

-- It moves on by at most 128.
pub next_free_label-le : (label : ℕ) → label + 128 < u64_mod → next_free_label label ≤ label + 128
unfolding next_free_label
next_free_label-le label small =
    let (_, _, bound, _) = advance-free 128 label (omega arith) (omega arith) (omega arith) in
    omega arith

-- ===== src/Baseline/Minas/Labels.antt =====
-- The labels of novelties in old-code/src/base/minas.c.
use minas_flink.Prelude.{
  ℕ, zero, suc, ◌<◌, ◌≡◌, refl, true, Bool, not, ◌&&◌, ◌||◌, arith, ltb, ◌==◌, inl, inr, Bool-cases,
}
use minas_flink.Label.{is_letter}
use minas_flink.Baseline.Minas.{base_advance}

abbrev pub is_free : ℕ → Bool
is_free label = ltb label 255 && not (is_letter label || label == b'-')

-- A test of all the numbers below `n`.
unfoldable all_below : (ℕ → Bool) → ℕ → Bool
all_below test zero = true
all_below test (suc n) = let rest = all_below test n in test n && rest

equal : (i n : ℕ) → (i == n) ≡ true → i ≡ n
equal i n h = ground (arith, h)

all_below-lt : (test : ℕ → Bool) (n i : ℕ) → all_below test n ≡ true → i < n → test i ≡ true
unfolding all_below
all_below-lt test zero i all lt = absurd (omega arith)
all_below-lt test (suc n) i all lt = elim (Bool-cases (i == n)) [
  | inl last ↦ rw (equal i n last) (ground (arith, all))
  | inr earlier ↦ all_below-lt test n i (ground (arith, all)) (ground (arith, earlier))
]

all_labels : all_below (λ label. is_free (base_advance 255 label)) 255 ≡ true
unfolding all_below base_advance is_letter
all_labels = refl

-- The loop for the next label ends, from a label below 255, at one below 255 that is neither a letter nor
-- '-': 255 rounds are enough.
base_advance-free : (label : ℕ) → label < 255 → is_free (base_advance 255 label) ≡ true
base_advance-free label lt =
    all_below-lt (λ l. is_free (base_advance 255 l)) 255 label all_labels lt

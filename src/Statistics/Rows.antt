-- ===== src/Statistics/Rows.antt =====
-- How the rows change with a cluster, and which of them are printed.
use minas_flink.Prelude.{
  ℕ, zero, suc, ◌+◌, ◌-◌, ◌≤◌, ◌<◌, ◌≡◌, refl, subst, ap, sym, ◌∙◌, Bool, true, false, List, [],
  ◌∷◌, ◌||◌, modify, get_elem?, take, arith, length, Bool-cases, inl, inr, ◌==◌, ltb, if◌then◌else◌,
  add64,
}
use minas_flink.Data.{ok, fail, out_of_bounds}
use minas_flink.Statistics.{Row, row_of, is_free, print_rows}

-- What the first row with a label holds.
abbrev pub lookup : ℕ → List Row → ℕ
lookup l [] = 0
lookup l (r ∷ rows) = if r.label == l then r.matches else lookup l rows

-- Whether a row has a label.
abbrev pub has : ℕ → List Row → Bool
has l [] = false
has l (r ∷ rows) = r.label == l || has l rows

-- The first `n` rows have a label, and the others are free and 0.
abbrev pub Filled : ℕ → List Row → Type 0
Filled n [] = n ≡ 0
Filled zero (r ∷ rows) = (r.label ≡ 0) × (r.matches ≡ 0) × Filled zero rows
Filled (suc n) (r ∷ rows) = (r.label == 0 ≡ false) × Filled n rows

pub lookup-free : (l : ℕ) (rows : List Row) → (l == 0) ≡ false → Filled 0 rows → lookup l rows ≡ 0
lookup-free l [] some_label f = refl
lookup-free l (r ∷ rows) some_label (free, none, f) =
    let other : (r.label == l) ≡ false = ground arith in rw other (lookup-free l rows some_label f)

pub has-free : (l : ℕ) (rows : List Row) → (l == 0) ≡ false → Filled 0 rows → has l rows ≡ false
has-free l [] some_label f = refl
has-free l (r ∷ rows) some_label (free, none, f) =
    let other : (r.label == l) ≡ false = ground arith in rw other (has-free l rows some_label f)

-- The rows after a cluster with the label `k` and `m` matches, which go to the row `j`.
abbrev pub counted : ℕ → ℕ → ℕ → List Row → List Row
counted j k m rows = modify rows j (λ r. record { label = k; matches = add64 r.matches m })

abbrev pub n_after : ℕ → ℕ → List Row → ℕ
n_after j n rows = if is_free (get_elem? rows j) then n + 1 else n

pub record IsCounted (n k m : ℕ) (rows : List Row) (j : ℕ) : Type 0 where
  pub filled : Filled (n_after j n rows) (counted j k m rows)
  pub up : n_after j n rows ≤ n + 1
  pub look :
      (l : ℕ)
      → (l == 0) ≡ false
      → lookup l (counted j k m rows) ≡ (if l == k then add64 (lookup l rows) m else lookup l rows)
  pub count : n_after j n rows ≡ n + (if has k rows then 0 else 1)
  pub labels : (l : ℕ) → (l == 0) ≡ false → has l (counted j k m rows) ≡ (k == l || has l rows)

n_after-suc : (b : Bool) (n : ℕ) → (if b then suc n + 1 else suc n) ≡ suc (if b then n + 1 else n)
n_after-suc b n = ground arith

row_of-next :
    (r : Row) (rows : List Row) (n k : ℕ)
    → (r.label == k) ≡ false
    → (r.label == 0) ≡ false
    → row_of (r ∷ rows) (suc n) k ≡ suc (row_of rows n k)
unfolding row_of
row_of-next r rows n k not_here used =
    let some_left : (suc n == 0) ≡ false = ground arith in
    let pred : suc n - 1 ≡ n = omega arith in rw (not_here, used, some_left, pred) refl

same_first : (r k l : ℕ) (b : Bool) → (r == k) ≡ true → (k == l || b) ≡ (k == l || (r == l || b))
same_first r k l b same = ground (arith, same)

swap_or : (a b c : Bool) → (a || (b || c)) ≡ (b || (a || c))
swap_or a b c = ground arith

pub counted_lem :
    (n k m : ℕ) (rows : List Row)
    → (k == 0) ≡ false
    → n < length rows
    → Filled n rows
    → IsCounted n k m rows (row_of rows n k)
unfolding row_of is_free
counted_lem n k m [] some_label room f = absurd (omega arith)
counted_lem zero k m (r ∷ rows) some_label room (free, none, f) =
    let here : (r.label == k || r.label == 0 || true) ≡ true = ground arith in
    let is_free : (r.label == 0) ≡ true = ground (arith, free) in
    let other_first : (r.label == k) ≡ false = ground (arith, free, some_label) in
    rw here (record {
      filled = rw is_free (some_label, f);
      up = rw is_free (omega arith);
      look = λ l other.
          let other_row : (r.label == l) ≡ false = ground (arith, free) in
          rw (other_row, none, lookup-free l rows other f) (ground arith);
      count = rw (is_free, other_first, has-free k rows some_label f) (omega arith);
      labels = λ l other.
          let other_row : (r.label == l) ≡ false = ground (arith, free) in rw other_row refl;
    })
counted_lem (suc n) k m (r ∷ rows) some_label room (used, f) = elim (Bool-cases (r.label == k)) [
  | inl found ↦ rw found (record {
    filled = rw used (some_label, f);
    up = rw used (omega arith);
    look = λ l other. ground (arith, found);
    count = rw (used, found) (omega arith);
    labels = λ l other. same_first (r.label) k l (has l rows) found;
  })
  | inr not_here ↦
      let h = counted_lem n k m rows some_label (omega arith) f in
      let j = row_of rows n k in
      let up = n_after-suc (is_free (get_elem? rows j)) n in
      subst (IsCounted (suc n) k m (r ∷ rows)) (sym (row_of-next r rows n k not_here used))
        (record {
          filled = subst (λ i. Filled i (r ∷ counted j k m rows)) (sym up) (used, h.filled);
          up = omega (arith, h.up, up);
          look = λ l other. elim (Bool-cases (r.label == l)) [
            | inl first ↦
                let ne : (l == k) ≡ false = ground (arith, not_here) in rw first (rw ne refl)
            | inr later ↦ rw later (h.look l other)
          ];
          count = up ∙ ap suc h.count ∙ rw not_here (omega arith);
          labels = λ l other.
              ap (λ b. r.label == l || b) (h.labels l other)
              ∙ swap_or (r.label == l) (k == l) (has l rows);
        })
]

pub print_rows-Filled :
    (n : ℕ) (rows : List Row)
    → Filled n rows
    → print_rows rows ≡ (if ltb n (length rows) then ok (take n rows) else fail out_of_bounds)
unfolding print_rows
print_rows-Filled n [] f = let full : ltb n 0 ≡ false = ground arith in rw full refl
print_rows-Filled zero (r ∷ rows) (free, none, f) =
    let is_free : (r.label == 0) ≡ true = ground arith in
    let room : ltb 0 (suc (length rows)) ≡ true = ground arith in rw (is_free, room) refl
print_rows-Filled (suc n) (r ∷ rows) (used, f) = elim (Bool-cases (ltb n (length rows))) [
  | inl room ↦
      let room' : ltb (suc n) (suc (length rows)) ≡ true = ground (arith, room) in
      let rest : print_rows rows ≡ ok (take n rows) = print_rows-Filled n rows f ∙ rw room refl in
      rw (used, rest, room') refl
  | inr full ↦
      let full' : ltb (suc n) (suc (length rows)) ≡ false = ground (arith, full) in
      let rest : print_rows rows ≡ fail out_of_bounds = print_rows-Filled n rows f ∙ rw full refl in
      rw (used, rest, full') refl
]

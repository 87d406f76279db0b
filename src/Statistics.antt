-- ===== src/Statistics.antt =====
-- `labelMatchStatistics` of src/base.c: how many examples the clusters of each label have matched. The
-- text is left out, but for the rows that are printed.
pub mod Rows
pub mod Totals
mod Tests
use minas_flink.Prelude.{
  ℕ, suc, ◌+◌, ◌-◌, List, [], ◌∷◌, ◌||◌, modify, get_elem?, none, some, ◌==◌, if◌then◌else◌, add64,
  Option, Bool, true, false, map,
}
use minas_flink.Data.{Cluster, Model, Result, ok, fail, out_of_bounds, ◌>>=◌}

-- An entry of the array `labels`, and that of the array `matches` with the same index.
pub record Row : Type 0 where
  pub label : ℕ
  pub matches : ℕ

-- The arrays, `nLabels`, `nMatches` and `nMisses`.
pub record Statistics : Type 0 where
  pub rows : List Row
  pub n_labels : ℕ
  pub n_matches : ℕ
  pub n_misses : ℕ

-- The inner loop: where the label is, or where the first free row is.
unfoldable pub row_of : List Row → ℕ → ℕ → ℕ
row_of [] left label = 0
row_of (r ∷ rows) left label =
    let rest = row_of rows (left - 1) label in
    if r.label == label || r.label == 0 || left == 0 then 0 else suc rest

-- Whether a row is free.
unfoldable pub is_free : Option Row → Bool
is_free none = false
is_free (some r) = r.label == 0

unfoldable pub count_cluster : {W : Type 0} → Statistics → Cluster W → Statistics
count_cluster s c =
    let j = row_of s.rows s.n_labels c.label in
    record {
      rows =
          modify s.rows j (λ r. record { label = c.label; matches = add64 r.matches c.n_matches });
      n_labels = if is_free (get_elem? s.rows j) then s.n_labels + 1 else s.n_labels;
      n_matches = add64 s.n_matches c.n_matches;
      n_misses = add64 s.n_misses c.n_misses;
    }

unfoldable pub count_clusters : {W : Type 0} → Statistics → List (Cluster W) → Statistics
count_clusters s [] = s
count_clusters s (c ∷ cs) = count_clusters (count_cluster s c) cs

-- The rows that the last loop prints, up to the first free one.
unfoldable pub print_rows : List Row → Result (List Row)
print_rows [] = fail out_of_bounds
print_rows (r ∷ rows) =
    let rest = print_rows rows >>= λ (printed : List Row). ok (r ∷ printed) in
    if r.label == 0 then ok [] else rest

unfoldable pub no_statistics : {W : Type 0} → Model W → Statistics
no_statistics m = record {
  rows = map (λ c. record { label = 0; matches = 0 }) m.clusters;
  n_labels = 0;
  n_matches = 0;
  n_misses = 0;
}

unfoldable pub label_match_statistics : {W : Type 0} → Model W → Result (Statistics × List Row)
label_match_statistics m =
    let s = count_clusters (no_statistics m) m.clusters in
    print_rows s.rows >>= λ (printed : List Row). ok (s, printed)

-- ===== src/Statistics/Totals.antt =====
-- What the rows hold.
use minas_flink.Prelude.{
  ℕ, ◌+◌, ◌%◌, ◌≤◌, ◌<◌, ◌≡◌, refl, ap, ◌∙◌, Bool, true, false, List, [], ◌∷◌, ◌||◌, map, take,
  arith, length, length-map, length-modify, All, ◌==◌, ltb, if◌then◌else◌, add64, u64_mod, sum_of,
}
use minas_flink.Data.{Cluster, Model, size, Result, ok, fail, out_of_bounds, ◌>>=◌}
use minas_flink.Statistics.{
  Row, Statistics, row_of, count_cluster, count_clusters, no_statistics, label_match_statistics,
}
use minas_flink.Statistics.Rows.{
  lookup, has, Filled, lookup-free, has-free, counted, n_after, counted_lem, print_rows-Filled,
}

add_mod : (a b c : ℕ) → (add64 a b + c) % u64_mod ≡ (a + (b + c)) % u64_mod
add_mod a b c = omega arith

bump_lt : (b : Bool) (x m : ℕ) → x < u64_mod → (if b then add64 x m else x) < u64_mod
bump_lt b x m h = ground arith

look_step :
    (k l x m rest x' : ℕ)
    → x' ≡ (if l == k then add64 x m else x)
    → (x' + rest) % u64_mod ≡ (x + ((if k == l then m else 0) + rest)) % u64_mod
look_step k l x m rest x' e = ground arith

AreWords : Statistics → Type 0
AreWords s =
    (s.n_matches < u64_mod)
    × (s.n_misses < u64_mod)
    × ((l : ℕ) → (l == 0) ≡ false → lookup l s.rows < u64_mod)

abbrev with_statistics : Statistics → List Row → Result (Statistics × List Row)
with_statistics s printed = ok (s, printed)

-- What is printed with `n` labels of clusters of the number `size`.
abbrev pub outcome : Statistics → ℕ → ℕ → Result (Statistics × List Row)
outcome s n size = if ltb n size then ok (s, take n s.rows) else fail out_of_bounds

ok_under :
    (b : Bool) (rows : List Row) (s : Statistics)
    → ((if b then ok rows else fail out_of_bounds) >>= with_statistics s)
      ≡ (if b then ok (s, rows) else fail out_of_bounds)
ok_under true rows s = refl
ok_under false rows s = refl

abbrev is_in : ℕ → List ℕ → Bool
is_in l [] = false
is_in l (x ∷ xs) = x == l || is_in l xs

module _ {W : Type 0} where
  -- How many examples the clusters with a label have matched.
  abbrev pub matches_of : ℕ → List (Cluster W) → ℕ
  matches_of l cs = sum_of (λ c. if c.label == l then c.n_matches else 0) cs

  -- A cluster with a label that is not 0.
  abbrev pub IsLabelled : Cluster W → Type 0
  IsLabelled c = (c.label == 0) ≡ false

  -- How many labels the clusters have that are not among those seen before.
  abbrev pub distinct : List ℕ → List (Cluster W) → ℕ
  distinct seen [] = 0
  distinct seen (c ∷ cs) = (if is_in c.label seen then 0 else 1) + distinct (c.label ∷ seen) cs

  record IsTable (s s' : Statistics) (cs : List (Cluster W)) : Type 0 where
    filled : Filled s'.n_labels s'.rows
    len : length s'.rows ≡ length s.rows
    up : s'.n_labels ≤ s.n_labels + length cs
    look :
        (l : ℕ)
        → (l == 0) ≡ false
        → lookup l s'.rows ≡ (lookup l s.rows + matches_of l cs) % u64_mod
    hits : s'.n_matches ≡ (s.n_matches + sum_of (λ c. c.n_matches) cs) % u64_mod
    misses : s'.n_misses ≡ (s.n_misses + sum_of (λ c. c.n_misses) cs) % u64_mod

  count_clusters-IsTable :
      (cs : List (Cluster W)) (s : Statistics)
      → All IsLabelled cs
      → s.n_labels + length cs ≤ length s.rows
      → Filled s.n_labels s.rows
      → AreWords s
      → IsTable s (count_clusters s cs) cs
  unfolding count_clusters count_cluster AreWords
  count_clusters-IsTable [] s labelled room f (a, b, w) = record {
    filled = f;
    len = refl;
    up = omega arith;
    look = λ l other. omega (arith, w l other);
    hits = omega arith;
    misses = omega arith;
  }
  count_clusters-IsTable (c ∷ cs) s (labelled, all) room f (a, b, w) =
      let j = row_of s.rows s.n_labels c.label in
      let h = counted_lem s.n_labels c.label c.n_matches s.rows labelled (omega arith) f in
      let len =
        length-modify s.rows j
          (λ r. record { label = c.label; matches = add64 r.matches c.n_matches }) in
      let words : (l : ℕ)
          → (l == 0) ≡ false
          → lookup l (counted j c.label c.n_matches s.rows) < u64_mod =
        λ l other.
          rw (h.look l other) (bump_lt (l == c.label) (lookup l s.rows) c.n_matches (w l other)) in
      let v =
        count_clusters-IsTable cs (count_cluster s c) all (omega (arith, h.up, len)) h.filled
          (omega arith, omega arith, words) in
      record {
        filled = v.filled;
        len = v.len ∙ len;
        up = omega (arith, v.up, h.up);
        look = λ l other.
            v.look l other
            ∙ look_step c.label l (lookup l s.rows) c.n_matches (matches_of l cs)
                (lookup l (counted j c.label c.n_matches s.rows)) (h.look l other);
        hits = v.hits ∙ add_mod s.n_matches c.n_matches (sum_of (λ c. c.n_matches) cs);
        misses = v.misses ∙ add_mod s.n_misses c.n_misses (sum_of (λ c. c.n_misses) cs);
      }

  -- The rows of the table are those of the distinct labels.
  count_clusters-distinct :
      (cs : List (Cluster W)) (s : Statistics) (seen : List ℕ)
      → All IsLabelled cs
      → s.n_labels + length cs ≤ length s.rows
      → Filled s.n_labels s.rows
      → ((l : ℕ) → (l == 0) ≡ false → has l s.rows ≡ is_in l seen)
      → (count_clusters s cs).n_labels ≡ s.n_labels + distinct seen cs
  unfolding count_clusters count_cluster
  count_clusters-distinct [] s seen labelled room f known = omega arith
  count_clusters-distinct (c ∷ cs) s seen (labelled, all) room f known =
      let j = row_of s.rows s.n_labels c.label in
      let h = counted_lem s.n_labels c.label c.n_matches s.rows labelled (omega arith) f in
      let len =
        length-modify s.rows j
          (λ r. record { label = c.label; matches = add64 r.matches c.n_matches }) in
      let rest =
        count_clusters-distinct cs (count_cluster s c) (c.label ∷ seen) all
          (omega (arith, h.up, len)) h.filled
          (λ l other. h.labels l other ∙ ap (λ b. c.label == l || b) (known l other)) in
      let first : n_after j s.n_labels s.rows ≡ s.n_labels + (if is_in c.label seen then 0 else 1) =
        h.count ∙ ap (λ b. s.n_labels + (if b then 0 else 1)) (known c.label labelled) in
      rest ∙ omega (arith, first)

  free_rows :
      (cs : List (Cluster W))
      → Filled 0 (map (λ (c : Cluster W). record { label = 0; matches = 0 }) cs)
  free_rows [] = refl
  free_rows (c ∷ cs) = (refl, refl, free_rows cs)

  -- If no cluster has the label 0, then there are as many rows as distinct labels among the clusters.
  -- They are printed, in their order, if these are fewer than the clusters; if there are as many distinct
  -- labels as clusters, then the last loop reads past the end of `labels`. The row of a label that is not
  -- 0 holds the sum of the matches of all clusters with that label, or there is no such row and the sum is
  -- 0, modulo 2^64; the hits and misses are the sums over all clusters, modulo 2^64.
  pub label_match_statistics-totals :
      (m : Model W) (l : ℕ)
      → All IsLabelled m.clusters
      → (l == 0) ≡ false
      → let s = count_clusters (no_statistics m) m.clusters in
        (s.n_labels ≡ distinct [] m.clusters)
        × (label_match_statistics m ≡ outcome s (distinct [] m.clusters) (size m))
        × (lookup l s.rows ≡ matches_of l m.clusters % u64_mod)
        × (s.n_matches ≡ sum_of (λ c. c.n_matches) m.clusters % u64_mod)
        × (s.n_misses ≡ sum_of (λ c. c.n_misses) m.clusters % u64_mod)
  unfolding label_match_statistics no_statistics AreWords
  label_match_statistics-totals m l labelled other =
      let s₀ = no_statistics m in
      let free = free_rows m.clusters in
      let zero_row = λ (k : ℕ) (h : (k == 0) ≡ false). lookup-free k s₀.rows h free in
      let room =
        length-map {B = Row} (λ (c : Cluster W). record { label = 0; matches = 0 }) m.clusters in
      let v =
        count_clusters-IsTable m.clusters s₀ labelled (omega (arith, room)) free
          (omega arith, omega arith, λ k h. rw (zero_row k h) (omega arith)) in
      let s = count_clusters s₀ m.clusters in
      let labels : s.n_labels ≡ distinct [] m.clusters = omega (
        arith,
        count_clusters-distinct m.clusters s₀ [] labelled (omega (arith, room)) free
            (λ k h. has-free k s₀.rows h free),
      ) in
      (
        labels,
        ap (λ r. r >>= with_statistics s) (print_rows-Filled s.n_labels s.rows v.filled)
            ∙ ok_under (ltb s.n_labels (length s.rows)) (take s.n_labels s.rows) s
            ∙ ap (outcome s s.n_labels) (v.len ∙ room)
            ∙ ap (λ n. outcome s n (size m)) labels,
        v.look l other
            ∙ ap (λ n. (n + matches_of l m.clusters) % u64_mod) (zero_row l other)
            ∙ ap (λ n. n % u64_mod) (omega arith),
        v.hits ∙ ap (λ n. n % u64_mod) (omega arith),
        v.misses ∙ ap (λ n. n % u64_mod) (omega arith),
      )

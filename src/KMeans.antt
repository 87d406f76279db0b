-- ===== src/KMeans.antt =====
-- `kMeansInit` and `kMeans` of src/base.c.
pub mod Search
pub mod Total
use minas_flink.Prelude.{
  ℕ, zero, suc, ◌+◌, ◌-◌, ◌*◌, List, [], ◌∷◌, map, Option, none, some, false, length, modify, ltb,
  if◌then◌else◌, u32, add32, add64,
}
use minas_flink.Double.{Double}
use minas_flink.Data.{Example, Cluster, Result, ok, fail, not_enough_examples, null_pointer, ◌>>=◌}
use minas_flink.Nearest.{nearest_cluster_val}

-- Going through the pointer that a search yields.
abbrev pub through : {W : Type 0} → Option ℕ × W → Result (ℕ × W)
through (none, dist) = fail null_pointer
through (some i, dist) = ok (i, dist)

-- A search that does not skip sleeping clusters, whose caller goes through the pointer at once: the
-- index and the distance.
unfoldable pub nearest_of :
    {W : Type 0} ⦃D : Double W⦄ → W → List (Cluster W) → List W → Result (ℕ × W)
nearest_of junk clusters val = through (nearest_cluster_val junk clusters val false)

module _ {W : Type 0} ⦃D : Double W⦄ where
  -- `sum[d] += val[d]` and `sum[d] += val[d] * val[d]` over the dimensions.
  unfoldable pub add_values : List W → List W → List W
  add_values [] val = []
  add_values (s ∷ sums) [] = s ∷ sums
  add_values (s ∷ sums) (x ∷ val) = D.add s x ∷ add_values sums val

  unfoldable pub add_squares : List W → List W → List W
  add_squares [] val = []
  add_squares (s ∷ sums) [] = s ∷ sums
  add_squares (s ∷ sums) (x ∷ val) = D.add s (D.mul x x) ∷ add_squares sums val

  -- `CLUSTER_EMPTY` with the values of one example.
  unfoldable pub first_cluster : ℕ → Example W → Cluster W
  first_cluster id e = record {
    id = id;
    label = 0;
    n_matches = 0;
    n_misses = 0;
    latest_match_id = 0;
    extension_of = 0;
    is_intrest = false;
    is_sleep = false;
    center = e.val;
    ls_val_linear_sum = e.val;
    ss_val_square_sum = map (λ x. D.mul x x) e.val;
    distance_linear_sum = D.nought;
    distance_square_sum = D.nought;
    distance_max = D.nought;
    distance_avg = D.nought;
    distance_std_dev = D.nought;
    radius = D.nought;
  }

  -- The loop of `kMeansInit`, with `left` clusters to go; `id` is `initalId + i`.
  unfoldable pub first_clusters : ℕ → ℕ → List (Example W) → List (Cluster W)
  first_clusters zero id training = []
  first_clusters (suc left) id [] = []
  first_clusters (suc left) id (e ∷ training) =
      first_cluster id e ∷ first_clusters left (add64 id 1) training

  unfoldable pub k_means_init : ℕ → List (Example W) → ℕ → Result (List (Cluster W))
  k_means_init k training initial_id =
      if ltb (length training) k
      then fail not_enough_examples
      else ok (first_clusters k initial_id training)

  -- What the loop over the training set does to the nearest cluster.
  unfoldable pub take_in : List W → Cluster W → Cluster W
  take_in val c = record c {
    n_matches = add32 c.n_matches 1;
    ls_val_linear_sum = add_values c.ls_val_linear_sum val;
    ss_val_square_sum = add_squares c.ss_val_square_sum val;
  }

  -- The loop over the training set; the number is `globalDistance`.
  unfoldable pub assign :
      W → List (Example W) → List (Cluster W) → W → Result (List (Cluster W) × W)
  assign junk [] clusters total = ok (clusters, total)
  assign junk (e ∷ training) clusters total = do
    found ← nearest_of junk clusters e.val
    assign junk training (modify clusters found.0 (take_in e.val)) (D.add total found.1)

  -- The loop over the clusters after it.
  unfoldable pub recenter : Cluster W → Cluster W
  recenter c = record c {
    center =
        if ltb 0 c.n_matches
        then map (λ s. D.div s (D.of_nat c.n_matches)) c.ls_val_linear_sum
        else c.center;
    ls_val_linear_sum = map (λ s. D.nought) c.ls_val_linear_sum;
    ss_val_square_sum = map (λ s. D.nought) c.ss_val_square_sum;
    n_matches = 0;
  }

  -- The `do` loop. `left` is `100 - iteration`, so the loop ends at 0.
  unfoldable pub k_means_loop :
      W → W → List (Example W) → ℕ → List (Cluster W) → W → Result (List (Cluster W) × W)
  k_means_loop junk precision training zero clusters prev = ok (clusters, prev)
  k_means_loop junk precision training (suc left) clusters prev = do
    (clusters', total) ← assign junk training clusters D.nought
    let moved = map recenter clusters'
    let rest = k_means_loop junk precision training left moved total
    if D.lt precision (D.fabs (D.sub total prev)) then rest else ok (moved, total)

  unfoldable pub k_means :
      W → ℕ → ℕ → W → List (Cluster W) → List (Example W) → Result (List (Cluster W) × W)
  k_means junk k dim precision clusters training =
      k_means_loop junk precision training 100 clusters
        (D.of_nat (u32 (dim * k * length training * 2)))

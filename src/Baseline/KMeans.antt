-- ===== src/Baseline/KMeans.antt =====
-- `kMeansInit` and `kMeans` of old-code/src/base/kmeans.c.
pub mod Total
use minas_flink.Prelude.{
  ℕ, zero, suc, ◌+◌, ◌*◌, List, [], ◌∷◌, map, false, length, modify, ltb, if◌then◌else◌, u32, add32,
}
use minas_flink.Double.{Double}
use minas_flink.Data.{Example, Result, ok, fail, not_enough_examples, out_of_bounds, ◌>>=◌}
use minas_flink.KMeans.{add_values, add_squares, through}
use minas_flink.Baseline.{BaseParams, BaseCluster, nearest_val}

module _ {W : Type 0} ⦃D : Double W⦄ where
  -- A cluster that `calloc` has set to 0, with a center and sums.
  unfoldable pub blank_cluster : ℕ → List W → List W → List W → BaseCluster W
  blank_cluster id center linear square = record {
    id = id;
    n_matches = 0;
    label = 0;
    center = center;
    ls_val_linear_sum = linear;
    ss_val_square_sum = square;
    distance_linear_sum = D.nought;
    distance_square_sum = D.nought;
    distance_max = D.nought;
    time_linear_sum = D.nought;
    time_square_sum = D.nought;
    distance_avg = D.nought;
    distance_std_dev = D.nought;
    radius = D.nought;
    time_mu = D.nought;
    time_sigma = D.nought;
  }

  -- The loop of `kMeansInit`, with `left` clusters to go. It reads past the end of a training set that
  -- has fewer examples.
  unfoldable pub init_clusters : ℕ → ℕ → List (Example W) → Result (List (BaseCluster W))
  init_clusters zero id training = ok []
  init_clusters (suc left) id [] = fail out_of_bounds
  init_clusters (suc left) id (e ∷ training) = do
    rest ← init_clusters left (add32 id 1) training
    ok (blank_cluster id e.val e.val (map (λ x. D.mul x x) e.val) ∷ rest)

  -- `kMeansInit`, with the size that the caller gives for the training set.
  unfoldable pub base_init : ℕ → List (Example W) → ℕ → ℕ → Result (List (BaseCluster W))
  base_init k training training_size initial_id =
      if ltb training_size k then fail not_enough_examples else init_clusters k initial_id training

  -- What the loop over the training set does to the nearest cluster.
  unfoldable pub base_take_in : List W → BaseCluster W → BaseCluster W
  base_take_in val c = record c {
    n_matches = add32 c.n_matches 1;
    ls_val_linear_sum = add_values c.ls_val_linear_sum val;
    ss_val_square_sum = add_squares c.ss_val_square_sum val;
  }

  -- The loop over the training set; the number is `globalDistance`.
  unfoldable pub base_assign :
      W → List (Example W) → List (BaseCluster W) → W → Result (List (BaseCluster W) × W)
  base_assign junk [] clusters total = ok (clusters, total)
  base_assign junk (e ∷ training) clusters total = do
    found ← through (nearest_val junk clusters e.val)
    base_assign junk training (modify clusters found.0 (base_take_in e.val)) (D.add total found.1)

  -- The loop over the clusters after it.
  unfoldable pub base_recenter : BaseCluster W → BaseCluster W
  base_recenter c = record c {
    center =
        if ltb 0 c.n_matches
        then map (λ s. D.div s (D.of_nat c.n_matches)) c.ls_val_linear_sum
        else c.center;
    ls_val_linear_sum = map (λ s. D.nought) c.ls_val_linear_sum;
    ss_val_square_sum = map (λ s. D.nought) c.ss_val_square_sum;
    n_matches = 0;
  }

  -- The `do` loop. `left` is `100 - iteration`, so the loop ends at 0.
  unfoldable pub base_k_means_loop :
      W → W → List (Example W) → ℕ → List (BaseCluster W) → W → Result (List (BaseCluster W) × W)
  base_k_means_loop junk precision training zero clusters prev = ok (clusters, prev)
  base_k_means_loop junk precision training (suc left) clusters prev = do
    (clusters', total) ← base_assign junk training clusters D.nought
    let moved = map base_recenter clusters'
    let rest = base_k_means_loop junk precision training left moved total
    if D.lt precision (D.fabs (D.sub total prev)) then rest else ok (moved, total)

  unfoldable pub base_k_means :
      W → ℕ → ℕ → W → List (BaseCluster W) → List (Example W) → Result (List (BaseCluster W) × W)
  base_k_means junk k dim precision clusters training =
      base_k_means_loop junk precision training 100 clusters
        (D.of_nat (u32 (dim * k * length training * 2)))

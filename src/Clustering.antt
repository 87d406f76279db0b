-- ===== src/Clustering.antt =====
-- `clustering` of src/base.c.
pub mod Count
mod Tests
use minas_flink.Prelude.{ℕ, ◌+◌, List, [], ◌∷◌, map, modify, ◌==◌, if◌then◌else◌, add32}
use minas_flink.Double.{Double}
use minas_flink.Data.{Example, Cluster, MinasParams, Result, ok, ◌>>=◌}
use minas_flink.KMeans.{k_means_init, k_means, nearest_of, add_values, add_squares}

-- `distances[i]` and `n_matches[i]`: how far an example is from the cluster that it matches, and the
-- index of that cluster.
pub record Measure (W : Type 0) : Type 0 where
  pub distance : W
  pub matched : ℕ

module _ {W : Type 0} ⦃D : Double W⦄ where
  -- The loop over the clusters before the measuring.
  unfoldable pub reset : Cluster W → Cluster W
  reset c = record c {
    radius = D.nought;
    n_matches = 0;
    distance_max = D.nought;
    distance_linear_sum = D.nought;
    distance_square_sum = D.nought;
  }

  -- What the loop over the training set does to the nearest cluster, at a distance of `min_dist`.
  unfoldable pub measure_in : List W → W → Cluster W → Cluster W
  measure_in val min_dist c = record c {
    n_matches = add32 c.n_matches 1;
    distance_linear_sum = D.add c.distance_linear_sum min_dist;
    distance_square_sum = D.add c.distance_square_sum (D.mul min_dist min_dist);
    distance_max = if D.lt c.distance_max min_dist then min_dist else c.distance_max;
    ls_val_linear_sum = add_values c.ls_val_linear_sum val;
    ss_val_square_sum = add_squares c.ss_val_square_sum val;
  }

  -- The loop over the training set.
  unfoldable pub measure :
      W → List (Example W) → List (Cluster W) → Result (List (Cluster W) × List (Measure W))
  measure junk [] clusters = ok (clusters, [])
  measure junk (e ∷ training) clusters = do
    found ← nearest_of junk clusters e.val
    (clusters', measures) ←
        measure junk training (modify clusters found.0 (measure_in e.val found.1))
    ok (clusters', record { distance = found.1; matched = found.0 } ∷ measures)

  -- The sum of `p * p` over the examples that match cluster `k`.
  unfoldable pub deviation : ℕ → W → W → List (Measure W) → W
  deviation k avg sum [] = sum
  deviation k avg sum (m ∷ measures) =
      let p = D.sub m.distance avg in
      deviation k avg (if m.matched == k then D.add sum (D.mul p p) else sum) measures

  -- The last loop, for cluster `k`. The two arrays that it frees are not read again.
  unfoldable pub finish : W → List (Measure W) → ℕ → Cluster W → Cluster W
  finish radius_f measures k c =
      let avg = D.div c.distance_linear_sum (D.of_nat c.n_matches) in
      let std_dev = D.sqrt (deviation k avg D.nought measures) in
      if c.n_matches == 0 then c else record c {
        distance_avg = avg;
        distance_std_dev = std_dev;
        radius = D.mul radius_f std_dev;
      }

  unfoldable pub finish_all : W → List (Measure W) → ℕ → List (Cluster W) → List (Cluster W)
  finish_all radius_f measures k [] = []
  finish_all radius_f measures k (c ∷ clusters) =
      finish radius_f measures k c ∷ finish_all radius_f measures (k + 1) clusters

  unfoldable pub clustering : W → MinasParams W → List (Example W) → ℕ → Result (List (Cluster W))
  clustering junk params training initial_id = do
    initial ← k_means_init params.k training initial_id
    (centers, _) ← k_means junk params.k params.dim params.precision initial training
    (measured, measures) ← measure junk training (map reset centers)
    ok (finish_all params.radius_f measures 0 measured)

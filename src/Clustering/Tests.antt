-- ===== src/Clustering/Tests.antt =====
-- Runs of `kMeans` and `clustering`, and instances of the theorems about them.
use minas_flink.Prelude.{ℕ, ◌≡◌, refl, List, [], ◌∷◌, map, length, arith}
use minas_flink.Prelude.Int.{ℤ, pos, ◌+ℤ◌, ◌-ℤ◌, ◌*ℤ◌}
use minas_flink.Double.Whole.{whole_double, Whole-IsIeee, sqrt_ℤ}
use minas_flink.Data.{Example, Cluster, MinasParams, Result, ok, fail}
use minas_flink.Nearest.{square_distance, visit, scan, nearest_cluster_val}
use minas_flink.KMeans.{
  nearest_of, add_values, add_squares, first_cluster, first_clusters, k_means_init, take_in, assign,
  recenter, k_means_loop, k_means,
}
use minas_flink.Clustering.{reset, measure_in, measure, deviation, finish, finish_all, clustering}
use minas_flink.Clustering.Count.{matches, clustering-matches}
use minas_flink.Samples.{example_at, params}

abbrev two_groups : List (Example ℤ)
two_groups =
    example_at 0 10 ∷ example_at 1 50 ∷ example_at 2 12 ∷ example_at 3 54 ∷ example_at 4 52 ∷ []

abbrev two : MinasParams ℤ
two = record params { k = 2 }

-- The center, the matches, the greatest distance and the radius of each cluster.
abbrev summary : Result (List (Cluster ℤ)) → List (List ℤ × ℕ × ℤ × ℤ)
summary (ok cs) = map (λ c. (c.center, c.n_matches, c.distance_max, c.radius)) cs
summary (fail e) = []

-- All that a run of `clustering` computes with.
runs : Unit {0}
unfolding clustering k_means_init first_clusters first_cluster k_means k_means_loop assign take_in
    recenter add_values add_squares nearest_of nearest_cluster_val scan visit square_distance
    measure measure_in reset deviation finish finish_all sqrt_ℤ ◌+ℤ◌ ◌-ℤ◌ ◌*ℤ◌
runs = tt

two_clusters :
    summary (clustering (pos 7) two two_groups 0)
    ≡ (pos 11 ∷ [], 2, pos 1, pos 0) ∷ (pos 52 ∷ [], 3, pos 2, pos 1) ∷ []
unfolding runs
two_clusters = refl

clustering-matches_example :
    (clusters : List (Cluster ℤ)) × (clustering (pos 7) two two_groups 0 ≡ ok clusters)
    × (length clusters ≡ 2)
    × (matches clusters ≡ 5)
clustering-matches_example =
    clustering-matches Whole-IsIeee (pos 7) two two_groups 0 (omega arith) (omega arith)
      (omega arith)

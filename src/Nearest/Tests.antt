-- ===== src/Nearest/Tests.antt =====
-- Runs of `nearestClusterVal`, and instances of the theorems about it.
use minas_flink.Prelude.{ℕ, ◌≡◌, refl, true, false, [], ◌∷◌, some, none, get_elem?}
use minas_flink.Prelude.Int.{ℤ, pos, negsuc, ◌+ℤ◌, ◌-ℤ◌, ◌*ℤ◌}
use minas_flink.Double.Whole.{whole_double, Whole-IsIeee, sqrt_ℤ}
use minas_flink.Data.{Cluster}
use minas_flink.Nearest.{square_distance, visit, scan, nearest_cluster_val}
use minas_flink.Nearest.Reference.{
  distance_sum, distance_to, plain_nearest, nearest-eq-plain_nearest,
}
use minas_flink.Nearest.Minimal.{is_considered, IsLeast, nearest-IsLeast}
use minas_flink.Nearest.Junk.{nearest-none_of_junk}
use minas_flink.Samples.{cluster_at, three_clusters}

-- The last of two clusters that are equally near is found.
ties_go_last : nearest_cluster_val (pos 7) three_clusters (pos 15 ∷ []) false ≡ (some 1, pos 5)
unfolding nearest_cluster_val scan visit square_distance sqrt_ℤ ◌+ℤ◌ ◌-ℤ◌ ◌*ℤ◌
ties_go_last = refl

sleeping_is_skipped :
    nearest_cluster_val (pos 7) three_clusters (pos 31 ∷ []) true ≡ (some 1, pos 11)
unfolding nearest_cluster_val scan visit square_distance sqrt_ℤ ◌+ℤ◌ ◌-ℤ◌ ◌*ℤ◌
sleeping_is_skipped = refl

nearest-eq-plain_nearest_example :
    nearest_cluster_val (pos 7) three_clusters (pos 12 ∷ []) true
    ≡ plain_nearest (pos 7) three_clusters (pos 12 ∷ []) true
nearest-eq-plain_nearest_example =
    nearest-eq-plain_nearest Whole-IsIeee (pos 7) three_clusters (pos 12 ∷ []) true

nearest-IsLeast_example :
    (i : ℕ) × (c : Cluster ℤ) × (nearest_cluster_val (pos 7) three_clusters (pos 12 ∷ []) true
      ≡ (some i, sqrt_ℤ (distance_to (pos 12 ∷ []) c)))
    × (get_elem? three_clusters i ≡ some c)
    × (is_considered true c ≡ true)
    × IsLeast (pos 12 ∷ []) true (distance_to (pos 12 ∷ []) c) three_clusters
unfolding distance_sum ◌+ℤ◌ ◌-ℤ◌ ◌*ℤ◌
nearest-IsLeast_example =
    nearest-IsLeast Whole-IsIeee (pos 7) (cluster_at 0 10 false)
      (cluster_at 1 20 false ∷ cluster_at 2 30 true ∷ []) (pos 12 ∷ []) true refl
      (refl, (refl, (refl, tt)))

-- An awake cluster at the very point is not found.
nearest-none_of_junk_example :
    (nearest_cluster_val
      (negsuc 0)
      (cluster_at 0 10 true ∷ cluster_at 1 20 false ∷ [])
      (pos 20 ∷ [])
      true).0
    ≡ none
unfolding distance_sum ◌+ℤ◌ ◌-ℤ◌ ◌*ℤ◌
nearest-none_of_junk_example =
    nearest-none_of_junk Whole-IsIeee (negsuc 0) (cluster_at 0 10 true) (cluster_at 1 20 false ∷ [])
      (pos 20 ∷ []) refl (refl, tt)

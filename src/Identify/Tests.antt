-- ===== src/Identify/Tests.antt =====
-- Runs of `identify`, and instances of the theorems about it.
use minas_flink.Prelude.{ℕ, ◌≡◌, refl, true, false, [], ◌∷◌, some, get_elem?, arith}
use minas_flink.Prelude.Int.{ℤ, pos, ◌+ℤ◌, ◌-ℤ◌, ◌*ℤ◌}
use minas_flink.Double.Whole.{whole_double, Whole-IsIeee, sqrt_ℤ}
use minas_flink.Data.{Cluster, Match, MinasState, Result, ok, fail}
use minas_flink.Nearest.{square_distance, visit, scan, nearest_cluster_val}
use minas_flink.Nearest.Reference.{distance_sum, distance_to}
use minas_flink.Nearest.Minimal.{IsLeast}
use minas_flink.Identify.{settle, settle_at, identify}
use minas_flink.Identify.Outcome.{IsDecision, identify-IsDecision, identify-IsLeast}
use minas_flink.Samples.{example_at, cluster_at, three_clusters, state}

abbrev match_of : Result (MinasState ℤ × Match ℤ) → ℕ × ℕ × ℤ
match_of (ok (s, m)) = (m.cluster, m.label, m.distance)
match_of (fail e) = (0, 0, pos 0)

inside : match_of (identify (pos 7) state (example_at 42 21)) ≡ (1, b'N', pos 1)
unfolding identify settle_at settle nearest_cluster_val scan visit square_distance sqrt_ℤ ◌+ℤ◌ ◌-ℤ◌
    ◌*ℤ◌
inside = refl

outside : match_of (identify (pos 7) state (example_at 42 25)) ≡ (1, b'-', pos 5)
unfolding identify settle_at settle nearest_cluster_val scan visit square_distance sqrt_ℤ ◌+ℤ◌ ◌-ℤ◌
    ◌*ℤ◌
outside = refl

identify-IsDecision_example :
    (out : MinasState ℤ × Match ℤ) × (c : Cluster ℤ) × (identify (pos 7) state (example_at 42 21)
      ≡ ok out)
    × IsDecision state (example_at 42 21) out c
identify-IsDecision_example =
    identify-IsDecision Whole-IsIeee (pos 7) state (example_at 42 21) (omega arith) (omega arith)

identify-IsLeast_example :
    (out : MinasState ℤ × Match ℤ) × (c : Cluster ℤ) × (identify (pos 7) state (example_at 42 21)
      ≡ ok out)
    × (get_elem? three_clusters out.1.cluster ≡ some c)
    × (c.is_sleep ≡ false)
    × (out.1.distance ≡ sqrt_ℤ (distance_to (pos 21 ∷ []) c))
    × IsLeast (pos 21 ∷ []) true (distance_to (pos 21 ∷ []) c) three_clusters
unfolding distance_sum ◌+ℤ◌ ◌-ℤ◌ ◌*ℤ◌
identify-IsLeast_example =
    identify-IsLeast Whole-IsIeee (pos 7) state (example_at 42 21) (cluster_at 0 10 false)
      (cluster_at 1 20 false ∷ cluster_at 2 30 true ∷ []) refl refl (refl, (refl, (refl, tt)))

-- ===== src/Growth/Tests.antt =====
-- Runs of `addCluster`, and instances of the theorems about it.
use minas_flink.Prelude.{◌≡◌, refl, false, true, List, [], ◌∷◌, All, arith}
use minas_flink.Prelude.Int.{ℤ}
use minas_flink.Double.Whole.{whole_double}
use minas_flink.Data.{Cluster, MinasState, ok, fail, out_of_bounds}
use minas_flink.Label.{is_letter, isalpha}
use minas_flink.Novelty.{append_cluster}
use minas_flink.Growth.{label_after, add_cluster, read_model}
use minas_flink.Growth.Room.{IsStepped, add_cluster-append_cluster}
use minas_flink.Growth.Read.{IsNumbered, all_read, read_model-IsStepped}
use minas_flink.Samples.{cluster_at, params, state}

-- A model without a cluster, and with room for one.
abbrev empty : MinasState ℤ
empty = record state { model = record { clusters = []; room = 1 } }

-- The second line has the id of a cluster that the model has by then.
abbrev lines : List (Cluster ℤ)
lines =
    cluster_at 0 10 false
    ∷ record (cluster_at 0 11 false) { label = 7 }
    ∷ record (cluster_at 1 20 false) { label = 8 }
    ∷ []

read_model-IsStepped_example :
    (s : MinasState ℤ) × (read_model is_letter true params empty lines ≡ ok s)
    × (s.model.clusters ≡ all_read true params 41 0 lines)
    × IsStepped 1 s.model
    × All (IsNumbered s.next_label) s.model.clusters
read_model-IsStepped_example =
    read_model-IsStepped true params is_letter lines empty (omega arith) (omega arith)
      (omega arith, (omega arith, (omega arith, tt)))
      (record { stepped = refl; started = omega arith; fits = omega arith }) tt

-- The label after the number 8 of the third line.
reads_label : label_after is_letter 0 8 ≡ 9
unfolding label_after isalpha is_letter
reads_label = refl

add_cluster-append_cluster_example :
    add_cluster is_letter
      (record params { k = 3 })
      (record state { model = append_cluster state.model (cluster_at 0 10 false) })
      (cluster_at 0 20 false)
    ≡ fail out_of_bounds
add_cluster-append_cluster_example =
    add_cluster-append_cluster is_letter (record params { k = 3 }) state (cluster_at 0 10 false)
      (cluster_at 0 20 false) (omega arith) (omega arith)

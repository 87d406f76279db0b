-- ===== src/Mpi/Gather.antt =====
-- The end of `main` of src/threaded-mpi.c: process 0 adds up the matches and misses that each process has
-- counted for each cluster.
pub mod Totals
use minas_flink.Prelude.{ℕ, zero, suc, ◌+◌, ◌*◌, List, [], ◌∷◌, ◌++◌, map, get_or, add32, length}
use minas_flink.Data.{Cluster, Model, size}
use minas_flink.Sleep.{with_clusters}

-- What `MPI_Gather` leaves in an array of process 0: the arrays of the processes, one after the other.
unfoldable pub gather : List (List ℕ) → List ℕ
gather [] = []
gather (row ∷ rows) = row ++ gather rows

module _ {W : Type 0} where
  unfoldable pub clear_counts : Cluster W → Cluster W
  clear_counts c = record c { n_matches = 0; n_misses = 0 }

  -- The loop over the clusters, from the index `i` on, for the process `j`.
  unfoldable pub add_node : ℕ → List ℕ → List ℕ → ℕ → ℕ → List (Cluster W) → List (Cluster W)
  add_node n root_matches root_misses j i [] = []
  add_node n root_matches root_misses j i (c ∷ cs) =
      record c {
        n_matches = add32 c.n_matches (get_or root_matches (j * n + i) 0);
        n_misses = add32 c.n_misses (get_or root_misses (j * n + i) 0);
      }
      ∷ add_node n root_matches root_misses j (i + 1) cs

  -- The loop over the processes, from `j` on.
  unfoldable pub add_nodes : ℕ → List ℕ → List ℕ → ℕ → ℕ → List (Cluster W) → List (Cluster W)
  add_nodes n root_matches root_misses zero j cs = cs
  add_nodes n root_matches root_misses (suc left) j cs =
      add_nodes n root_matches root_misses left (j + 1) (add_node n root_matches root_misses j 0 cs)

  unfoldable pub add_counts : List (List ℕ) → List (List ℕ) → Model W → Model W
  add_counts matches misses m = with_clusters m (
      add_nodes (size m) (gather matches) (gather misses) (length matches) 0
        (map clear_counts m.clusters))

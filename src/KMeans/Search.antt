-- ===== src/KMeans/Search.antt =====
-- The searches of `kMeans` and `clustering`, which look at all the clusters and go through the
-- pointer that they get.
use minas_flink.Prelude.{ℕ, ◌<◌, ◌≡◌, ap, false, List, some, length, get_elem?}
use minas_flink.Double.{Double, IsIeee}
use minas_flink.Data.{Cluster, ok}
use minas_flink.Nearest.Reference.{distance_to}
use minas_flink.Nearest.Minimal.{AreNumbers, IsLeast, nearest-found_all}
use minas_flink.KMeans.{nearest_of, through}

-- With at least one cluster the pointer is never null.
pub nearest_of-found :
    {W : Type 0} ⦃D : Double W⦄ (ieee : IsIeee W) (junk : W) (clusters : List (Cluster W))
    (val : List W)
    → 0 < length clusters
    → (i : ℕ) × (c : Cluster W) × (nearest_of junk clusters val
        ≡ ok (i, D.sqrt (distance_to val c)))
      × (get_elem? clusters i ≡ some c)
      × (AreNumbers val clusters → IsLeast val false (distance_to val c) clusters)
unfolding nearest_of
nearest_of-found ieee junk clusters val h =
    let (i, c, e, at, least) = nearest-found_all ieee junk clusters val h in
    (i, c, ap through e, at, least)

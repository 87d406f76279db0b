-- ===== src/Baseline.antt =====
-- old-code/src/base, the sequential program before src/base.c, in which CluStream can take the place of
-- k-means: base.h and minas.h, the distances of base.c, and the two searches of minas.c.
pub mod KMeans
pub mod Clustream
pub mod Searches
pub mod Minas
mod Tests
use minas_flink.Prelude.{
  ℕ, ◌+◌, Bool, ◌||◌, List, [], ◌∷◌, Option, none, some, ltb, ◌==◌, if◌then◌else◌,
}
use minas_flink.Double.{Double}
use minas_flink.Nearest.{Scan, square_distance}

-- `Params`, without what concerns MPI and the log.
pub record BaseParams (W : Type 0) : Type 0 where
  pub k : ℕ
  pub dim : ℕ
  pub min_examples_per_cluster : ℕ
  pub precision : W
  pub radius_f : W
  pub novelty_f : W
  pub use_clu_stream : Bool
  pub max_micro_clusters : ℕ
  pub time_threshold : W
  pub use_reclassification : Bool

-- `Cluster`; a label is a `char`.
pub record BaseCluster (W : Type 0) : Type 0 where
  pub id : ℕ
  pub n_matches : ℕ
  pub label : ℕ
  pub center : List W
  pub ls_val_linear_sum : List W
  pub ss_val_square_sum : List W
  pub distance_linear_sum : W
  pub distance_square_sum : W
  pub distance_max : W
  pub time_linear_sum : W
  pub time_square_sum : W
  pub distance_avg : W
  pub distance_std_dev : W
  pub radius : W
  pub time_mu : W
  pub time_sigma : W

module _ {W : Type 0} ⦃D : Double W⦄ where
  -- `euclideanSqrDistance`, from the sum so far.
  unfoldable pub sqr_distance_from : W → List W → List W → W
  sqr_distance_from distance (x ∷ a) (y ∷ b) =
      sqr_distance_from (D.add distance (D.mul (D.sub x y) (D.sub x y))) a b
  sqr_distance_from distance [] b = distance
  sqr_distance_from distance (x ∷ a) [] = distance

  unfoldable pub euclidean_sqr_distance : List W → List W → W
  euclidean_sqr_distance a b = sqr_distance_from D.nought a b

  unfoldable pub euclidean_distance : List W → List W → W
  euclidean_distance a b = D.sqrt (euclidean_sqr_distance a b)

module _ {W : Type 0} ⦃D : Double W⦄ (val : List W) where
  -- A round of `nearestClusterValStd`, with the distances in full.
  unfoldable pub visit_std : ℕ → BaseCluster W → Scan W → Scan W
  visit_std k c s =
      let dist = euclidean_distance val c.center in
      let found : Scan W = record { min_dist = dist; nearest = some k } in
      let closer = if D.le dist s.min_dist then found else s in
      elim s.nearest [ none ↦ found | some i ↦ closer ]

  unfoldable pub scan_std : ℕ → List (BaseCluster W) → Scan W → Scan W
  scan_std k [] s = s
  scan_std k (c ∷ cs) s = scan_std (k + 1) cs (visit_std k c s)

  -- A round of `nearestClusterVal`, which leaves the loop over the dimensions early and compares squares.
  unfoldable pub visit_val : ℕ → BaseCluster W → Scan W → Scan W
  visit_val k c s =
      let dist = square_distance (ltb 0 k) s.min_dist D.nought c.center val in
      let found : Scan W = record { min_dist = dist; nearest = some k } in
      if k == 0 || D.le dist s.min_dist then found else s

  unfoldable pub scan_val : ℕ → List (BaseCluster W) → Scan W → Scan W
  scan_val k [] s = s
  scan_val k (c ∷ cs) s = scan_val (k + 1) cs (visit_val k c s)

-- The index that `*nearest` points to and the distance; `junk` is what the uninitialised `minDist` holds.
unfoldable pub nearest_val_std :
    {W : Type 0} ⦃D : Double W⦄ → W → List (BaseCluster W) → List W → Option ℕ × W
nearest_val_std ⦃D⦄ junk clusters val =
    let s = scan_std val 0 clusters (record { min_dist = junk; nearest = none }) in
    (s.nearest, s.min_dist)

unfoldable pub nearest_val :
    {W : Type 0} ⦃D : Double W⦄ → W → List (BaseCluster W) → List W → Option ℕ × W
nearest_val ⦃D⦄ junk clusters val =
    let s = scan_val val 0 clusters (record { min_dist = junk; nearest = none }) in
    (s.nearest, D.sqrt s.min_dist)

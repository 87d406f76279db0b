-- ===== src/Nearest.antt =====
-- `nearestClusterVal` of src/base.c.
pub mod Reference
pub mod Minimal
pub mod Junk
mod Tests
use minas_flink.Prelude.{
  ℕ, ◌+◌, Bool, ◌&&◌, ◌||◌, List, [], ◌∷◌, Option, none, some, ltb, ◌==◌, if◌then◌else◌,
}
use minas_flink.Double.{Double}
use minas_flink.Data.{Cluster}

module _ {W : Type 0} ⦃D : Double W⦄ where
  -- The loop over the dimensions, which stops once the sum is above `min_dist`, if it is `bounded`.
  unfoldable pub square_distance : Bool → W → W → List W → List W → W
  square_distance bounded min_dist dist (c ∷ center) (x ∷ val) =
      let v = D.sub c x in
      let dist' = D.add dist (D.mul v v) in
      let rest = square_distance bounded min_dist dist' center val in
      if bounded && D.lt min_dist dist' then dist' else rest
  square_distance bounded min_dist dist [] val = dist
  square_distance bounded min_dist dist (c ∷ center) [] = dist

-- `minDist` and `*nearest`.
pub record Scan (W : Type 0) : Type 0 where
  pub min_dist : W
  pub nearest : Option ℕ

module _ {W : Type 0} ⦃D : Double W⦄ (val : List W) (skip_sleep : Bool) where
  -- One round of the loop over the clusters.
  unfoldable pub visit : ℕ → Cluster W → Scan W → Scan W
  visit k c s =
      let dist = square_distance (ltb 0 k) s.min_dist D.nought c.center val in
      let found : Scan W = record { min_dist = dist; nearest = some k } in
      if skip_sleep && c.is_sleep then s else if k == 0 || D.le dist s.min_dist then found else s

  unfoldable pub scan : ℕ → List (Cluster W) → Scan W → Scan W
  scan k [] s = s
  scan k (c ∷ cs) s = scan (k + 1) cs (visit k c s)

-- The index that `*nearest` points to, if any, and the distance. `junk` is what the uninitialised
-- variable `minDist` happens to hold.
unfoldable pub nearest_cluster_val :
    {W : Type 0} ⦃D : Double W⦄ → W → List (Cluster W) → List W → Bool → Option ℕ × W
nearest_cluster_val ⦃D⦄ junk clusters val skip_sleep =
    let s = scan val skip_sleep 0 clusters (record { min_dist = junk; nearest = none }) in
    (s.nearest, D.sqrt s.min_dist)

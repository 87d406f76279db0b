-- ===== src/Nearest/Reference.antt =====
-- The search of `nearestClusterVal` against the plain one, which computes every distance in full.
use minas_flink.Prelude.{
  ℕ, ◌+◌, ◌≡◌, refl, ◌⊎◌, inl, inr, Bool, true, false, ◌&&◌, ◌||◌, List, [], ◌∷◌, Option, some,
  none, arith, ltb, ◌==◌, if◌then◌else◌, Bool-cases,
}
use minas_flink.Double.{Double, IsIeee}
use minas_flink.Data.{Cluster}
use minas_flink.Nearest.{Scan, square_distance, visit, scan, nearest_cluster_val}

module _ {W : Type 0} ⦃D : Double W⦄ where
  -- The sum of the squared differences, added to `dist` from the left.
  unfoldable pub distance_sum : W → List W → List W → W
  distance_sum dist (c ∷ center) (x ∷ val) =
      distance_sum (D.add dist (D.mul (D.sub c x) (D.sub c x))) center val
  distance_sum dist [] val = dist
  distance_sum dist (c ∷ center) [] = dist

  -- The squared distance from a point to the center of a cluster.
  abbrev pub distance_to : List W → Cluster W → W
  distance_to val c = distance_sum D.nought c.center val

module _ {W : Type 0} ⦃D : Double W⦄ (val : List W) (skip_sleep : Bool) where
  unfoldable pub plain_visit : ℕ → Cluster W → Scan W → Scan W
  plain_visit k c s =
      if skip_sleep && c.is_sleep
      then s
      else if k == 0 || D.le (distance_to val c) s.min_dist
      then (record { min_dist = distance_to val c; nearest = some k })
      else s

  unfoldable pub plain_scan : ℕ → List (Cluster W) → Scan W → Scan W
  plain_scan k [] s = s
  plain_scan k (c ∷ cs) s = plain_scan (k + 1) cs (plain_visit k c s)

unfoldable pub plain_nearest :
    {W : Type 0} ⦃D : Double W⦄ → W → List (Cluster W) → List W → Bool → Option ℕ × W
plain_nearest ⦃D⦄ junk clusters val skip_sleep =
    let s = plain_scan val skip_sleep 0 clusters (record { min_dist = junk; nearest = none }) in
    (s.nearest, D.sqrt s.min_dist)

module _ {W : Type 0} ⦃D : Double W⦄ (ieee : IsIeee W) where
  distance_sum_grows :
      (m s : W) (center val : List W)
      → D.le s m ≡ false
      → D.le (distance_sum s center val) m ≡ false
  unfolding distance_sum
  distance_sum_grows m s [] val h = h
  distance_sum_grows m s (c ∷ center) [] h = h
  distance_sum_grows m s (c ∷ center) (x ∷ val) h =
      distance_sum_grows m (D.add s (D.mul (D.sub c x) (D.sub c x))) center val
        (ieee.add-mul_grows m s (D.sub c x) h)

  pub square_distance_cut :
      (b : Bool) (m s : W) (center val : List W)
      → (square_distance b m s center val ≡ distance_sum s center val)
        ⊎ ((b ≡ true)
            × (D.le (square_distance b m s center val) m ≡ false)
            × (D.le (distance_sum s center val) m ≡ false))
  unfolding square_distance distance_sum
  square_distance_cut b m s [] val = inl refl
  square_distance_cut b m s (c ∷ center) [] = inl refl
  square_distance_cut false m s (c ∷ center) (x ∷ val) =
      square_distance_cut false m (D.add s (D.mul (D.sub c x) (D.sub c x))) center val
  square_distance_cut true m s (c ∷ center) (x ∷ val) =
      let s' = D.add s (D.mul (D.sub c x) (D.sub c x)) in
      elim (Bool-cases (D.lt m s')) [
        | inl cut ↦ rw cut (
            inr (
              refl,
              ieee.not-le_of_lt m s' cut,
              distance_sum_grows m s' center val (ieee.not-le_of_lt m s' cut),
            ))
        | inr on ↦ rw on (square_distance_cut true m s' center val)
      ]

  visit-eq-plain_visit :
      (val : List W) (skip : Bool) (k : ℕ) (c : Cluster W) (s : Scan W)
      → visit val skip k c s ≡ plain_visit val skip k c s
  unfolding visit plain_visit
  visit-eq-plain_visit val skip k c s =
      ground (arith, square_distance_cut (ltb 0 k) s.min_dist D.nought c.center val)

  pub scan-eq-plain_scan :
      (val : List W) (skip : Bool) (k : ℕ) (cs : List (Cluster W)) (s : Scan W)
      → scan val skip k cs s ≡ plain_scan val skip k cs s
  unfolding scan plain_scan
  scan-eq-plain_scan val skip k [] s = refl
  scan-eq-plain_scan val skip k (c ∷ cs) s =
      rw (visit-eq-plain_visit val skip k c s) (scan-eq-plain_scan val skip (k + 1) cs _)

  -- If the operations on doubles obey the laws of `IsIeee`, leaving the loop over the dimensions early
  -- changes neither the cluster that `nearestClusterVal` points to nor the distance that it returns,
  -- whatever `minDist` holds at the start.
  pub nearest-eq-plain_nearest :
      (junk : W) (clusters : List (Cluster W)) (val : List W) (skip_sleep : Bool)
      → nearest_cluster_val junk clusters val skip_sleep
        ≡ plain_nearest junk clusters val skip_sleep
  unfolding nearest_cluster_val plain_nearest
  nearest-eq-plain_nearest junk clusters val skip =
      rw (scan-eq-plain_scan val skip 0 clusters (record { min_dist = junk; nearest = none }))

-- ===== src/Baseline/Searches.antt =====
-- The two searches of old-code/src/base/minas.c: `nearestClusterVal` against `nearestClusterValStd`.
pub mod Values
use minas_flink.Prelude.{
  ℕ, suc, ◌+◌, ◌<◌, ◌≡◌, refl, ap, ap₂, subst, ◌∙◌, sym, ◌⊎◌, inl, inr, some, none, true, false,
  ◌||◌, List, [], ◌∷◌, arith, length, get_elem?, Bool-cases, ltb, ◌==◌, if◌then◌else◌, All,
  All-mono, All-get_elem?,
}
use minas_flink.Double.{Double, IsIeee, IsNumber, HasRoot}
use minas_flink.Nearest.{Scan}
use minas_flink.Nearest.Reference.{distance_sum, square_distance_cut}
use minas_flink.Baseline.{
  BaseCluster, sqr_distance_from, euclidean_sqr_distance, euclidean_distance, visit_std, scan_std,
  visit_val, scan_val, nearest_val_std, nearest_val,
}
use minas_flink.Baseline.Searches.Values.{value_visit, value_scan, value_scan-found}

module _ {W : Type 0} ⦃D : Double W⦄ (val : List W) where
  -- The squared distance to a cluster, and the distance as `nearestClusterValStd` computes it.
  abbrev pub squared : BaseCluster W → W
  squared c = distance_sum D.nought c.center val

  abbrev direct : BaseCluster W → W
  direct c = euclidean_distance val c.center

  -- The squared distances are numbers from 0 on.
  abbrev pub AreSquares : List (BaseCluster W) → Type 0
  AreSquares = All λ c. D.le D.nought (squared c) ≡ true

  visit_val-value :
      (k : ℕ) (c : BaseCluster W) (s : Scan W)
      → IsIeee W
      → visit_val val k c s ≡ value_visit squared k c s
  unfolding visit_val value_visit
  visit_val-value k c s ieee =
      ground (arith, square_distance_cut ieee (ltb 0 k) s.min_dist D.nought c.center val)

  scan_val-value :
      (k : ℕ) (cs : List (BaseCluster W)) (s : Scan W)
      → IsIeee W
      → scan_val val k cs s ≡ value_scan squared k cs s
  unfolding scan_val value_scan
  scan_val-value k [] s ieee = refl
  scan_val-value k (c ∷ cs) s ieee =
      rw (visit_val-value k c s ieee) (scan_val-value (k + 1) cs _ ieee)

  visit_std-value :
      (k : ℕ) (c : BaseCluster W) (s : Scan W) (i : ℕ)
      → 0 < k
      → s.nearest ≡ some i
      → visit_std val k c s ≡ value_visit direct k c s
  unfolding visit_std value_visit
  visit_std-value k c s i later near = ground (arith, later, near)

  value_visit-nearest :
      (k : ℕ) (c : BaseCluster W) (s : Scan W) (i : ℕ)
      → s.nearest ≡ some i
      → (j : ℕ) × ((value_visit direct k c s).nearest ≡ some j)
  unfolding value_visit
  value_visit-nearest k c s i near = elim (Bool-cases (k == 0 || D.le (direct c) s.min_dist)) [
    | inl closer ↦ rw closer (k, refl)
    | inr farther ↦ rw farther (i, near)
  ]

  -- The pointer is set from the first round on.
  scan_std-value_later :
      (k : ℕ) (cs : List (BaseCluster W)) (s : Scan W) (i : ℕ)
      → 0 < k
      → s.nearest ≡ some i
      → scan_std val k cs s ≡ value_scan direct k cs s
  unfolding scan_std value_scan
  scan_std-value_later k [] s i later near = refl
  scan_std-value_later k (c ∷ cs) s i later near =
      let (j, near') = value_visit-nearest k c s i near in
      rw (visit_std-value k c s i later near)
        (scan_std-value_later (k + 1) cs (value_visit direct k c s) j (omega arith) near')

  scan_std-value :
      (cs : List (BaseCluster W)) (s : Scan W)
      → s.nearest ≡ none
      → scan_std val 0 cs s ≡ value_scan direct 0 cs s
  unfolding scan_std value_scan visit_std value_visit
  scan_std-value [] s unset = refl
  scan_std-value (c ∷ cs) s unset = rw unset (
      scan_std-value_later 1 cs (record { min_dist = direct c; nearest = some 0 }) 0 (omega arith)
        refl)

module _ {W : Type 0} ⦃D : Double W⦄ (ieee : IsIeee W) (root : HasRoot W) (val : List W) where
  sqr_distance_from-sum :
      (s : W) (center val : List W) → sqr_distance_from s val center ≡ distance_sum s center val
  unfolding sqr_distance_from distance_sum
  sqr_distance_from-sum s [] [] = refl
  sqr_distance_from-sum s [] (x ∷ val) = refl
  sqr_distance_from-sum s (c ∷ center) [] = refl
  sqr_distance_from-sum s (c ∷ center) (x ∷ val) =
      rw (root.sub_swap x c)
        (sqr_distance_from-sum (D.add s (D.mul (D.sub c x) (D.sub c x))) center val)

  direct-squared : (c : BaseCluster W) → direct val c ≡ D.sqrt (squared val c)
  unfolding euclidean_distance euclidean_sqr_distance
  direct-squared c = ap D.sqrt (sqr_distance_from-sum D.nought c.center val)

  direct-IsNumber :
      (c : BaseCluster W) → D.le D.nought (squared val c) ≡ true → IsNumber (direct val c)
  direct-IsNumber c q =
      subst IsNumber (sym (direct-squared c))
        (root.sqrt_mono (squared val c) (squared val c) q (ieee.number_of_le _ _ q).1)

  -- With at least one cluster, and squared distances that are numbers from 0 on, both searches find a
  -- cluster and return its distance, whatever `minDist` holds at the start. The distances that they
  -- return are equal as numbers, and no cluster is nearer to the point than the one that
  -- `nearestClusterVal` finds. The operations on doubles are to obey the laws of `IsIeee` and, for the
  -- square root, of `HasRoot`.
  pub nearest_val_std-nearest_val :
      (junk junk' : W) (cs : List (BaseCluster W))
      → 0 < length cs
      → AreSquares val cs
      → (i j : ℕ) × (c d : BaseCluster W) × (get_elem? cs i ≡ some c)
        × (get_elem? cs j ≡ some d)
        × (nearest_val_std junk cs val ≡ (some i, D.sqrt (squared val c)))
        × (nearest_val junk' cs val ≡ (some j, D.sqrt (squared val d)))
        × (D.le (D.sqrt (squared val c)) (D.sqrt (squared val d)) ≡ true)
        × (D.le (D.sqrt (squared val d)) (D.sqrt (squared val c)) ≡ true)
        × All (λ x. D.le (squared val d) (squared val x) ≡ true) cs
  unfolding nearest_val_std nearest_val
  nearest_val_std-nearest_val junk junk' cs h squares =
      let start : W → Scan W = λ m. record { min_dist = m; nearest = none } in
      let (i, c, at, near, dist, least) =
        value_scan-found (direct val) ieee cs (start junk) h
          (All-mono _ (λ x. IsNumber (direct val x)) cs direct-IsNumber squares) in
      let (j, d, at', near', dist', least') =
        value_scan-found (squared val) ieee cs (start junk') h (
          All-mono _ (λ x. IsNumber (squared val x)) cs (λ x q. (ieee.number_of_le _ _ q).1)
            squares) in
      let std = scan_std-value val cs (start junk) refl in
      let plain = scan_val-value val 0 cs (start junk') ieee in
      (
        i,
        j,
        c,
        d,
        at,
        at',
        ap₂ (λ a b. (a, b)) (ap (λ x. x.nearest) std ∙ near)
            (ap (λ x. x.min_dist) std ∙ dist ∙ direct-squared c),
        ap₂ (λ a b. (a, D.sqrt b)) (ap (λ x. x.nearest) plain ∙ near')
            (ap (λ x. x.min_dist) plain ∙ dist'),
        subst (λ x. D.le x (D.sqrt (squared val d)) ≡ true) (direct-squared c)
            (subst (λ x. D.le (direct val c) x ≡ true) (direct-squared d)
              (All-get_elem? _ cs j least at')),
        root.sqrt_mono (squared val d) (squared val c) (All-get_elem? _ cs j squares at')
            (All-get_elem? _ cs i least' at),
        least',
      )

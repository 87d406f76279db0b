-- ===== src/Nearest/Junk.antt =====
-- `nearestClusterVal` where the first cluster sleeps: `minDist` is read before it is written.
use minas_flink.Prelude.{
  ℕ, ◌+◌, ◌<◌, ◌≡◌, refl, ap, ◌∙◌, true, false, List, [], ◌∷◌, none, arith, All,
}
use minas_flink.Double.{Double, IsIeee}
use minas_flink.Data.{Cluster}
use minas_flink.Nearest.{Scan, nearest_cluster_val}
use minas_flink.Nearest.Reference.{
  distance_to, plain_visit, plain_scan, plain_nearest, nearest-eq-plain_nearest,
}

module _ {W : Type 0} ⦃D : Double W⦄ (val : List W) where
  -- No cluster is as near as `m`.
  abbrev pub AllFarther : W → List (Cluster W) → Type 0
  AllFarther m = All λ c. D.le (distance_to val c) m ≡ false

  plain_scan_farther :
      (k : ℕ) (cs : List (Cluster W)) (s : Scan W)
      → 0 < k
      → AllFarther s.min_dist cs
      → plain_scan val true k cs s ≡ s
  unfolding plain_scan plain_visit
  plain_scan_farther k [] s h far = refl
  plain_scan_farther k (c ∷ cs) s h (f, fs) =
      let e : plain_visit val true k c s ≡ s = ground arith in
      ap (plain_scan val true (k + 1) cs) e ∙ plain_scan_farther (k + 1) cs s (omega arith) fs

-- If the first cluster sleeps and the uninitialised `minDist` happens to hold a value below all the
-- other squared distances, then `nearestClusterVal` skips the first cluster, compares the others
-- with that value and finds none, even where clusters are awake, if the operations on doubles obey the
-- laws of `IsIeee`.
pub nearest-none_of_junk :
    {W : Type 0} ⦃D : Double W⦄ (ieee : IsIeee W) (junk : W) (first : Cluster W)
    (others : List (Cluster W)) (val : List W)
    → first.is_sleep ≡ true
    → AllFarther val junk others
    → (nearest_cluster_val junk (first ∷ others) val true).0 ≡ none
unfolding plain_nearest plain_scan plain_visit
nearest-none_of_junk ieee junk first others val asleep far =
    rw (nearest-eq-plain_nearest ieee junk (first ∷ others) val true, asleep)
      (ap (λ (s : Scan _). s.nearest) (plain_scan_farther val 1 others _ (omega arith) far))

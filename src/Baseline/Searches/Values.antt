-- ===== src/Baseline/Searches/Values.antt =====
-- A search for the least of some values.
use minas_flink.Prelude.{
  ℕ, suc, ◌+◌, ◌<◌, ◌≡◌, refl, ap, subst, ◌∙◌, ◌⊎◌, inl, inr, some, true, false, ◌||◌, List, [],
  ◌∷◌, arith, length, get_elem?, Bool-cases, ◌==◌, if◌then◌else◌, All,
}
use minas_flink.Double.{Double, IsIeee, IsNumber}
use minas_flink.Nearest.{Scan}
use minas_flink.Baseline.{BaseCluster}

module _ {W : Type 0} ⦃D : Double W⦄ (value : BaseCluster W → W) where
  -- The search for a least value.
  unfoldable pub value_visit : ℕ → BaseCluster W → Scan W → Scan W
  value_visit k c s =
      let found : Scan W = record { min_dist = value c; nearest = some k } in
      if k == 0 || D.le (value c) s.min_dist then found else s

  unfoldable pub value_scan : ℕ → List (BaseCluster W) → Scan W → Scan W
  value_scan k [] s = s
  value_scan k (c ∷ cs) s = value_scan (k + 1) cs (value_visit k c s)

  -- It ends at one of the clusters, or where it began, and at no larger value than that of each cluster.
  record Least (k : ℕ) (cs : List (BaseCluster W)) (s s' : Scan W) : Type 0 where
    pub down : D.le s'.min_dist s.min_dist ≡ true
    pub least : All (λ c. D.le s'.min_dist (value c) ≡ true) cs
    pub chosen :
        (s' ≡ s)
        ⊎ ((i : ℕ) × (c : BaseCluster W) × (get_elem? cs i ≡ some c)
            × (s'.nearest ≡ some (k + i))
            × (s'.min_dist ≡ value c))

  value_scan-Least :
      (ieee : IsIeee W) (k : ℕ) (cs : List (BaseCluster W)) (s : Scan W)
      → 0 < k
      → IsNumber s.min_dist
      → All (λ c. IsNumber (value c)) cs
      → Least k cs s (value_scan k cs s)
  unfolding value_scan value_visit
  value_scan-Least ieee k [] s later number numbers = record {
    down = number;
    least = tt;
    chosen = inl refl;
  }
  value_scan-Least ieee k (c ∷ cs) s later number (n, numbers) =
      elim (Bool-cases (D.le (value c) s.min_dist)) [
        | inl closer ↦
            let v =
              value_scan-Least ieee (k + 1) cs (record { min_dist = value c; nearest = some k })
                (omega arith) n numbers in
            let stays : (k == 0 || true) ≡ true = ground arith in
            rw (closer, stays)
              (record {
                down = ieee.le_trans _ _ _ v.down closer;
                least = (v.down, v.least);
                chosen = elim v.chosen [
                  | inl same ↦ inr (
                    0,
                    c,
                    refl,
                    ap (λ x. x.nearest) same ∙ ap some (omega arith),
                    ap (λ x. x.min_dist) same,
                  )
                  | inr (i, x, at, near, dist) ↦
                      inr (suc i, x, at, near ∙ ap some (omega arith), dist)
                ];
              })
        | inr farther ↦
            let v = value_scan-Least ieee (k + 1) cs s (omega arith) number numbers in
            let stays : (k == 0 || false) ≡ false = ground (arith, later) in
            rw (farther, stays)
              (record {
                down = v.down;
                least =
                    (ieee.le_trans _ _ _ v.down (ieee.le_of_not-le _ _ n number farther), v.least);
                chosen = elim v.chosen [
                  | inl same ↦ inl same
                  | inr (i, x, at, near, dist) ↦
                      inr (suc i, x, at, near ∙ ap some (omega arith), dist)
                ];
              })
      ]

  -- The search finds a cluster with the least value.
  pub value_scan-found :
      (ieee : IsIeee W) (cs : List (BaseCluster W)) (s : Scan W)
      → 0 < length cs
      → All (λ c. IsNumber (value c)) cs
      → (i : ℕ) × (c : BaseCluster W) × (get_elem? cs i ≡ some c)
        × ((value_scan 0 cs s).nearest ≡ some i)
        × ((value_scan 0 cs s).min_dist ≡ value c)
        × All (λ x. D.le (value c) (value x) ≡ true) cs
  unfolding value_scan value_visit
  value_scan-found ieee [] s h numbers = absurd (omega arith)
  value_scan-found ieee (c ∷ cs) s h (n, numbers) =
      let s₁ : Scan W = record { min_dist = value c; nearest = some 0 } in
      let v = value_scan-Least ieee 1 cs s₁ (omega arith) n numbers in
      let to : (m : W)
          → (value_scan 1 cs s₁).min_dist ≡ m
          → All (λ x. D.le m (value x) ≡ true) (c ∷ cs) =
        λ m e. subst (λ y. All (λ x. D.le y (value x) ≡ true) (c ∷ cs)) e (v.down, v.least) in
      elim v.chosen [
        | inl same ↦ (
          0,
          c,
          refl,
          ap (λ x. x.nearest) same,
          ap (λ x. x.min_dist) same,
          to (value c) (ap (λ x. x.min_dist) same),
        )
        | inr (i, x, at, near, dist) ↦
            (suc i, x, at, near ∙ ap some (omega arith), dist, to (value x) dist)
      ]

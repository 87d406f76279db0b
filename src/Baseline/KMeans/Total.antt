-- ===== src/Baseline/KMeans/Total.antt =====
-- `kMeans` of old-code/src/base/kmeans.c ends, with as many clusters as it gets.
use minas_flink.Prelude.{
  add32, ℕ, zero, suc, ◌+◌, ◌≤◌, ◌<◌, ◌≡◌, ◌≢◌, refl, ap, map-modify, map-map_same, ◌∙◌, sym, ◌⊎◌,
  inl, inr, some, none, List, [], ◌∷◌, map, arith, length, modify, Bool-cases, length-map,
  length-modify, All, All-mono, All-modify,
}
use minas_flink.Double.{Double}
use minas_flink.Data.{Example, ok}
use minas_flink.Nearest.{Scan}
use minas_flink.KMeans.{add_values}
use minas_flink.Baseline.{BaseCluster, visit_val, scan_val, nearest_val}
use minas_flink.Baseline.KMeans.{
  init_clusters, base_init, base_take_in, base_assign, base_recenter, base_k_means_loop,
  base_k_means, blank_cluster,
}

module _ {W : Type 0} ⦃D : Double W⦄ where
  -- The scan points to one of the clusters before `n`.
  abbrev Points : ℕ → Scan W → Type 0
  Points n s = (i : ℕ) × (s.nearest ≡ some i) × (i < n)

  visit_val-cases :
      (val : List W) (k : ℕ) (c : BaseCluster W) (s : Scan W)
      → ((visit_val val k c s).nearest ≡ some k) ⊎ ((k ≢ 0) × (visit_val val k c s ≡ s))
  unfolding visit_val
  visit_val-cases val k c s = ground arith

  visit_val-Points :
      (val : List W) (k : ℕ) (c : BaseCluster W) (s : Scan W)
      → (k ≡ 0) ⊎ Points k s
      → Points (k + 1) (visit_val val k c s)
  visit_val-Points val k c s (inl e) = elim (visit_val-cases val k c s) [
    | inl found ↦ (k, found, omega arith)
    | inr (later, same) ↦ absurd (later e)
  ]
  visit_val-Points val k c s (inr (i, e, lt)) = elim (visit_val-cases val k c s) [
    | inl found ↦ (k, found, omega arith)
    | inr (later, same) ↦ (i, ap (λ x. x.nearest) same ∙ e, omega arith)
  ]

  scan_val-Points :
      (val : List W) (k : ℕ) (cs : List (BaseCluster W)) (s : Scan W)
      → Points k s
      → Points (k + length cs) (scan_val val k cs s)
  unfolding scan_val
  scan_val-Points val k [] s (i, e, lt) = (i, e, omega arith)
  scan_val-Points val k (c ∷ cs) s h =
      let (i, e, lt) = scan_val-Points val (k + 1) cs _ (visit_val-Points val k c s (inr h)) in
      (i, e, omega arith)

  -- With at least one cluster the search of `kMeans` finds one.
  pub nearest_val-found :
      (junk : W) (cs : List (BaseCluster W)) (val : List W)
      → 0 < length cs
      → (i : ℕ) × (dist : W) × (nearest_val junk cs val ≡ (some i, dist)) × (i < length cs)
  unfolding nearest_val scan_val
  nearest_val-found junk [] val h = absurd (omega arith)
  nearest_val-found junk (c ∷ cs) val h =
      let (i, e, lt) = scan_val-Points val 1 cs _ (visit_val-Points val 0 c _ (inl refl)) in
      (
        i,
        _,
        ap
            (λ o. (
              o,
              D.sqrt
                  (scan_val val 0 (c ∷ cs) (record { min_dist = junk; nearest = none })).min_dist,
            ))
            e,
        omega arith,
      )

-- The ids of the clusters, in order.
abbrev pub base_ids : {W : Type 0} → List (BaseCluster W) → List ℕ
base_ids = map λ c. c.id

pub length-base_ids :
    {W : Type 0} (cs cs' : List (BaseCluster W))
    → base_ids cs' ≡ base_ids cs
    → length cs' ≡ length cs
length-base_ids cs cs' e =
    sym (length-map (λ c. c.id) cs') ∙ ap length e ∙ length-map (λ c. c.id) cs

module _ {W : Type 0} ⦃D : Double W⦄ where
  unfoldable pub noughts : ℕ → List W
  noughts zero = []
  noughts (suc n) = D.nought ∷ noughts n

  abbrev pub HasDim : ℕ → BaseCluster W → Type 0
  HasDim dim c = length c.ls_val_linear_sum ≡ dim

  -- The sums of a cluster are 0.
  abbrev pub IsBlank : ℕ → BaseCluster W → Type 0
  IsBlank dim c = c.ls_val_linear_sum ≡ noughts dim

  pub length-add_values : (xs ys : List W) → length (add_values xs ys) ≡ length xs
  unfolding add_values
  length-add_values [] ys = refl
  length-add_values (x ∷ xs) [] = refl
  length-add_values (x ∷ xs) (y ∷ ys) = ap suc (length-add_values xs ys)

  map-noughts : (xs : List W) → map (λ s. D.nought) xs ≡ noughts (length xs)
  unfolding noughts
  map-noughts [] = refl
  map-noughts (x ∷ xs) = ap (λ ys. D.nought ∷ ys) (map-noughts xs)

pub length-noughts : (W : Type 0) ⦃D : Double W⦄ (n : ℕ) → length (noughts ⦃D = D⦄ n) ≡ n
unfolding noughts
length-noughts W zero = refl
length-noughts W (suc n) = ap suc (length-noughts W n)

module _ {W : Type 0} ⦃D : Double W⦄ where
  base_recenter-IsBlank :
      (dim : ℕ) (cs : List (BaseCluster W))
      → All (HasDim dim) cs
      → All (IsBlank dim) (map base_recenter cs)
  unfolding base_recenter
  base_recenter-IsBlank dim [] h = tt
  base_recenter-IsBlank dim (c ∷ cs) (h, hs) =
      (map-noughts c.ls_val_linear_sum ∙ ap noughts h, base_recenter-IsBlank dim cs hs)

  base_assign-ok :
      (junk : W) (dim : ℕ) (training : List (Example W)) (cs : List (BaseCluster W)) (total : W)
      → 0 < length cs
      → All (HasDim dim) cs
      → (cs' : List (BaseCluster W)) × (total' : W) × (base_assign junk training cs total
          ≡ ok (cs', total'))
        × (base_ids cs' ≡ base_ids cs)
        × All (HasDim dim) cs'
  unfolding base_assign base_take_in
  base_assign-ok junk dim [] cs total some_cluster h = (cs, total, refl, refl, h)
  base_assign-ok junk dim (e ∷ training) cs total some_cluster h =
      let (i, dist, found, lt) = nearest_val-found junk cs e.val some_cluster in
      let grown = modify cs i (base_take_in e.val) in
      let (cs', total', run, same, h') =
        base_assign-ok junk dim training grown (D.add total dist) (rw length-modify some_cluster) (
          All-modify (HasDim dim) cs i (base_take_in e.val)
            (λ c q. length-add_values c.ls_val_linear_sum e.val ∙ q) h) in
      (cs', total', rw found run, same ∙ map-modify _ (base_take_in e.val) cs i (λ c. refl), h')

  base_recenter-base_ids :
      (cs : List (BaseCluster W)) → base_ids (map base_recenter cs) ≡ base_ids cs
  unfolding base_recenter
  base_recenter-base_ids cs = map-map_same _ base_recenter cs (λ c. refl)

  base_k_means_loop-ok :
      (junk precision : W) (dim : ℕ) (training : List (Example W)) (left : ℕ)
      (cs : List (BaseCluster W)) (prev : W)
      → 0 < length cs
      → All (HasDim dim) cs
      → (0 < left) ⊎ All (IsBlank dim) cs
      → (cs' : List (BaseCluster W)) × (total : W) × (base_k_means_loop junk precision training left
            cs prev
          ≡ ok (cs', total))
        × (base_ids cs' ≡ base_ids cs)
        × All (IsBlank dim) cs'
  unfolding base_k_means_loop
  base_k_means_loop-ok junk precision dim training zero cs prev some_cluster h (inl on) =
      absurd (omega (arith, on))
  base_k_means_loop-ok junk precision dim training zero cs prev some_cluster h (inr blank) =
      (cs, prev, refl, refl, blank)
  base_k_means_loop-ok junk precision dim training (suc left) cs prev some_cluster h on =
      let (cs₁, total, run, same, h₁) =
        base_assign-ok junk dim training cs D.nought some_cluster h in
      let moved = map base_recenter cs₁ in
      let blank = base_recenter-IsBlank dim cs₁ h₁ in
      let same' : base_ids moved ≡ base_ids cs = base_recenter-base_ids cs₁ ∙ same in
      let (cs', total', rest, same'', blank') =
        base_k_means_loop-ok junk precision dim training left moved total
          (rw (length-base_ids cs moved same') some_cluster)
          (All-mono (IsBlank dim) (HasDim dim) moved (λ c q. ap length q ∙ length-noughts W dim)
            blank)
          (inr blank) in
      elim (Bool-cases (D.lt precision (D.fabs (D.sub total prev)))) [
        | inl go ↦ (cs', total', rw (run, go) rest, same'' ∙ same', blank')
        | inr stop ↦ (moved, total, rw (run, stop) refl, same', blank)
      ]

  -- With at least one cluster `kMeans` returns, after at most 100 rounds, with the clusters that it
  -- got, in order, and with sums of 0.
  pub base_k_means-ok :
      (junk : W) (k dim : ℕ) (precision : W) (cs : List (BaseCluster W))
      (training : List (Example W))
      → 0 < length cs
      → All (HasDim dim) cs
      → (cs' : List (BaseCluster W)) × (total : W) × (base_k_means junk k dim precision cs training
          ≡ ok (cs', total))
        × (base_ids cs' ≡ base_ids cs)
        × All (IsBlank dim) cs'
  unfolding base_k_means
  base_k_means-ok junk k dim precision cs training some_cluster h =
      base_k_means_loop-ok junk precision dim training 100 cs _ some_cluster h (inl (omega arith))

  -- The examples have `dim` values.
  abbrev pub HaveDim : ℕ → List (Example W) → Type 0
  HaveDim dim = All λ e. length e.val ≡ dim

  init_clusters-ok :
      (k id dim : ℕ) (training : List (Example W))
      → k ≤ length training
      → HaveDim dim training
      → (cs : List (BaseCluster W)) × (init_clusters k id training ≡ ok cs)
        × (length cs ≡ k)
        × All (HasDim dim) cs
  unfolding init_clusters blank_cluster
  init_clusters-ok zero id dim training enough h = ([], refl, refl, tt)
  init_clusters-ok (suc k) id dim [] enough h = absurd (omega arith)
  init_clusters-ok (suc k) id dim (e ∷ training) enough (q, h) =
      let (cs, run, len, hs) = init_clusters-ok k (add32 id 1) dim training (omega arith) h in
      (
        blank_cluster id e.val e.val (map (λ x. D.mul x x) e.val) ∷ cs,
        rw run refl,
        ap suc len,
        (q, hs),
      )

  -- `kMeansInit` makes its clusters if the training set has enough examples and is said to have.
  pub base_init-ok :
      (k id dim told : ℕ) (training : List (Example W))
      → k ≤ told
      → k ≤ length training
      → HaveDim dim training
      → (cs : List (BaseCluster W)) × (base_init k training told id ≡ ok cs)
        × (length cs ≡ k)
        × All (HasDim dim) cs
  unfolding base_init
  base_init-ok k id dim told training said enough h =
      let (cs, run, len, hs) = init_clusters-ok k id dim training enough h in
      (cs, ground (arith, run), len, hs)

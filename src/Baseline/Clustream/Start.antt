-- ===== src/Baseline/Clustream/Start.antt =====
-- The micro clusters of CluStream before the stream.
use minas_flink.Prelude.{
  ℕ, zero, suc, ◌*◌, ◌≤◌, ◌<◌, ◌≡◌, refl, ap, ◌∙◌, sym, inl, inr, Bool, true, false, not, ◌||◌,
  List, [], ◌∷◌, map, arith, length, take, Bool-cases, length-map, All, u32,
}
use minas_flink.Double.{Double}
use minas_flink.Data.{Example, ok}
use minas_flink.Baseline.{BaseParams, BaseCluster, euclidean_distance}
use minas_flink.Baseline.KMeans.Total.{
  IsBlank, HaveDim, base_init-ok, base_k_means-ok, length-base_ids,
}
use minas_flink.Baseline.Clustream.{fill_radius, start_cluster, start_micro}

module _ {W : Type 0} ⦃D : Double W⦄ where
  -- A cluster that differs from `c` in the radius alone.
  record Widened (c c' : BaseCluster W) : Type 0 where
    pub linear : c'.ls_val_linear_sum ≡ c.ls_val_linear_sum
    pub matches : c'.n_matches ≡ c.n_matches
    pub center : c'.center ≡ c.center

  fill_radius-Widened :
      (left : ℕ) (found : Bool) (c : BaseCluster W) → Widened c (fill_radius left found c)
  unfolding fill_radius
  fill_radius-Widened zero found c = record { linear = refl; matches = refl; center = refl }
  fill_radius-Widened (suc left) found c =
      let dist = euclidean_distance c.center c.center in
      elim (Bool-cases (not found || D.lt dist c.radius)) [
        | inl closer ↦
            let w = fill_radius-Widened left (found || true) (record c { radius = dist }) in
            rw closer (record { linear = w.linear; matches = w.matches; center = w.center })
        | inr farther ↦ rw farther (fill_radius-Widened left (found || false) c)
      ]

  fill_radius-settled :
      (left : ℕ) (c : BaseCluster W) (d : W)
      → D.lt d d ≡ false
      → euclidean_distance c.center c.center ≡ d
      → c.radius ≡ d
      → (fill_radius left true c).radius ≡ d
  unfolding fill_radius
  fill_radius-settled zero c d irreflexive self same = same
  fill_radius-settled (suc left) c d irreflexive self same =
      let stays : D.lt (euclidean_distance c.center c.center) c.radius ≡ false =
        rw (self, same) irreflexive in
      rw (fill_radius, stays) (fill_radius-settled left c d irreflexive self same)

  -- The radius of a micro cluster at the start is the distance of its center to itself.
  start_cluster-radius :
      (q : ℕ) (c : BaseCluster W) (d : W)
      → D.lt d d ≡ false
      → euclidean_distance c.center c.center ≡ d
      → 0 < q
      → (start_cluster q c).radius ≡ d
  unfolding start_cluster fill_radius
  start_cluster-radius zero c d irreflexive self h = absurd (omega arith)
  start_cluster-radius (suc q) c d irreflexive self h =
      fill_radius-settled q
        (record c {
          n_matches = 1;
          time_linear_sum = D.of_nat 1;
          time_square_sum = D.of_nat 1;
          radius = euclidean_distance c.center c.center;
        })
        d irreflexive self self

  start_cluster-center : (q : ℕ) (c : BaseCluster W) → (start_cluster q c).center ≡ c.center
  unfolding start_cluster
  start_cluster-center q c =
      let w =
        fill_radius-Widened q false (record c {
          n_matches = 1;
          time_linear_sum = D.of_nat 1;
          time_square_sum = D.of_nat 1;
        }) in
      w.center

  -- A micro cluster at the start: sums of 0, but one match.
  pub record IsStarted (dim : ℕ) (c : BaseCluster W) : Type 0 where
    pub blank : IsBlank dim c
    pub one : c.n_matches ≡ 1
    pub narrow :
        D.lt D.nought D.nought ≡ false
        → euclidean_distance c.center c.center ≡ D.nought
        → c.radius ≡ D.nought

  start_clusters-IsStarted :
      (q dim : ℕ) (cs : List (BaseCluster W))
      → 0 < q
      → All (IsBlank dim) cs
      → All (IsStarted dim) (map (start_cluster q) cs)
  unfolding start_cluster
  start_clusters-IsStarted q dim [] some_q h = tt
  start_clusters-IsStarted q dim (c ∷ cs) some_q (h, hs) =
      let w =
        fill_radius-Widened q false (record c {
          n_matches = 1;
          time_linear_sum = D.of_nat 1;
          time_square_sum = D.of_nat 1;
        }) in
      (
        record {
          blank = w.linear ∙ h;
          one = w.matches;
          narrow = λ irreflexive self.
              start_cluster-radius q c D.nought irreflexive
                (ap (λ x. euclidean_distance x x) (sym (start_cluster-center q c)) ∙ self) some_q;
        },
        start_clusters-IsStarted q dim cs some_q hs,
      )

  pub start_micro-ok :
      (junk : W) (params : BaseParams W) (training : List (Example W)) (initial_id : ℕ)
      → 0 < params.max_micro_clusters
      → params.max_micro_clusters ≤ length training
      → params.max_micro_clusters
        ≤ u32 (params.max_micro_clusters * params.min_examples_per_cluster)
      → HaveDim params.dim training
      → (cs : List (BaseCluster W)) × (start_micro junk params training initial_id ≡ ok cs)
        × (length cs ≡ params.max_micro_clusters)
        × All (IsStarted params.dim) cs
  unfolding start_micro
  start_micro-ok junk params training initial_id some_cluster enough said dims =
      let q = params.max_micro_clusters in
      let (cs, run, len, hs) =
        base_init-ok q initial_id params.dim (u32 (q * params.min_examples_per_cluster)) training
          said enough dims in
      let (cs', total, run', same, blank) =
        base_k_means-ok junk q params.dim params.precision cs (take q training)
          (rw len some_cluster) hs in
      (
        map (start_cluster q) cs',
        rw (run, run') refl,
        length-map (start_cluster q) cs' ∙ length-base_ids cs cs' same ∙ len,
        start_clusters-IsStarted q params.dim cs' some_cluster blank,
      )

-- ===== src/Baseline/Minas/Count.antt =====
-- `clustering` of old-code/src/base/minas.c, with k-means, counts every example once.
use minas_flink.Prelude.{
  ℕ, suc, ◌+◌, ◌≤◌, ◌<◌, ◌≡◌, refl, ap, ap₂, ◌∙◌, false, List, [], ◌∷◌, map, some, arith, length,
  modify, u32, u32_mod, sum_of, sum_of-modify, le-sum_of, length-map, length-modify, get_elem?,
  get_elem?-in,
}
use minas_flink.Double.{Double}
use minas_flink.Data.{Example, ok}
use minas_flink.Clustering.{Measure}
use minas_flink.Baseline.{BaseParams, BaseCluster}
use minas_flink.Baseline.KMeans.Total.{
  HaveDim, nearest_val-found, base_init-ok, base_k_means-ok, length-base_ids,
}
use minas_flink.Baseline.Minas.{
  base_reset, base_measure_in, base_measure, base_finish, base_finish_all, first_clustering,
  base_clustering,
}

-- The matches that the clusters count, in all.
abbrev pub base_matches : {W : Type 0} → List (BaseCluster W) → ℕ
base_matches = sum_of λ c. c.n_matches

module _ {W : Type 0} ⦃D : Double W⦄ where
  base_reset-matches : (cs : List (BaseCluster W)) → base_matches (map base_reset cs) ≡ 0
  unfolding base_reset
  base_reset-matches [] = refl
  base_reset-matches (c ∷ cs) = omega (arith, base_reset-matches cs)

  base_finish-n_matches :
      (f : W) (ms : List (Measure W)) (k : ℕ) (c : BaseCluster W)
      → (base_finish f ms k c).n_matches ≡ c.n_matches
  unfolding base_finish
  base_finish-n_matches f ms k c = ground arith

  base_finish_all-matches :
      (f : W) (ms : List (Measure W)) (k : ℕ) (cs : List (BaseCluster W))
      → (length (base_finish_all f ms k cs) ≡ length cs)
        × (base_matches (base_finish_all f ms k cs) ≡ base_matches cs)
  unfolding base_finish_all
  base_finish_all-matches f ms k [] = (refl, refl)
  base_finish_all-matches f ms k (c ∷ cs) =
      let (e, e') = base_finish_all-matches f ms (k + 1) cs in
      (ap suc e, ap₂ ◌+◌ (base_finish-n_matches f ms k c) e')

  -- One more match for one cluster, as long as the counter does not wrap.
  base_matches-modify :
      (val : List W) (dist : W) (cs : List (BaseCluster W)) (i : ℕ) {c : BaseCluster W}
      → get_elem? cs i ≡ some c
      → base_matches cs + 1 < u32_mod
      → base_matches (modify cs i (base_measure_in val dist)) ≡ base_matches cs + 1
  unfolding base_measure_in
  base_matches-modify val dist cs i {c} at h =
      let g = base_measure_in val dist in
      omega (
        arith,
        sum_of-modify (λ (x : BaseCluster W). x.n_matches) cs i g at,
        le-sum_of (λ (x : BaseCluster W). x.n_matches) cs i at,
      )

  base_measure-ok :
      (junk : W) (training : List (Example W)) (cs : List (BaseCluster W))
      → 0 < length cs
      → base_matches cs + length training < u32_mod
      → (cs' : List (BaseCluster W)) × (ms : List (Measure W)) × (base_measure junk training cs
          ≡ ok (cs', ms))
        × (length cs' ≡ length cs)
        × (base_matches cs' ≡ base_matches cs + length training)
  unfolding base_measure
  base_measure-ok junk [] cs h small = (cs, [], refl, refl, omega arith)
  base_measure-ok junk (e ∷ training) cs h small =
      let (i, dist, found, lt) = nearest_val-found junk cs e.val h in
      let (c, at) = get_elem?-in cs i lt in
      let grown = modify cs i (base_measure_in e.val dist) in
      let len : length grown ≡ length cs = length-modify cs i (base_measure_in e.val dist) in
      let more = base_matches-modify e.val dist cs i at (omega arith) in
      let (cs', ms, run, e₁, e₂) = base_measure-ok junk training grown (rw len h) (omega arith) in
      (
        cs',
        record { distance = dist; matched = i } ∷ ms,
        rw (found, run) refl,
        e₁ ∙ len,
        omega arith,
      )

  -- Without CluStream, with clusters to make and at least as many examples, of `dim` values, but fewer
  -- than 2^32, `clustering` makes `k` clusters whose counters add up to the number of the examples.
  pub base_clustering-matches :
      (junk : W) (params : BaseParams W) (training : List (Example W)) (initial_id : ℕ)
      → params.use_clu_stream ≡ false
      → 0 < params.k
      → params.k ≤ length training
      → length training < u32_mod
      → HaveDim params.dim training
      → (cs : List (BaseCluster W)) × (base_clustering junk params training initial_id ≡ ok cs)
        × (length cs ≡ params.k)
        × (base_matches cs ≡ length training)
  unfolding base_clustering first_clustering
  base_clustering-matches junk params training initial_id plain pos enough small dims =
      let (cs₀, run₀, len₀, dims₀) =
        base_init-ok params.k initial_id params.dim (u32 (length training)) training (omega arith)
          enough dims in
      let (cs₁, total, run₁, same, blank) =
        base_k_means-ok junk params.k params.dim params.precision cs₀ training (rw len₀ pos)
          dims₀ in
      let len₁ : length (map base_reset cs₁) ≡ params.k =
        length-map base_reset cs₁ ∙ length-base_ids cs₀ cs₁ same ∙ len₀ in
      let (cs₂, ms, run₂, len₂, sum₂) =
        base_measure-ok junk training (map base_reset cs₁) (rw len₁ pos)
          (rw base_reset-matches (omega arith)) in
      let (len₃, sum₃) = base_finish_all-matches params.radius_f ms 0 cs₂ in
      (
        base_finish_all params.radius_f ms 0 cs₂,
        rw (plain, run₀, run₁, run₂) refl,
        len₃ ∙ len₂ ∙ len₁,
        sum₃ ∙ sum₂ ∙ rw base_reset-matches (omega arith),
      )

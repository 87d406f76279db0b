-- ===== src/Baseline/Clustream/Stream.antt =====
-- CluStream returns its macro clusters.
use minas_flink.Prelude.{
  ℕ, zero, suc, ◌+◌, ◌*◌, ◌≤◌, ◌<◌, ◌≡◌, refl, ap, ◌∙◌, sym, inl, inr, List, [], ◌∷◌, map, arith,
  length, modify, Bool-cases, length-map, length-modify, All, All-mono, All-modify, u32, add32,
}
use minas_flink.Double.{Double}
use minas_flink.Data.{Example, ok}
use minas_flink.Baseline.{BaseParams, BaseCluster, euclidean_distance}
use minas_flink.Baseline.KMeans.{blank_cluster}
use minas_flink.Baseline.KMeans.Total.{length-noughts, HasDim, HaveDim, base_k_means-ok, base_ids}
use minas_flink.Baseline.Clustream.{
  Micro, absorb, consume_one, consume_all, mean_of, macro_clusters, pseudo_examples, clu_stream,
}
use minas_flink.Baseline.Clustream.Search.{pick-first_least}
use minas_flink.Baseline.Clustream.Start.{IsStarted, start_micro-ok}
use minas_flink.Baseline.Clustream.Room.{IsMicro, absorb-HasDim, add_pattern-ok}

-- The ids from `id` on.
unfoldable pub ids_from : ℕ → ℕ → List ℕ
ids_from zero id = []
ids_from (suc k) id = id ∷ ids_from k (add32 id 1)

length-ids_from : (k id : ℕ) → length (ids_from k id) ≡ k
unfolding ids_from
length-ids_from zero id = refl
length-ids_from (suc k) id = ap suc (length-ids_from k _)

module _ {W : Type 0} ⦃D : Double W⦄ where
  consume_one-ok :
      (params : BaseParams W) (dim q i : ℕ) (val : List W) (m : Micro W)
      → 1 < q
      → length val ≡ dim
      → IsMicro dim q m.clusters
      → (m' : Micro W) × (consume_one params i val m ≡ ok m') × IsMicro dim q m'.clusters
  unfolding consume_one
  consume_one-ok params dim q i val m many len v =
      let (j, c, at, picked) =
        pick-first_least (λ x. euclidean_distance x.center val) m.clusters (omega (arith, v.len)) in
      elim (Bool-cases (D.lt c.radius (euclidean_distance c.center val))) [
        | inl farther ↦
            let f = absorb params.radius_f i val in
            (
              record m { clusters = modify m.clusters j f },
              rw (picked, farther) refl,
              record {
                len = length-modify m.clusters j f ∙ v.len;
                dims =
                    All-modify (HasDim dim) m.clusters j f (absorb-HasDim dim params.radius_f i val)
                      v.dims;
              },
            )
        | inr nearer ↦
            let (m', run, v') = add_pattern-ok dim params q val m many len v in
            (m', rw (picked, nearer) run, v')
      ]

  consume_all-ok :
      (params : BaseParams W) (dim q i : ℕ) (training : List (Example W)) (m : Micro W)
      → 1 < q
      → HaveDim dim training
      → IsMicro dim q m.clusters
      → (m' : Micro W) × (consume_all params i training m ≡ ok m') × IsMicro dim q m'.clusters
  unfolding consume_all
  consume_all-ok params dim q i [] m many dims v = (m, refl, v)
  consume_all-ok params dim q i (e ∷ training) m many (len, dims) v =
      let (m₁, run, v₁) = consume_one-ok params dim q i e.val m many len v in
      let (m', run', v') = consume_all-ok params dim q (i + 1) training m₁ many dims v₁ in
      (m', rw run run', v')

  macro_clusters-ok :
      (dim k id : ℕ) (cs : List (BaseCluster W))
      → k ≤ length cs
      → All (HasDim dim) cs
      → (cs' : List (BaseCluster W)) × (macro_clusters k id cs ≡ ok cs')
        × (base_ids cs' ≡ ids_from k id)
        × All (HasDim dim) cs'
  unfolding macro_clusters blank_cluster ids_from
  macro_clusters-ok dim zero id cs enough h = ([], refl, refl, tt)
  macro_clusters-ok dim (suc k) id [] enough h = absurd (omega arith)
  macro_clusters-ok dim (suc k) id (c ∷ cs) enough (q, h) =
      let (cs', run, same, h') = macro_clusters-ok dim k (add32 id 1) cs (omega arith) h in
      let sums = map (λ s. D.nought) c.ls_val_linear_sum in
      (
        blank_cluster id (mean_of c) sums sums ∷ cs',
        rw run refl,
        ap (λ ys. id ∷ ys) same,
        (length-map (λ s. D.nought) c.ls_val_linear_sum ∙ q, h'),
      )

  -- With at least two micro clusters, not more than examples in the training set, nor than the number that
  -- `kMeansInit` is told, with at least one macro cluster and not more than micro clusters, and with
  -- examples of `dim` values, CluStream returns `k` clusters with the ids from the given one on.
  pub clu_stream-ok :
      (junk : W) (params : BaseParams W) (training : List (Example W)) (initial_id : ℕ)
      → 1 < params.max_micro_clusters
      → params.max_micro_clusters ≤ length training
      → params.max_micro_clusters
        ≤ u32 (params.max_micro_clusters * params.min_examples_per_cluster)
      → 0 < params.k
      → params.k ≤ params.max_micro_clusters
      → HaveDim params.dim training
      → (cs : List (BaseCluster W)) × (clu_stream junk params training initial_id ≡ ok cs)
        × (base_ids cs ≡ ids_from params.k initial_id)
  unfolding clu_stream
  clu_stream-ok junk params training initial_id many enough said some_k fewer dims =
      let q = params.max_micro_clusters in
      let (micro, run, len, started) =
        start_micro-ok junk params training initial_id (omega arith) enough said dims in
      let (m, run', v) =
        consume_all-ok params params.dim q 0 training (record { clusters = micro; next_id = q })
          many dims
          (record {
            len = len;
            dims =
                All-mono (IsStarted params.dim) (HasDim params.dim) micro
                  (λ c s. ap length s.blank ∙ length-noughts W params.dim) started;
          }) in
      let (macro, run'', same, dims') =
        macro_clusters-ok params.dim params.k initial_id m.clusters (omega (arith, v.len)) v.dims in
      let many_macro : length macro ≡ params.k =
        sym (length-map (λ c. c.id) macro) ∙ ap length same ∙ length-ids_from params.k initial_id in
      let (cs, total, run₃, same', blank) =
        base_k_means-ok junk params.k params.dim params.precision macro
          (pseudo_examples 0 m.clusters) (rw many_macro some_k) dims' in
      (cs, rw (run, run', run'', run₃) refl, same' ∙ same)

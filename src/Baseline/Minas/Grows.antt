-- ===== src/Baseline/Minas/Grows.antt =====
-- `noveltyDetection` of old-code/src/base/minas.c appends the clusters that are large enough.
use minas_flink.Prelude.{
  ℕ, ◌+◌, ◌*◌, ◌≤◌, ◌<◌, ◌≡◌, refl, ap, ◌∙◌, sym, Bool, not, false, List, [], ◌∷◌, ◌++◌, some,
  arith, length, ltb, u32, u32_mod, count_if, get_elem?, get_elem?-in, length-append, Bool-cases,
  inl, inr,
}
use mathlib.Core.List.{append-nil, append_assoc}
use native.Mathlib.Decide.{ℕ_discrete}
use minas_flink.Double.{Double}
use minas_flink.Data.{Example, ok}
use minas_flink.Baseline.{BaseParams, BaseCluster}
use minas_flink.Baseline.KMeans.Total.{HaveDim, nearest_val-found}
use minas_flink.Baseline.Minas.{
  BaseModel, base_append, base_label, base_detect, base_novelty, base_advance,
}
use minas_flink.Baseline.Minas.Count.{base_matches, base_clustering-matches}

-- Whether `noveltyDetection` takes a new cluster into the model.
abbrev pub is_base_large : {W : Type 0} → BaseParams W → BaseCluster W → Bool
is_base_large params c = not (ltb c.n_matches params.min_examples_per_cluster)

-- If no cluster is large, the clusters count few matches.
few_base_matches :
    {W : Type 0} (params : BaseParams W) (cs : List (BaseCluster W))
    → count_if (is_base_large params) cs ≡ 0
    → base_matches cs + length cs ≤ params.min_examples_per_cluster * length cs
few_base_matches params [] h = omega arith
few_base_matches params (c ∷ cs) h = ground (arith, few_base_matches params cs)

-- So if they count enough, one is large.
some_base_large :
    {W : Type 0} (params : BaseParams W) (cs : List (BaseCluster W))
    → 0 < length cs
    → params.min_examples_per_cluster * length cs ≤ base_matches cs
    → 0 < count_if (is_base_large params) cs
some_base_large params cs h full = elim (ℕ_discrete (count_if (is_base_large params) cs) 0) [
  | yes e ↦ absurd (omega (arith, few_base_matches params cs e))
  | no ne ↦ omega arith
]

module _ {W : Type 0} ⦃D : Double W⦄ (junk : W) (params : BaseParams W) where
  base_label-ok :
      (m : BaseModel W) (c near : BaseCluster W) (i : ℕ) (min_dist : W)
      → get_elem? m.clusters i ≡ some near
      → (m' : BaseModel W) × (c' : BaseCluster W) × (base_label params m c (some i, min_dist)
          ≡ ok m')
        × (m'.clusters ≡ m.clusters ++ (c' ∷ []))
  unfolding base_label base_append
  base_label-ok m c near i min_dist at =
      elim (Bool-cases (D.le min_dist (D.mul params.novelty_f near.distance_std_dev))) [
        | inl close ↦ (base_append m c near.label, _, rw (at, base_label, close) refl, refl)
        | inr far ↦ (
          record (base_append m c m.next_label) { next_label = base_advance 255 m.next_label },
          _,
          rw (at, base_label, far) refl,
          refl,
        )
      ]

  pub base_detect-ok :
      (m : BaseModel W) (cs : List (BaseCluster W))
      → 0 < length m.clusters
      → (m' : BaseModel W) × (new : List (BaseCluster W)) × (base_detect junk params m cs ≡ ok m')
        × (m'.clusters ≡ m.clusters ++ new)
        × (length new ≡ count_if (is_base_large params) cs)
  unfolding base_detect
  base_detect-ok m [] h = (m, [], refl, sym (append-nil m.clusters), refl)
  base_detect-ok m (c ∷ cs) h =
      elim (Bool-cases (ltb c.n_matches params.min_examples_per_cluster)) [
        | inl few ↦
            let (m', new, run, appended, len) = base_detect-ok m cs h in
            (m', new, rw few run, appended, rw few (omega (arith, len)))
        | inr many ↦
            let (i, dist, found, lt) = nearest_val-found junk m.clusters c.center h in
            let (near, at) = get_elem?-in m.clusters i lt in
            let (m₁, c', run₁, appended₁) = base_label-ok m c near i dist at in
            let (m', new, run, appended, len) =
              base_detect-ok m₁ cs (rw (appended₁, length-append) (omega arith)) in
            (
              m',
              c' ∷ new,
              rw (many, found, run₁) run,
              appended ∙ ap (λ l. l ++ new) appended₁ ∙ append_assoc m.clusters (c' ∷ []) new,
              rw many (omega (arith, len)),
            )
      ]

  -- Without CluStream, on a model that is not empty, with at least `k` and `k * minExamplesPerCluster`
  -- unknown examples of `dim` values, but fewer than 2^32, it appends at least one cluster.
  pub base_novelty-ok :
      (m : BaseModel W) (unknowns : List (Example W))
      → params.use_clu_stream ≡ false
      → 0 < length m.clusters
      → 0 < params.k
      → params.k ≤ length unknowns
      → params.min_examples_per_cluster * params.k ≤ length unknowns
      → length unknowns < u32_mod
      → HaveDim params.dim unknowns
      → (m' : BaseModel W) × (new : List (BaseCluster W)) × (base_novelty junk params m unknowns
          ≡ ok m')
        × (m'.clusters ≡ m.clusters ++ new)
        × (0 < length new)
  unfolding base_novelty
  base_novelty-ok m unknowns plain some_model pos enough full small dims =
      let (cs, run, len, count) =
        base_clustering-matches junk params unknowns (u32 (length m.clusters)) plain pos enough
          small dims in
      let (m', new, run', appended, grown) = base_detect-ok m cs some_model in
      let large = some_base_large params cs (rw len pos) (rw (len, count) full) in
      (m', new, rw run run', appended, rw grown large)

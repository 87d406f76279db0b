-- ===== src/Clustering/Count.antt =====
-- `clustering` gives every example of the training set to exactly one cluster.
use minas_flink.Prelude.{
  ℕ, suc, ◌+◌, ◌≤◌, ◌<◌, ◌≡◌, refl, ap, ap₂, ◌∙◌, List, [], ◌∷◌, map, some, arith, length, modify,
  u32_mod, sum_of, sum_of-modify, le-sum_of, length-map, length-modify, get_elem?,
}
use minas_flink.Double.{Double, IsIeee}
use minas_flink.Data.{Example, Cluster, MinasParams, ok}
use minas_flink.Nearest.Reference.{distance_to}
use minas_flink.KMeans.Search.{nearest_of-found}
use minas_flink.KMeans.Total.{k_means_init-ok, k_means-ok, length_of_ids}
use minas_flink.Clustering.{Measure, reset, measure_in, measure, finish, finish_all, clustering}

-- The matches that the clusters count, in all.
abbrev pub matches : {W : Type 0} → List (Cluster W) → ℕ
matches = sum_of λ c. c.n_matches

module _ {W : Type 0} ⦃D : Double W⦄ where
  matches-reset : (cs : List (Cluster W)) → matches (map reset cs) ≡ 0
  unfolding reset
  matches-reset [] = refl
  matches-reset (c ∷ cs) = omega (arith, matches-reset cs)

  finish-n_matches :
      (f : W) (ms : List (Measure W)) (k : ℕ) (c : Cluster W)
      → (finish f ms k c).n_matches ≡ c.n_matches
  unfolding finish
  finish-n_matches f ms k c = ground arith

  finish_all-matches :
      (f : W) (ms : List (Measure W)) (k : ℕ) (cs : List (Cluster W))
      → (length (finish_all f ms k cs) ≡ length cs) × (matches (finish_all f ms k cs) ≡ matches cs)
  unfolding finish_all
  finish_all-matches f ms k [] = (refl, refl)
  finish_all-matches f ms k (c ∷ cs) =
      let (e, e') = finish_all-matches f ms (k + 1) cs in
      (ap suc e, ap₂ ◌+◌ (finish-n_matches f ms k c) e')

  -- One more match for one cluster, as long as the counter does not wrap.
  matches-modify :
      (val : List W) (dist : W) (cs : List (Cluster W)) (i : ℕ) {c : Cluster W}
      → get_elem? cs i ≡ some c
      → matches cs + 1 < u32_mod
      → matches (modify cs i (measure_in val dist)) ≡ matches cs + 1
  unfolding measure_in
  matches-modify val dist cs i {c} at h =
      let g = measure_in val dist in
      omega (
        arith,
        sum_of-modify (λ (x : Cluster W). x.n_matches) cs i g at,
        le-sum_of (λ (x : Cluster W). x.n_matches) cs i at,
      )

module _ {W : Type 0} ⦃D : Double W⦄ (ieee : IsIeee W) (junk : W) where
  measure-ok :
      (training : List (Example W)) (cs : List (Cluster W))
      → 0 < length cs
      → matches cs + length training < u32_mod
      → (cs' : List (Cluster W)) × (ms : List (Measure W)) × (measure junk training cs
          ≡ ok (cs', ms))
        × (length cs' ≡ length cs)
        × (matches cs' ≡ matches cs + length training)
  unfolding measure
  measure-ok [] cs h small = (cs, [], refl, refl, omega arith)
  measure-ok (e ∷ training) cs h small =
      let (i, c, found, at, _) = nearest_of-found ieee junk cs e.val h in
      let dist = D.sqrt (distance_to e.val c) in
      let grown = modify cs i (measure_in e.val dist) in
      let len : length grown ≡ length cs = length-modify cs i (measure_in e.val dist) in
      let more = matches-modify e.val dist cs i at (omega arith) in
      let (cs', ms, run, e₁, e₂) = measure-ok training grown (rw len h) (omega arith) in
      (cs', record { distance = dist; matched = i } ∷ ms, rw (found, run), e₁ ∙ len, omega arith)

  -- If there are clusters to make, and at least as many examples, but fewer than 2^32, then
  -- `clustering` returns: it makes `k` clusters, and their match counters add up to the number of
  -- the examples, if the operations on doubles obey the laws of `IsIeee`.
  pub clustering-matches :
      (params : MinasParams W) (training : List (Example W)) (initial_id : ℕ)
      → 0 < params.k
      → params.k ≤ length training
      → length training < u32_mod
      → (clusters : List (Cluster W)) × (clustering junk params training initial_id ≡ ok clusters)
        × (length clusters ≡ params.k)
        × (matches clusters ≡ length training)
  unfolding clustering
  clustering-matches params training initial_id pos enough small =
      let (cs₀, e₀, len₀) = k_means_init-ok params.k initial_id training enough in
      let (cs₁, total, e₁, same) =
        k_means-ok ieee junk params.k params.dim params.precision cs₀ training (rw len₀ pos) in
      let len₁ : length (map reset cs₁) ≡ params.k =
        length-map reset cs₁ ∙ length_of_ids cs₀ cs₁ same ∙ len₀ in
      let (cs₂, ms, e₂, len₂, sum₂) =
        measure-ok training (map reset cs₁) (rw len₁ pos) (rw matches-reset (omega arith)) in
      let (len₃, sum₃) = finish_all-matches params.radius_f ms 0 cs₂ in
      (
        finish_all params.radius_f ms 0 cs₂,
        rw (e₀, e₁, e₂),
        len₃ ∙ len₂ ∙ len₁,
        sum₃ ∙ sum₂ ∙ rw matches-reset (omega arith),
      )

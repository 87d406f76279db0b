-- ===== src/KMeans/Total.antt =====
-- `kMeans` ends, returns as many clusters as it gets, and leaves their ids alone.
use minas_flink.Prelude.{
  ℕ, zero, suc, ◌≤◌, ◌<◌, ◌≡◌, refl, ap, ◌∙◌, sym, inl, inr, List, [], ◌∷◌, map, arith, length,
  modify, Bool-cases, map-modify, map-map_same, length-map, length-modify,
}
use minas_flink.Double.{Double, IsIeee}
use minas_flink.Data.{Example, Cluster, ok}
use minas_flink.Nearest.Reference.{distance_to}
use minas_flink.KMeans.{
  first_clusters, k_means_init, take_in, assign, recenter, k_means_loop, k_means,
}
use minas_flink.KMeans.Search.{nearest_of-found}

-- The ids of the clusters, in order.
abbrev pub ids : {W : Type 0} → List (Cluster W) → List ℕ
ids = map λ c. c.id

pub length_of_ids :
    {W : Type 0} (cs cs' : List (Cluster W)) → ids cs' ≡ ids cs → length cs' ≡ length cs
length_of_ids cs cs' e = sym (length-map (λ c. c.id) cs') ∙ ap length e ∙ length-map (λ c. c.id) cs

module _ {W : Type 0} ⦃D : Double W⦄ where
  length-first_clusters :
      (k id : ℕ) (training : List (Example W))
      → k ≤ length training
      → length (first_clusters k id training) ≡ k
  unfolding first_clusters
  length-first_clusters zero id training h = refl
  length-first_clusters (suc k) id [] h = absurd (omega arith)
  length-first_clusters (suc k) id (e ∷ training) h =
      ap suc (length-first_clusters k _ training (omega arith))

  pub k_means_init-ok :
      (k id : ℕ) (training : List (Example W))
      → k ≤ length training
      → (cs : List (Cluster W)) × (k_means_init k training id ≡ ok cs) × (length cs ≡ k)
  unfolding k_means_init
  k_means_init-ok k id training h =
      (first_clusters k id training, ground arith, length-first_clusters k id training h)

module _ {W : Type 0} ⦃D : Double W⦄ (ieee : IsIeee W) (junk : W) where
  assign-ok :
      (training : List (Example W)) (cs : List (Cluster W)) (total : W)
      → 0 < length cs
      → (cs' : List (Cluster W)) × (total' : W) × (assign junk training cs total ≡ ok (cs', total'))
        × (ids cs' ≡ ids cs)
  unfolding assign take_in
  assign-ok [] cs total h = (cs, total, refl, refl)
  assign-ok (e ∷ training) cs total h =
      let (i, c, found, _, _) = nearest_of-found ieee junk cs e.val h in
      let grown = modify cs i (take_in e.val) in
      let (cs', total', run, same) =
        assign-ok training grown (D.add total (D.sqrt (distance_to e.val c)))
          (rw length-modify h) in
      (cs', total', rw found run, same ∙ map-modify _ (take_in e.val) cs i (λ c. refl))

  k_means_loop-ok :
      (precision : W) (training : List (Example W)) (left : ℕ) (cs : List (Cluster W)) (prev : W)
      → 0 < length cs
      → (cs' : List (Cluster W)) × (total : W) × (k_means_loop junk precision training left cs prev
          ≡ ok (cs', total))
        × (ids cs' ≡ ids cs)
  unfolding k_means_loop recenter
  k_means_loop-ok precision training zero cs prev h = (cs, prev, refl, refl)
  k_means_loop-ok precision training (suc left) cs prev h =
      let (cs₁, total, run, same) = assign-ok training cs D.nought h in
      let moved = map recenter cs₁ in
      let same' : ids moved ≡ ids cs = map-map_same _ recenter cs₁ (λ c. refl) ∙ same in
      let (cs', total', rest, same'') =
        k_means_loop-ok precision training left moved total (rw (length_of_ids cs moved same') h) in
      elim (Bool-cases (D.lt precision (D.fabs (D.sub total prev)))) [
        | inl on ↦ (cs', total', rw (run, on) rest, same'' ∙ same')
        | inr stop ↦ (moved, total, rw (run, stop), same')
      ]

  -- With at least one cluster `kMeans` returns, after at most 100 rounds, with the clusters that it
  -- got, in order.
  pub k_means-ok :
      (k dim : ℕ) (precision : W) (cs : List (Cluster W)) (training : List (Example W))
      → 0 < length cs
      → (cs' : List (Cluster W)) × (total : W) × (k_means junk k dim precision cs training
          ≡ ok (cs', total))
        × (ids cs' ≡ ids cs)
  unfolding k_means
  k_means-ok k dim precision cs training h = k_means_loop-ok precision training 100 cs _ h

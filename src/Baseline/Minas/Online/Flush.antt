-- ===== src/Baseline/Minas/Online/Flush.antt =====
-- The final flush of `minasOnline`.
use minas_flink.Prelude.{◌<◌, ◌≡◌, refl, true, List, [], ◌∷◌, drop, arith, length, ltb, u32, All}
use minas_flink.Double.{Double}
use minas_flink.Data.{Example, fail, ok, no_nearest_cluster}
use minas_flink.Baseline.{BaseParams, BaseCluster, nearest_val, scan_val}
use minas_flink.Baseline.Minas.{BaseModel, base_clustering, base_detect, base_novelty}
use minas_flink.Baseline.Minas.Online.{OnlineState, taken_by, compress, detect_online, flush_online}

drop_all : {A : Type 0} (xs : List A) → drop (length xs) xs ≡ []
drop_all [] = refl
drop_all (x ∷ xs) = drop_all xs

module _ {W : Type 0} ⦃D : Double W⦄ (junk : W) (params : BaseParams W) where
  -- Each cluster has too few examples.
  abbrev pub AreSmall : List (BaseCluster W) → Type 0
  AreSmall = All λ c. ltb c.n_matches params.min_examples_per_cluster ≡ true

  base_detect-AreSmall :
      (m : BaseModel W) (cs : List (BaseCluster W))
      → AreSmall cs
      → base_detect junk params m cs ≡ ok m
  unfolding base_detect
  base_detect-AreSmall m [] h = refl
  base_detect-AreSmall m (c ∷ cs) (few, h) = rw few (base_detect-AreSmall m cs h)

  compress-none :
      (unknowns : List (Example W))
      → 0 < length unknowns
      → compress junk true [] unknowns ≡ fail no_nearest_cluster
  unfolding compress taken_by nearest_val scan_val
  compress-none [] h = absurd (omega arith)
  compress-none (e ∷ unknowns) h = refl

  -- If more than `k` unknown examples are left at the end, and each cluster that `clustering` makes of
  -- them has fewer than `minExamplesPerCluster`, then an assertion of the final flush fails.
  pub flush_online-fails :
      (s : OnlineState W) (cs : List (BaseCluster W))
      → params.k < length s.unknowns
      → base_clustering junk params s.unknowns (u32 (length s.model.clusters)) ≡ ok cs
      → AreSmall cs
      → flush_online junk params s ≡ fail no_nearest_cluster
  unfolding flush_online detect_online base_novelty
  flush_online-fails s cs many run small =
      let flushed : ltb params.k (length s.unknowns) ≡ true = ground (arith, many) in
      rw
        (
          flushed,
          run,
          base_detect-AreSmall s.model cs small,
          drop_all s.model.clusters,
          compress-none s.unknowns (omega (arith, many)),
        )
        refl

-- ===== src/Novelty/Grows.antt =====
-- `noveltyDetection` on enough unknown examples finds at least one cluster, and never fails.
use minas_flink.Prelude.{
  ℕ, suc, ◌+◌, ◌*◌, ◌≤◌, ◌<◌, ◌≡◌, refl, ap, ◌∙◌, sym, Bool, not, List, [], ◌∷◌, ◌++◌, some, arith,
  length, ltb, u32, u32_mod, count_if, filter_if, get_elem?, length-append, length-filter_if,
  count_if-le, Bool-cases, inl, inr,
}
use mathlib.Core.List.{append-nil, append_assoc}
use native.Mathlib.Decide.{ℕ_discrete}
use minas_flink.Double.{Double, IsIeee}
use minas_flink.Data.{Example, Cluster, Model, MinasParams, size, ok}
use minas_flink.Nearest.Reference.{distance_to}
use minas_flink.Nearest.Minimal.{nearest-found_all}
use minas_flink.Clustering.{clustering}
use minas_flink.Clustering.Count.{matches, clustering-matches}
use minas_flink.Novelty.{
  Detection, append_cluster, extend, found_novelty, label_cluster, detect_one, detect,
  novelty_detection,
}

-- Whether `noveltyDetection` takes a new cluster into the model.
abbrev pub is_large : {W : Type 0} → MinasParams W → Cluster W → Bool
is_large params c = not (ltb c.n_matches params.min_examples_per_cluster)

-- If no cluster is large, the clusters count few matches.
few_matches :
    {W : Type 0} (params : MinasParams W) (cs : List (Cluster W))
    → count_if (is_large params) cs ≡ 0
    → matches cs + length cs ≤ params.min_examples_per_cluster * length cs
few_matches params [] h = omega arith
few_matches params (c ∷ cs) h = ground (arith, few_matches params cs)

-- So if they count enough, one is large.
some_large :
    {W : Type 0} (params : MinasParams W) (cs : List (Cluster W))
    → 0 < length cs
    → params.min_examples_per_cluster * length cs ≤ matches cs
    → 0 < count_if (is_large params) cs
some_large params cs h full = elim (ℕ_discrete (count_if (is_large params) cs) 0) [
  | yes e ↦ absurd (omega (arith, few_matches params cs e))
  | no ne ↦ omega arith
]

-- The new clusters as they stand in the model from the index `n` on: the id is the index, and only the
-- label and the extended cluster may differ besides.
abbrev pub AreAdopted : {W : Type 0} → ℕ → List (Cluster W) → List (Cluster W) → Type 0
AreAdopted n [] [] = Unit
AreAdopted n (c ∷ cs) (c' ∷ cs') =
    (c' ≡ record c { id = n; label = c'.label; extension_of = c'.extension_of })
    × AreAdopted (suc n) cs cs'
AreAdopted n _ _ = ⊥

length-AreAdopted :
    {W : Type 0} (n : ℕ) (cs cs' : List (Cluster W)) → AreAdopted n cs cs' → length cs' ≡ length cs
length-AreAdopted n [] [] a = refl
length-AreAdopted n [] (c' ∷ cs') a = absurd a
length-AreAdopted n (c ∷ cs) [] a = absurd a
length-AreAdopted n (c ∷ cs) (c' ∷ cs') a = ap suc (length-AreAdopted (suc n) cs cs' a.1)

module _ {W : Type 0} ⦃D : Double W⦄ (ieee : IsIeee W) (junk : W) (params : MinasParams W) where
  -- A large cluster takes the last place of the model.
  label_cluster-ok :
      (d : Detection W) (c near : Cluster W) (i : ℕ) (min_dist : W)
      → get_elem? d.model.clusters i ≡ some near
      → d.extensions + d.novelties + 1 < u32_mod
      → (d' : Detection W) × (c' : Cluster W) × (label_cluster params d c (some i, min_dist)
          ≡ ok d')
        × (d'.model.clusters ≡ d.model.clusters ++ (c' ∷ []))
        × (c' ≡ record c { id = size d.model; label = c'.label; extension_of = c'.extension_of })
        × (d'.extensions + d'.novelties ≡ d.extensions + d.novelties + 1)
  unfolding label_cluster extend found_novelty append_cluster
  label_cluster-ok d c near i min_dist at small =
      elim (Bool-cases (D.le min_dist (D.mul params.novelty_f near.distance_std_dev))) [
        | inl close ↦ (extend d c near, _, rw (at, label_cluster, close), refl, refl, omega arith)
        | inr far ↦ (found_novelty d c, _, rw (at, label_cluster, far), refl, refl, omega arith)
      ]

  -- What the loop over the new clusters has done when it ends.
  pub record IsDetected (d : Detection W) (cs : List (Cluster W)) (d' : Detection W)
      (new : List (Cluster W)) : Type 0 where
    pub appended : d'.model.clusters ≡ d.model.clusters ++ new
    pub adopted : AreAdopted (size d.model) (filter_if (is_large params) cs) new
    pub counted : d'.extensions + d'.novelties ≡ d.extensions + d.novelties + length new

  detect-ok :
      (d : Detection W) (cs : List (Cluster W))
      → 0 < size d.model
      → d.extensions + d.novelties + length cs < u32_mod
      → (d' : Detection W) × (new : List (Cluster W)) × (detect junk params d cs ≡ ok d')
        × IsDetected d cs d' new
  unfolding detect detect_one
  detect-ok d [] h small = (
    d,
    [],
    refl,
    record { appended = sym (append-nil d.model.clusters); adopted = tt; counted = omega arith },
  )
  detect-ok d (c ∷ cs) h small =
      elim (Bool-cases (ltb c.n_matches params.min_examples_per_cluster)) [
        | inl few ↦
            let (d', new, run, done) = detect-ok d cs h (omega arith) in
            (
              d',
              new,
              rw few run,
              record {
                appended = done.appended;
                adopted = rw few done.adopted;
                counted = done.counted;
              },
            )
        | inr many ↦
            let (i, near, found, at, _) = nearest-found_all ieee junk d.model.clusters c.center h in
            let (d₁, c', run₁, appended₁, adopted₁, counted₁) =
              label_cluster-ok d c near i (D.sqrt (distance_to c.center near)) at (omega arith) in
            let size₁ : size d₁.model ≡ suc (size d.model) =
              ap length appended₁ ∙ length-append d.model.clusters (c' ∷ []) ∙ omega arith in
            let (d', new, run, done) = detect-ok d₁ cs (omega arith) (omega arith) in
            (
              d',
              c' ∷ new,
              rw (many, found, run₁) run,
              record {
                appended =
                    done.appended
                    ∙ ap (λ l. l ++ new) appended₁
                    ∙ append_assoc d.model.clusters (c' ∷ []) new;
                adopted = rw many (adopted₁, rw size₁ at done.adopted);
                counted = omega (arith, done.counted);
              },
            )
      ]

  -- If the model is not empty, `k` is not 0, there are at least `k` and at least `k *
  -- minExamplesPerCluster` unknown examples, but fewer than 2^32, and the operations on doubles
  -- obey the laws of `IsIeee`, then `noveltyDetection` returns. It appends to the model the
  -- clusters of `clustering` that are large enough, in order, with the index as the id of each, it
  -- returns the number of the appended clusters, and that number is not 0 and at most `k`.
  pub novelty_detection-grows :
      (model : Model W) (next_label : ℕ) (unknowns : List (Example W))
      → 0 < size model
      → 0 < params.k
      → params.k ≤ length unknowns
      → params.k * params.min_examples_per_cluster ≤ length unknowns
      → length unknowns < u32_mod
      → (d : Detection W) × (clusters new : List (Cluster W)) × (clustering junk params unknowns
            (u32 (size model + 1))
          ≡ ok clusters)
        × (novelty_detection junk params model next_label unknowns ≡ ok d)
        × (d.model.clusters ≡ model.clusters ++ new)
        × AreAdopted (size model) (filter_if (is_large params) clusters) new
        × (d.extensions + d.novelties ≡ length new)
        × (0 < length new)
        × (length new ≤ params.k)
  unfolding novelty_detection
  novelty_detection-grows model next_label unknowns some_model pos enough trigger small =
      let (clusters, run, len, count) =
        clustering-matches ieee junk params unknowns (u32 (size model + 1)) pos enough small in
      let start : Detection W = record {
        model = model;
        next_label = next_label;
        extensions = 0;
        novelties = 0;
      } in
      let (d, new, run', done) = detect-ok start clusters some_model (omega arith) in
      let large = filter_if (is_large params) clusters in
      let len' : length new ≡ count_if (is_large params) clusters =
        length-AreAdopted (size model) large new done.adopted
        ∙ length-filter_if (is_large params) clusters in
      let found : 0 < length new =
        rw len' (some_large params clusters (rw len pos) (rw (len, count) (omega arith))) in
      (
        d,
        clusters,
        new,
        run,
        rw run run',
        done.appended,
        done.adopted,
        omega (arith, done.counted),
        found,
        rw (len', ← len) (count_if-le (is_large params) clusters),
      )

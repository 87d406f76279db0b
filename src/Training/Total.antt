-- ===== src/Training/Total.antt =====
-- Training ends with `k` clusters for each class.
use mathlib.Core.List.{append-nil, append_assoc}
use minas_flink.Prelude.{
  subst, ℕ, ◌+◌, ◌*◌, ◌≤◌, ◌<◌, ◌≡◌, refl, ap, ◌∙◌, sym, false, List, [], ◌∷◌, ◌++◌, map, take,
  arith, length, length-append, length-map, take_all, All, sum_of, ltb, lt→ltb, u32, u32_mod, add32,
}
use minas_flink.Double.{Double, IsIeee}
use minas_flink.Data.{Cluster, Model, MinasParams, size, ok}
use minas_flink.Clustering.Count.{matches, clustering-matches}
use minas_flink.Training.{Class, with_label, train_class, train_classes, training}
use minas_flink.Training.Classes.{grouped, read_training-grouped}

module _ {W : Type 0} where
  matches-append : (cs ds : List (Cluster W)) → matches (cs ++ ds) ≡ matches cs + matches ds
  matches-append [] ds = omega arith
  matches-append (c ∷ cs) ds = omega (arith, matches-append cs ds)

  matches-with_label :
      (label : ℕ) (cs : List (Cluster W)) → matches (map (with_label label) cs) ≡ matches cs
  matches-with_label label [] = refl
  matches-with_label label (c ∷ cs) = omega (arith, matches-with_label label cs)

  -- Enough examples for `k` clusters.
  abbrev pub IsEnough : ℕ → Class W → Type 0
  IsEnough k c = (k ≤ length c.examples) × (length c.examples < u32_mod)

  -- Clusters in the order of the classes: `k` of them for each class, which have its name as their label
  -- and match as many examples as it has.
  abbrev pub AreTrained : ℕ → List (Class W) → List (Cluster W) → Type 0
  AreTrained k [] cs = cs ≡ []
  AreTrained k (c ∷ classes) cs =
      (own : List (Cluster W)) × (rest : List (Cluster W)) × (cs ≡ own ++ rest)
      × (length own ≡ k)
      × (matches own ≡ length c.examples)
      × All (λ x. x.label ≡ c.name) own
      × AreTrained k classes rest

  with_label-named :
      (label : ℕ) (cs : List (Cluster W)) → All (λ x. x.label ≡ label) (map (with_label label) cs)
  with_label-named label [] = tt
  with_label-named label (c ∷ cs) = (refl, with_label-named label cs)

  abbrev pub total : List (Class W) → ℕ
  total = sum_of λ c. length c.examples

module _ {W : Type 0} ⦃D : Double W⦄ (ieee : IsIeee W) (junk : W) (params : MinasParams W) where
  train_class-ok :
      (m : Model W) (c : Class W)
      → 0 < params.k
      → IsEnough params.k c
      → (m' : Model W) × (own : List (Cluster W)) × (train_class junk params m c ≡ ok m')
        × (m'.clusters ≡ m.clusters ++ own)
        × (length own ≡ params.k)
        × (matches own ≡ length c.examples)
        × All (λ x. x.label ≡ c.name) own
  unfolding train_class
  train_class-ok m c pos (enough, small) =
      let (cs, run, len, sum) =
        clustering-matches ieee junk params c.examples (size m) pos enough small in
      let all : take params.k cs ≡ cs = take_all cs params.k (sym len) in
      let named = map (with_label c.name) cs in
      (
        record { clusters = m.clusters ++ named; room = add32 (size m) params.k },
        named,
        rw (run, all) refl,
        refl,
        length-map (with_label c.name) cs ∙ len,
        matches-with_label c.name cs ∙ sum,
        with_label-named c.name cs,
      )

  train_classes-ok :
      (m : Model W) (cs : List (Class W))
      → 0 < params.k
      → All (IsEnough params.k) cs
      → (m' : Model W) × (all : List (Cluster W)) × (train_classes junk params m cs ≡ ok m')
        × (m'.clusters ≡ m.clusters ++ all)
        × AreTrained params.k cs all
        × (length all ≡ length cs * params.k)
        × (matches all ≡ total cs)
  unfolding train_classes
  train_classes-ok m [] pos all =
      (m, [], refl, sym (append-nil m.clusters), refl, omega arith, refl)
  train_classes-ok m (c ∷ cs) pos (enough, all) =
      let (m₁, own, run₁, more₁, len₁, sum₁, named) = train_class-ok m c pos enough in
      let (m', rest, run, more, trained, len, sum) = train_classes-ok m₁ cs pos all in
      (
        m',
        own ++ rest,
        rw run₁ run,
        more ∙ ap (λ l. l ++ rest) more₁ ∙ append_assoc m.clusters own rest,
        (own, rest, refl, len₁, sum₁, named, trained),
        length-append own rest ∙ omega (arith, len₁, len),
        matches-append own rest ∙ omega (arith, sum₁, sum),
      )

  -- If `k` is not 0, there are at least `k` lines, but fewer than 2^32, and fewer than 254 classes, each
  -- class has at least `k` examples, but fewer than 2^32, and the operations on doubles obey the laws of
  -- `IsIeee`, then training returns a model. Its clusters stand in the order of the classes, `k` for each
  -- class: they have the class as their label, and their match counters add up to the number of its
  -- examples. The match counters of all clusters add up to the number of all examples.
  pub training-ok :
      (lines : List (List W × ℕ))
      → 0 < params.k
      → params.k ≤ length lines
      → length lines < u32_mod
      → length (grouped 0 lines []) < 254
      → All (IsEnough params.k) (grouped 0 lines [])
      → (m : Model W) × (training junk params lines ≡ ok m)
        × AreTrained params.k (grouped 0 lines []) m.clusters
        × (size m ≡ length (grouped 0 lines []) * params.k)
        × (matches m.clusters ≡ total (grouped 0 lines []))
  unfolding training
  training-ok lines pos enough small few all =
      let cs = grouped 0 lines [] in
      let (m, built, run, more, trained, len, sum) =
        train_classes-ok (record { clusters = []; room = 1 }) cs pos all in
      let read = read_training-grouped 0 lines [] (omega arith) (omega arith) in
      let fits = lt→ltb (length cs) 254 few in
      let many : ltb (u32 (length lines)) params.k ≡ false = ground arith in
      (
        m,
        rw (read, fits, many) run,
        subst (AreTrained params.k cs) (sym more) trained,
        ap length more ∙ len,
        ap matches more ∙ sum,
      )

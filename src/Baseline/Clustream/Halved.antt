-- ===== src/Baseline/Clustream/Halved.antt =====
-- The first example that a micro cluster takes.
use minas_flink.Prelude.{
  ℕ, zero, suc, ◌*◌, ◌≤◌, ◌<◌, ◌≡◌, refl, ap, ◌∙◌, sym, subst, some, true, false, List, [], ◌∷◌,
  map, arith, length, modify, get_elem?, All, All-get_elem?, u32,
}
use minas_flink.Double.{Double}
use minas_flink.Data.{Example, ok}
use minas_flink.KMeans.{add_values}
use minas_flink.Baseline.{BaseParams, BaseCluster, euclidean_distance}
use minas_flink.Baseline.KMeans.Total.{noughts, HaveDim}
use minas_flink.Baseline.Clustream.{start_micro, settle_micro, absorb, consume_one}
use minas_flink.Baseline.Clustream.Search.{pick-first_least}
use minas_flink.Baseline.Clustream.Start.{IsStarted, start_micro-ok}

ok-injective : {A : Type 0} {x y : A} → ok x ≡ ok y → x ≡ y
ok-injective e = cc e

module _ {W : Type 0} ⦃D : Double W⦄ where
  add_values-noughts :
      (dim : ℕ) (val : List W)
      → length val ≡ dim
      → add_values (noughts dim) val ≡ map (D.add D.nought) val
  unfolding add_values noughts
  add_values-noughts dim [] h = rw (sym h) refl
  add_values-noughts zero (x ∷ val) h = absurd (omega (arith, h))
  add_values-noughts (suc dim) (x ∷ val) h =
      ap (λ ys. D.add D.nought x ∷ ys) (add_values-noughts dim val (omega (arith, h)))

  -- The values of an example, divided by two.
  abbrev pub halves : List W → List W
  halves val = map (λ x. D.div (D.add D.nought x) (D.of_nat 2)) val

  map-halves :
      (val : List W) → map (λ s. D.div s (D.of_nat 2)) (map (D.add D.nought) val) ≡ halves val
  map-halves [] = refl
  map-halves (x ∷ val) = ap (λ ys. D.div (D.add D.nought x) (D.of_nat 2) ∷ ys) (map-halves val)

  pub absorb-halves :
      (radius_f : W) (i dim : ℕ) (val : List W) (c : BaseCluster W)
      → length val ≡ dim
      → IsStarted dim c
      → (absorb radius_f i val c).center ≡ halves val
  unfolding absorb settle_micro
  absorb-halves radius_f i dim val c h s =
      rw (s.one, s.blank, add_values-noughts dim val h) (map-halves val)

  -- The centers have a distance of 0 to themselves: no value is infinite or not a number.
  abbrev pub AreFinite : List (BaseCluster W) → Type 0
  AreFinite = All λ c. euclidean_distance c.center c.center ≡ D.nought

  abbrev pub AreApart : List W → List (BaseCluster W) → Type 0
  AreApart val = All λ c. D.lt D.nought (euclidean_distance c.center val) ≡ true

  -- CluStream has micro clusters, not more than examples in the training set, nor than the number that
  -- `kMeansInit` is told, and the examples have `dim` values. After its start, with finite centers, the
  -- first example of the stream, at a distance above 0 from all centers, goes to a micro cluster, whose
  -- center becomes the half of the example, wherever it was before; the other micro clusters and the
  -- next id stay.
  pub consume_one-halves :
      (junk : W) (params : BaseParams W) (training : List (Example W)) (initial_id next_id i : ℕ)
      (val : List W) (cs : List (BaseCluster W))
      → 0 < params.max_micro_clusters
      → params.max_micro_clusters ≤ length training
      → params.max_micro_clusters
        ≤ u32 (params.max_micro_clusters * params.min_examples_per_cluster)
      → HaveDim params.dim training
      → length val ≡ params.dim
      → start_micro junk params training initial_id ≡ ok cs
      → D.lt D.nought D.nought ≡ false
      → AreFinite cs
      → AreApart val cs
      → (j : ℕ) × (c : BaseCluster W) × (get_elem? cs j ≡ some c)
        × (consume_one params i val (record { clusters = cs; next_id = next_id })
            ≡ ok (record {
              clusters = modify cs j (absorb params.radius_f i val);
              next_id = next_id;
            }))
        × ((absorb params.radius_f i val c).center ≡ halves val)
  unfolding consume_one
  consume_one-halves junk params training initial_id next_id i val cs some_q enough said dims dim
        run irreflexive finite apart =
      let (cs₀, run₀, len₀, started₀) =
        start_micro-ok junk params training initial_id some_q enough said dims in
      let same : cs₀ ≡ cs = ok-injective (sym run₀ ∙ run) in
      let started = subst (All (IsStarted params.dim)) same started₀ in
      let len : length cs ≡ params.max_micro_clusters = ap length (sym same) ∙ len₀ in
      let (j, c, at, picked) =
        pick-first_least (λ x. euclidean_distance x.center val) cs (rw len some_q) in
      let is_started = All-get_elem? (IsStarted params.dim) cs j started at in
      let self = All-get_elem? _ cs j finite at in
      let farther : D.lt c.radius (euclidean_distance c.center val) ≡ true =
        rw (is_started.narrow irreflexive self) (All-get_elem? _ cs j apart at) in
      (
        j,
        c,
        at,
        rw (picked, farther) refl,
        absorb-halves params.radius_f i params.dim val c dim is_started,
      )

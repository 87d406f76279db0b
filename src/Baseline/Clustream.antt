-- ===== src/Baseline/Clustream.antt =====
-- `cluStream` of old-code/src/base/clustream.c.
pub mod Search
pub mod Start
pub mod Halved
pub mod Room
pub mod Stream
use minas_flink.Prelude.{
  ℕ, zero, suc, ◌+◌, ◌*◌, ◌%◌, List, [], ◌∷◌, map, Option, none, some, Bool, true, false, ◌||◌, not,
  take, modify, get_elem?, ltb, if◌then◌else◌, u32, u64_mod, add32, add64,
}
use minas_flink.Double.{Double}
use minas_flink.Data.{Example, Result, ok, fail, null_pointer, out_of_bounds, ◌>>=◌}
use minas_flink.KMeans.{add_values, add_squares}
use minas_flink.Baseline.{BaseParams, BaseCluster, euclidean_distance}
use minas_flink.Baseline.KMeans.{blank_cluster, base_init, base_k_means}

-- The searches for a least value that keep the first one: the index and the value, if any.
abbrev pub Least : Type 0 → Type 0
Least W = Option (ℕ × W)

-- The micro clusters, and `nextClusterId`.
pub record Micro (W : Type 0) : Type 0 where
  pub clusters : List (BaseCluster W)
  pub next_id : ℕ

-- `merged` and `deleted`, and their distance, if any.
abbrev pub Pair : Type 0 → Type 0
Pair W = Option (ℕ × ℕ × W)

module _ {W : Type 0} ⦃D : Double W⦄ where
  -- The loop that sets the radius of a micro cluster; `found` is whether `nearest` is set.
  unfoldable pub fill_radius : ℕ → Bool → BaseCluster W → BaseCluster W
  fill_radius zero found c = c
  fill_radius (suc left) found c =
      let dist = euclidean_distance c.center c.center in
      let closer = not found || D.lt dist c.radius in
      fill_radius left (found || closer) (if closer then record c { radius = dist } else c)

  unfoldable pub start_cluster : ℕ → BaseCluster W → BaseCluster W
  start_cluster q c =
      fill_radius q false
        (record c { n_matches = 1; time_linear_sum = D.of_nat 1; time_square_sum = D.of_nat 1 })

  -- The micro clusters before the stream. The number of examples that `kMeansInit` is told is computed,
  -- and not that of the training set.
  unfoldable pub start_micro :
      W → BaseParams W → List (Example W) → ℕ → Result (List (BaseCluster W))
  start_micro junk params training initial_id = do
    let q = params.max_micro_clusters
    initial ← base_init q training (u32 (q * params.min_examples_per_cluster)) initial_id
    (moved, _) ← base_k_means junk q params.dim params.precision initial (take q training)
    ok (map (start_cluster q) moved)

  unfoldable pub lesser : ℕ → W → Least W → Least W
  lesser k value none = some (k, value)
  lesser k value (some (i, least)) = if D.lt value least then some (k, value) else some (i, least)

  unfoldable pub first_least : (BaseCluster W → W) → ℕ → List (BaseCluster W) → Least W → Least W
  first_least value k [] s = s
  first_least value k (c ∷ cs) s = first_least value (k + 1) cs (lesser k (value c) s)

  -- The loop over the dimensions for `distanceAvg`.
  unfoldable pub average_sum : ℕ → W → List W → W
  average_sum n sum [] = sum
  average_sum n sum (s ∷ linear) = average_sum n (D.add sum (D.div s (D.of_nat n))) linear

  -- The same loop for `radius`, with the variance of each dimension.
  unfoldable pub variance_of : ℕ → W → W → W
  variance_of n s q =
      let mean = D.div s (D.of_nat n) in
      let variance = D.sub (D.mul mean mean) (D.div q (D.of_nat n)) in
      if D.lt variance D.nought then D.sub D.nought variance else variance

  unfoldable pub variance_sum : ℕ → W → List W → List W → W
  variance_sum n sum (s ∷ linear) (q ∷ square) =
      variance_sum n (D.add sum (variance_of n s q)) linear square
  variance_sum n sum [] square = sum
  variance_sum n sum (s ∷ linear) [] = sum

  -- What follows a change of the sums of a micro cluster, an addition or a merge.
  unfoldable pub settle_micro : W → BaseCluster W → BaseCluster W
  settle_micro radius_f c =
      let avg = average_sum c.n_matches D.nought c.ls_val_linear_sum in
      let spread = variance_sum c.n_matches D.nought c.ls_val_linear_sum c.ss_val_square_sum in
      let mu = D.div c.time_linear_sum (D.of_nat c.n_matches) in
      record c {
        center = map (λ s. D.div s (D.of_nat c.n_matches)) c.ls_val_linear_sum;
        distance_avg = avg;
        radius = D.add avg (D.mul (D.sqrt spread) radius_f);
        time_mu = mu;
        time_sigma = D.sqrt (D.sub (D.div c.time_square_sum (D.of_nat c.n_matches)) (D.mul mu mu));
      }

  -- An example is added to a micro cluster.
  unfoldable pub absorb : W → ℕ → List W → BaseCluster W → BaseCluster W
  absorb radius_f i val c = settle_micro radius_f (record c {
    n_matches = add32 c.n_matches 1;
    time_linear_sum = D.add c.time_linear_sum (D.of_nat i);
    time_square_sum = D.add c.time_square_sum (D.of_nat ((i * i) % u64_mod));
    ls_val_linear_sum = add_values c.ls_val_linear_sum val;
    ss_val_square_sum = add_squares c.ss_val_square_sum val;
  })

  -- `b` is merged into `a`.
  unfoldable pub merge_in : W → BaseCluster W → BaseCluster W → BaseCluster W
  merge_in radius_f b a = settle_micro radius_f (record a {
    n_matches = add32 a.n_matches b.n_matches;
    time_linear_sum = D.add a.time_linear_sum b.time_linear_sum;
    time_square_sum = D.add a.time_square_sum b.time_square_sum;
    ls_val_linear_sum = add_values a.ls_val_linear_sum b.ls_val_linear_sum;
    ss_val_square_sum = add_values a.ss_val_square_sum b.ss_val_square_sum;
  })

  -- The two loops for the closest pair of micro clusters.
  unfoldable pub closer_pair : ℕ → ℕ → W → Pair W → Pair W
  closer_pair a b dist none = some (a, b, dist)
  closer_pair a b dist (some (a', b', least)) =
      if D.lt dist least then some (a, b, dist) else some (a', b', least)

  unfoldable pub closest_to : ℕ → BaseCluster W → ℕ → List (BaseCluster W) → Pair W → Pair W
  closest_to a x b [] s = s
  closest_to a x b (y ∷ ys) s =
      closest_to a x (b + 1) ys (closer_pair a b (euclidean_distance x.center y.center) s)

  unfoldable pub closest_pair : ℕ → List (BaseCluster W) → Pair W → Pair W
  closest_pair a [] s = s
  closest_pair a (x ∷ xs) s = closest_pair (a + 1) xs (closest_to a x (a + 1) xs s)

  -- The micro cluster that makes room starts over at the example, but keeps its counters and its times.
  -- Without a dimension only the id is set.
  unfoldable pub replaced : ℕ → W → List W → BaseCluster W → BaseCluster W
  replaced id min_dist [] c = record c { id = id }
  replaced id min_dist (x ∷ val) c = record c {
    id = id;
    center = x ∷ val;
    ls_val_linear_sum = x ∷ val;
    ss_val_square_sum = map (λ y. D.mul y y) (x ∷ val);
    radius = min_dist;
    distance_avg = D.nought;
    distance_linear_sum = D.nought;
    distance_square_sum = D.nought;
    distance_std_dev = D.nought;
  }

  -- Going through a pointer into the array of micro clusters.
  unfoldable pub pick : List (BaseCluster W) → Least W → Result (ℕ × W × BaseCluster W)
  pick clusters none = fail null_pointer
  pick clusters (some (i, value)) = elim (get_elem? clusters i) [
    | none ↦ fail out_of_bounds
    | some c ↦ ok (i, value, c)
  ]

  -- The merge of the closest pair: the clusters, and the index of the one that is free then.
  unfoldable pub merge_pair : W → List (BaseCluster W) → Pair W → Result (List (BaseCluster W) × ℕ)
  merge_pair radius_f clusters none = fail null_pointer
  merge_pair radius_f clusters (some (a, b, dist)) = elim (get_elem? clusters b) [
    | none ↦ fail out_of_bounds
    | some y ↦ ok (modify clusters a (merge_in radius_f y), b)
  ]

  -- A micro cluster leaves: the oldest one, or one of the closest pair.
  unfoldable pub make_room :
      BaseParams W → List (BaseCluster W) → ℕ → BaseCluster W → Result (List (BaseCluster W) × ℕ)
  make_room params clusters i oldest =
      if D.lt oldest.time_mu params.time_threshold
      then ok (clusters, i)
      else merge_pair params.radius_f clusters (closest_pair 0 clusters none)

  unfoldable pub add_pattern : BaseParams W → List W → Micro W → Result (Micro W)
  add_pattern params val m = do
    (i, _, oldest) ← pick m.clusters (first_least (λ c. c.time_mu) 0 m.clusters none)
    (clusters, deleted) ← make_room params m.clusters i oldest
    (_, _, oldest') ← pick clusters (some (i, D.nought))
    (_, min_dist, _) ←
        pick clusters
          (first_least (λ c. euclidean_distance c.center oldest'.center) 0 clusters none)
    ok (record {
      clusters = modify clusters deleted (replaced (u32 m.next_id) min_dist val);
      next_id = add64 m.next_id 1;
    })

  -- A round of the loop over the stream, for example number `i`.
  unfoldable pub consume_one : BaseParams W → ℕ → List W → Micro W → Result (Micro W)
  consume_one params i val m = do
    (j, min_dist, nearest) ←
        pick m.clusters (first_least (λ c. euclidean_distance c.center val) 0 m.clusters none)
    let grown = record m { clusters = modify m.clusters j (absorb params.radius_f i val) }
    if D.lt nearest.radius min_dist then ok grown else add_pattern params val m

  unfoldable pub consume_all : BaseParams W → ℕ → List (Example W) → Micro W → Result (Micro W)
  consume_all params i [] m = ok m
  consume_all params i (e ∷ training) m = do
    m' ← consume_one params i e.val m
    consume_all params (i + 1) training m'

  -- The centers of the macro clusters, from the first micro clusters.
  abbrev pub mean_of : BaseCluster W → List W
  mean_of c = map (λ s. D.div s (D.of_nat c.n_matches)) c.ls_val_linear_sum

  unfoldable pub macro_clusters : ℕ → ℕ → List (BaseCluster W) → Result (List (BaseCluster W))
  macro_clusters zero id micro = ok []
  macro_clusters (suc left) id [] = fail out_of_bounds
  macro_clusters (suc left) id (c ∷ micro) = do
    rest ← macro_clusters left (add32 id 1) micro
    let sums = map (λ s. D.nought) c.ls_val_linear_sum
    ok (blank_cluster id (mean_of c) sums sums ∷ rest)

  unfoldable pub pseudo_examples : ℕ → List (BaseCluster W) → List (Example W)
  pseudo_examples id [] = []
  pseudo_examples id (c ∷ micro) =
      record { id = id; label = 0; val = mean_of c } ∷ pseudo_examples (id + 1) micro

  unfoldable pub clu_stream :
      W → BaseParams W → List (Example W) → ℕ → Result (List (BaseCluster W))
  clu_stream junk params training initial_id = do
    micro ← start_micro junk params training initial_id
    m ←
        consume_all params 0 training
          (record { clusters = micro; next_id = params.max_micro_clusters })
    macro ← macro_clusters params.k initial_id m.clusters
    (clusters, _) ←
        base_k_means junk params.k params.dim params.precision macro (pseudo_examples 0 m.clusters)
    ok clusters

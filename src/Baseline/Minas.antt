-- ===== src/Baseline/Minas.antt =====
-- `clustering`, `identify`, `noveltyDetection` and `minasOnline` of old-code/src/base/minas.c.
pub mod Count
pub mod Grows
pub mod Labels
pub mod Online
mod Tests
use minas_flink.Prelude.{
  ℕ, zero, suc, ◌+◌, ◌*◌, ◌%◌, List, [], ◌∷◌, ◌++◌, map, Option, none, some, Bool, true, false,
  ◌&&◌, ◌||◌, take, drop, modify, get_elem?, length, ltb, leb, ◌==◌, if◌then◌else◌, u32, add32,
  add64, sub64,
}
use minas_flink.Double.{Double}
use minas_flink.Data.{
  Example, Result, ok, fail, null_pointer, no_nearest_cluster, zero_divisor, ◌>>=◌,
}
use minas_flink.KMeans.{add_values, add_squares, through}
use minas_flink.Clustering.{Measure, deviation}
use minas_flink.Label.{is_letter}
use minas_flink.Baseline.{BaseParams, BaseCluster, nearest_val}
use minas_flink.Baseline.KMeans.{base_init, base_k_means}
use minas_flink.Baseline.Clustream.{clu_stream}

-- `Model`; the files that the code writes beside are left out.
pub record BaseModel (W : Type 0) : Type 0 where
  pub clusters : List (BaseCluster W)
  pub next_label : ℕ

-- `UNK_LABEL`, '-'.
abbrev pub unk_label : ℕ
unk_label = b'-'

-- A line of the output: the id of an example and a label.
pub record Line : Type 0 where
  pub point_id : ℕ
  pub label : ℕ

module _ {W : Type 0} ⦃D : Double W⦄ where
  -- The loop over the clusters before the measuring.
  unfoldable pub base_reset : BaseCluster W → BaseCluster W
  base_reset c = record c {
    radius = D.nought;
    n_matches = 0;
    distance_max = D.nought;
    distance_linear_sum = D.nought;
    distance_square_sum = D.nought;
  }

  -- What the loop over the training set does to the nearest cluster.
  unfoldable pub base_measure_in : List W → W → BaseCluster W → BaseCluster W
  base_measure_in val min_dist c = record c {
    n_matches = add32 c.n_matches 1;
    distance_linear_sum = D.add c.distance_linear_sum min_dist;
    distance_square_sum = D.add c.distance_square_sum (D.mul min_dist min_dist);
    distance_max = if D.lt c.distance_max min_dist then min_dist else c.distance_max;
    ls_val_linear_sum = add_values c.ls_val_linear_sum val;
    ss_val_square_sum = add_squares c.ss_val_square_sum val;
  }

  unfoldable pub base_measure :
      W → List (Example W) → List (BaseCluster W) → Result (List (BaseCluster W) × List (Measure W))
  base_measure junk [] clusters = ok (clusters, [])
  base_measure junk (e ∷ training) clusters = do
    found ← through (nearest_val junk clusters e.val)
    (clusters', measures) ←
        base_measure junk training (modify clusters found.0 (base_measure_in e.val found.1))
    ok (clusters', record { distance = found.1; matched = found.0 } ∷ measures)

  -- The last loop, for cluster `k`.
  unfoldable pub base_finish : W → List (Measure W) → ℕ → BaseCluster W → BaseCluster W
  base_finish radius_f measures k c =
      let avg = D.div c.distance_linear_sum (D.of_nat c.n_matches) in
      let std_dev = D.sqrt (deviation k avg D.nought measures) in
      if c.n_matches == 0 then c else record c {
        distance_avg = avg;
        distance_std_dev = std_dev;
        radius = D.mul radius_f std_dev;
      }

  unfoldable pub base_finish_all :
      W → List (Measure W) → ℕ → List (BaseCluster W) → List (BaseCluster W)
  base_finish_all radius_f measures k [] = []
  base_finish_all radius_f measures k (c ∷ clusters) =
      base_finish radius_f measures k c ∷ base_finish_all radius_f measures (k + 1) clusters

  -- CluStream, or k-means with the size of the training set as an `unsigned int`.
  unfoldable pub first_clustering :
      W → BaseParams W → List (Example W) → ℕ → Result (List (BaseCluster W))
  first_clustering junk params training initial_id = do
    initial ← base_init params.k training (u32 (length training)) initial_id
    (clusters, _) ← base_k_means junk params.k params.dim params.precision initial training
    ok clusters

  unfoldable pub base_clustering :
      W → BaseParams W → List (Example W) → ℕ → Result (List (BaseCluster W))
  base_clustering junk params training initial_id = do
    centers ←
        (if params.use_clu_stream
          then clu_stream junk params training initial_id
          else first_clustering junk params training initial_id)
    (measured, measures) ← base_measure junk training (map base_reset centers)
    ok (base_finish_all params.radius_f measures 0 measured)

  -- The label of the nearest cluster if the example is within its radius; `found` is what the search yields.
  unfoldable pub label_within : List (BaseCluster W) → Option ℕ × W → Result ℕ
  label_within clusters (none, distance) = fail no_nearest_cluster
  label_within clusters (some i, distance) = elim (get_elem? clusters i) [
    | none ↦ fail null_pointer
    | some c ↦ ok (if D.le distance c.radius then c.label else unk_label)
  ]

  -- `identify`, up to the label of the match, which is all that its caller reads.
  unfoldable pub base_identify : W → BaseModel W → List W → Result ℕ
  base_identify junk model val = label_within model.clusters (nearest_val junk model.clusters val)

-- The `do` loop for the next label, with fuel; labels that are letters or '-' are passed over.
unfoldable pub base_advance : ℕ → ℕ → ℕ
base_advance zero label = label
base_advance (suc fuel) label =
    let label' = add32 label 1 % 255 in
    let rest = base_advance fuel label' in
    if is_letter label' || label' == b'-' then rest else label'

module _ {W : Type 0} ⦃D : Double W⦄ where
  -- The cluster takes the last place of the model, with the index for its id. A label is a `char`.
  unfoldable pub base_append : BaseModel W → BaseCluster W → ℕ → BaseModel W
  base_append m c label = record m {
    clusters = m.clusters ++ (record c { id = length m.clusters; label = label } ∷ []);
  }

  unfoldable pub base_label :
      BaseParams W → BaseModel W → BaseCluster W → Option ℕ × W → Result (BaseModel W)
  base_label params m c (none, min_dist) = fail null_pointer
  base_label params m c (some i, min_dist) = elim (get_elem? m.clusters i) [
    | none ↦ fail null_pointer
    | some near ↦
        if D.le min_dist (D.mul params.novelty_f near.distance_std_dev)
        then ok (base_append m c near.label)
        else ok
            (record (base_append m c m.next_label) { next_label = base_advance 255 m.next_label })
  ]

  unfoldable pub base_detect :
      W → BaseParams W → BaseModel W → List (BaseCluster W) → Result (BaseModel W)
  base_detect junk params m [] = ok m
  base_detect junk params m (c ∷ cs) = do
    m' ←
        (if ltb c.n_matches params.min_examples_per_cluster
          then ok m
          else base_label params m c (nearest_val junk m.clusters c.center))
    base_detect junk params m' cs

  unfoldable pub base_novelty :
      W → BaseParams W → BaseModel W → List (Example W) → Result (BaseModel W)
  base_novelty junk params m unknowns = do
    clusters ← base_clustering junk params unknowns (u32 (length m.clusters))
    base_detect junk params m clusters

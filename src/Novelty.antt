-- ===== src/Novelty.antt =====
-- `noveltyDetection` of src/base.c: clusters the unknown examples, and adds the clusters that are
-- large enough to the model, as extensions of a known one or as novelties.
pub mod Grows
use minas_flink.Prelude.{
  ℕ, suc, ◌+◌, List, [], ◌∷◌, ◌++◌, get_elem?, Option, none, some, false, ltb, if◌then◌else◌, u32,
  add32,
}
use minas_flink.Double.{Double}
use minas_flink.Data.{
  Example, Cluster, Model, MinasParams, size, Result, ok, fail, no_nearest_cluster, null_pointer,
  ◌>>=◌,
}
use minas_flink.Nearest.{nearest_cluster_val}
use minas_flink.Clustering.{clustering}
use minas_flink.Label.{next_free_label}

-- The variables of the loop over the new clusters: `state->model`, `state->nextLabel`, `extensions`
-- and `novelties`.
pub record Detection (W : Type 0) : Type 0 where
  pub model : Model W
  pub next_label : ℕ
  pub extensions : ℕ
  pub novelties : ℕ

module _ {W : Type 0} ⦃D : Double W⦄ where
  -- `realloc` for one cluster more, which then takes the last place with the index for its id.
  unfoldable pub append_cluster : Model W → Cluster W → Model W
  append_cluster m c = record {
    clusters = m.clusters ++ (record c { id = size m } ∷ []);
    room = size m + 1;
  }

  -- The two branches of the loop for a cluster that is large enough; `near` is the known cluster that
  -- is nearest to its center.
  unfoldable pub extend : Detection W → Cluster W → Cluster W → Detection W
  extend d c near = record d {
    model = append_cluster d.model (record c { label = near.label; extension_of = u32 near.id });
    extensions = add32 d.extensions 1;
  }

  unfoldable pub found_novelty : Detection W → Cluster W → Detection W
  found_novelty d c = record d {
    model = append_cluster d.model (record c { label = u32 d.next_label });
    next_label = next_free_label d.next_label;
    novelties = add32 d.novelties 1;
  }

  -- `near` is the pointer and the distance that the search in the model yields.
  unfoldable pub label_cluster :
      MinasParams W → Detection W → Cluster W → Option ℕ × W → Result (Detection W)
  label_cluster params d c (none, min_dist) = fail no_nearest_cluster
  label_cluster params d c (some i, min_dist) = elim (get_elem? d.model.clusters i) [
    | none ↦ fail null_pointer
    | some near ↦
        if D.le min_dist (D.mul params.novelty_f near.distance_std_dev)
        then ok (extend d c near)
        else ok (found_novelty d c)
  ]

  -- One round of the loop over the new clusters.
  unfoldable pub detect_one : W → MinasParams W → Detection W → Cluster W → Result (Detection W)
  detect_one junk params d c =
      if ltb c.n_matches params.min_examples_per_cluster
      then ok d
      else label_cluster params d c (nearest_cluster_val junk d.model.clusters c.center false)

  unfoldable pub detect : W → MinasParams W → Detection W → List (Cluster W) → Result (Detection W)
  detect junk params d [] = ok d
  detect junk params d (c ∷ cs) = do d' ← detect_one junk params d c; detect junk params d' cs

  -- `noveltyDetection`, from the fields of the state that it uses: the model and the next label. It
  -- returns `novelties + extensions`, which is not a field here.
  unfoldable pub novelty_detection :
      W → MinasParams W → Model W → ℕ → List (Example W) → Result (Detection W)
  novelty_detection junk params model next_label unknowns = do
    clusters ← clustering junk params unknowns (u32 (size model + 1))
    detect junk params
        (record { model = model; next_label = next_label; extensions = 0; novelties = 0 }) clusters

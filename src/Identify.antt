-- ===== src/Identify.antt =====
-- `identify` of src/base.c: classifies an example by its nearest cluster, or marks it as unknown.
pub mod Settle
pub mod Outcome
mod Tests
use minas_flink.Prelude.{
  ℕ, Bool, true, false, Option, none, some, length, modify, get_elem?, ◌==◌, if◌then◌else◌, u32,
  add32,
}
use minas_flink.Double.{Double}
use minas_flink.Data.{
  Example, Cluster, Match, MinasState, minas_unk_label, size, Result, ok, fail, empty_model,
  no_nearest_cluster, null_pointer,
}
use minas_flink.Nearest.{nearest_cluster_val}
use minas_flink.Sleep.{restore_sleep, with_clusters}

module _ {W : Type 0} ⦃D : Double W⦄ where
  -- What happens to the nearest cluster, at a distance of `distance`.
  unfoldable pub note_match : Example W → W → Cluster W → Cluster W
  note_match example distance c =
      let seen : Cluster W = record c { latest_match_id = u32 example.id } in
      if D.le distance c.radius
      then record seen { n_matches = add32 c.n_matches 1 }
      else record seen { n_misses = add32 c.n_misses 1 }

  -- `identify` once `match->cluster` points to the cluster with the index `i`.
  unfoldable pub settle : MinasState W → Example W → ℕ → W → Cluster W → MinasState W × Match W
  settle state example i distance c =
      let is_match = D.le distance c.radius in
      (
        record state {
          model =
              with_clusters state.model
                (modify state.model.clusters i (note_match example distance));
        },
        record {
          point_id = example.id;
          label = if is_match then c.label else minas_unk_label;
          is_match = is_match;
          distance = distance;
          cluster = i;
        },
      )

  unfoldable pub settle_at :
      MinasState W → Example W → Option ℕ × W → Result (MinasState W × Match W)
  settle_at state example (none, distance) = fail no_nearest_cluster
  settle_at state example (some i, distance) = elim (get_elem? state.model.clusters i) [
    | none ↦ fail null_pointer
    | some c ↦ ok (settle state example i distance c)
  ]

  -- The second search follows only if the first finds no cluster that is awake.
  unfoldable pub identify : W → MinasState W → Example W → Result (MinasState W × Match W)
  identify junk state example =
      let search = λ (s : MinasState W) (skip_sleep : Bool).
        nearest_cluster_val junk s.model.clusters example.val skip_sleep in
      let woken = restore_sleep state in
      let first = search state true in
      if size state.model == 0 then fail empty_model else elim (first.0) [
        | none ↦ settle_at woken example (search woken false)
        | some i ↦ settle_at state example first
      ]

-- ===== src/Growth.antt =====
-- `addCluster` of src/base.c, and the loop of src/online-nd.c that reads the clusters of the model.
pub mod Room
pub mod Read
mod Tests
use minas_flink.Prelude.{
  ℕ, ◌+◌, ◌%◌, Bool, not, ◌&&◌, List, [], ◌∷◌, ◌++◌, take, modify, ltb, leb, ◌==◌, if◌then◌else◌,
  u32, add32,
}
use minas_flink.Data.{
  Cluster, Model, MinasParams, MinasState, size, Result, ok, fail, out_of_bounds, zero_divisor,
  ◌>>=◌,
}
use minas_flink.Sleep.{with_clusters}
use minas_flink.Label.{isalpha}

-- The `realloc` for `k` clusters more, before a cluster with an index that `k` divides.
unfoldable pub grow : {W : Type 0} → ℕ → Model W → Model W
grow k m = if ltb 0 (size m) && (size m % k) == 0 then record m { room = add32 (size m) k } else m

-- `nextLabel` after a cluster with this label; `label + 1` is an `unsigned int`. `beyond` is what
-- `isalpha` returns where it is undefined.
unfoldable pub label_after : (ℕ → Bool) → ℕ → ℕ → ℕ
label_after beyond next_label label =
    if not (isalpha beyond label) && leb next_label label then add32 label 1 else next_label

-- The copy of a cluster to the end of the model, which has a center of its own.
unfoldable pub put_cluster :
    {W : Type 0} → (ℕ → Bool) → MinasParams W → MinasState W → Cluster W → MinasState W
put_cluster beyond params s c = record s {
  model = record {
    clusters = s.model.clusters ++ (record c { center = take params.dim c.center } ∷ []);
    room = s.model.room;
  };
  next_label = label_after beyond s.next_label c.label;
}

-- `addCluster`. The write to `clusters[index]` stays within the block if there is room for it.
unfoldable pub add_cluster :
    {W : Type 0} → (ℕ → Bool) → MinasParams W → MinasState W → Cluster W → Result (MinasState W)
add_cluster beyond params s c =
    let s' : MinasState _ = record s { model = grow params.k s.model } in
    if ltb 0 (size s.model) && params.k == 0
    then fail zero_divisor
    else if ltb (size s'.model) s'.model.room
    then ok (put_cluster beyond params s' c)
    else fail out_of_bounds

-- What `main` writes through the pointer that `addCluster` returns: a flag that depends on the output
-- mode, and the current id.
unfoldable pub mark : {W : Type 0} → Bool → ℕ → Cluster W → Cluster W
mark interest curr_id c = record c { is_intrest = interest; latest_match_id = u32 curr_id }

unfoldable pub mark_at : {W : Type 0} → Bool → ℕ → MinasState W → MinasState W
mark_at interest i s = record s {
  model = with_clusters s.model (modify s.model.clusters i (mark interest s.curr_id));
}

-- A line 'C' in the loop of `main`: a cluster that the model does not have yet is added.
unfoldable pub read_cluster_line :
    {W : Type 0}
    → (ℕ → Bool)
    → Bool
    → MinasParams W
    → MinasState W
    → Cluster W
    → Result (MinasState W)
read_cluster_line beyond interest params s c =
    let added = add_cluster beyond params s c >>= λ (s' : MinasState _).
    ok (mark_at interest (size s.model) s') in
    if leb (size s.model) c.id then added else ok s

-- The lines 'C' before the first example.
unfoldable pub read_model :
    {W : Type 0}
    → (ℕ → Bool)
    → Bool
    → MinasParams W
    → MinasState W
    → List (Cluster W)
    → Result (MinasState W)
read_model beyond interest params s [] = ok s
read_model beyond interest params s (c ∷ cs) = do
  s' ← read_cluster_line beyond interest params s c
  read_model beyond interest params s' cs

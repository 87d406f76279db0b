-- ===== src/Baseline/Minas/Online.antt =====
-- `minasOnline` of old-code/src/base/minas.c, from the values that it has read from each line.
pub mod Clusters
pub mod Flush
pub mod Kept
pub mod Step
pub mod Total
use minas_flink.Prelude.{
  ℕ, ◌+◌, ◌*◌, ◌%◌, List, [], ◌∷◌, ◌++◌, Option, none, some, Bool, true, ◌&&◌, drop, get_elem?,
  length, ltb, leb, ◌==◌, if◌then◌else◌, u32, add32, sub64, u64_mod,
}
use minas_flink.Double.{Double}
use minas_flink.Data.{
  Example, Result, ok, fail, null_pointer, no_nearest_cluster, out_of_bounds, zero_divisor, ◌>>=◌,
}
use minas_flink.Baseline.{BaseParams, BaseCluster, nearest_val}
use minas_flink.Baseline.Minas.{BaseModel, unk_label, Line, base_identify, base_novelty}

-- The variables of the loop. `unknowns` holds the first `unknownsSize` entries of the array, whose length
-- is `unknownsMaxSize`; each has a block of its own for its values.
pub record OnlineState (W : Type 0) : Type 0 where
  pub model : BaseModel W
  pub unknowns : List (Example W)
  pub max_size : ℕ
  pub last_nd_check : ℕ
  pub id : ℕ
  pub output : List Line

abbrev pub trigger_of : {W : Type 0} → BaseParams W → ℕ
trigger_of params = u32 (params.min_examples_per_cluster * params.k)

-- The variables of the loops that compress the buffer: what is kept, and the lines.
pub record Compressed (W : Type 0) : Type 0 where
  pub kept : List (Example W)
  pub lines : List Line

module _ {W : Type 0} ⦃D : Double W⦄ where
  -- Whether a new cluster takes the example in: its label then.
  unfoldable pub taken_by : List (BaseCluster W) → Option ℕ × W → Result (Option ℕ)
  taken_by clusters (none, distance) = fail no_nearest_cluster
  taken_by clusters (some i, distance) = elim (get_elem? clusters i) [
    | none ↦ fail null_pointer
    | some c ↦ ok (if D.le distance c.distance_max then some c.label else none)
  ]

  unfoldable pub put_back : Bool → Example W → Option ℕ → Compressed W → Compressed W
  put_back prints e none r = record r { kept = e ∷ r.kept }
  put_back prints e (some label) r =
      let line : Line = record { point_id = e.id; label = label } in
      if prints then record r { lines = line ∷ r.lines } else r

  unfoldable pub compress :
      W → Bool → List (BaseCluster W) → List (Example W) → Result (Compressed W)
  compress junk prints clusters [] = ok (record { kept = []; lines = [] })
  compress junk prints clusters (e ∷ unknowns) = do
    taken ← taken_by clusters (nearest_val junk clusters e.val)
    rest ← compress junk prints clusters unknowns
    ok (put_back prints e taken rest)

  -- Novelty detection, and the buffer after it.
  unfoldable pub detect_online : W → BaseParams W → Bool → OnlineState W → Result (OnlineState W)
  detect_online junk params prints s = do
    model ← base_novelty junk params s.model s.unknowns
    r ← compress junk prints (drop (length s.model.clusters) model.clusters) s.unknowns
    ok (record s { model = model; unknowns = r.kept; output = s.output ++ r.lines })

  -- An unknown example is written to the buffer, which is then doubled if it is full.
  unfoldable pub keep_unknown : Example W → OnlineState W → Result (OnlineState W)
  keep_unknown e s =
      let unknowns = s.unknowns ++ (e ∷ []) in
      let doubled = (s.max_size * 2) % u64_mod in
      if leb s.max_size (length s.unknowns)
      then fail out_of_bounds
      else ok (record s {
        unknowns = unknowns;
        max_size = if leb s.max_size (length unknowns) then doubled else s.max_size;
      })

  -- Whether a detection is due.
  unfoldable pub is_due : ℕ → OnlineState W → Bool
  is_due trigger s = (length s.unknowns % trigger) == 0 && ltb trigger (sub64 s.id s.last_nd_check)

  unfoldable pub take_unknown :
      W → BaseParams W → Example W → OnlineState W → Result (OnlineState W)
  take_unknown junk params e s = do
    s₁ ← keep_unknown e s
    let checked = record s₁ { last_nd_check = s₁.id }
    let detected = detect_online junk params params.use_reclassification checked
    if trigger_of params == 0
        then fail zero_divisor
        else if is_due (trigger_of params) s₁
        then detected
        else ok s₁

  -- A round of the loop over the lines.
  unfoldable pub online_one : W → BaseParams W → List W → OnlineState W → Result (OnlineState W)
  online_one junk params val s = do
    label ← base_identify junk s.model val
    let line : Line = record { point_id = s.id; label = label }
    let s₁ = record s { id = add32 s.id 1; output = s.output ++ (line ∷ []) }
    if label == unk_label
        then take_unknown junk params (record { id = s.id; label = 0; val = val }) s₁
        else ok s₁

  unfoldable pub online_all :
      W → BaseParams W → List (List W) → OnlineState W → Result (OnlineState W)
  online_all junk params [] s = ok s
  online_all junk params (val ∷ vals) s = do
    s' ← online_one junk params val s
    online_all junk params vals s'

  -- The final flush.
  unfoldable pub flush_online : W → BaseParams W → OnlineState W → Result (OnlineState W)
  flush_online junk params s =
      if ltb params.k (length s.unknowns) then detect_online junk params true s else ok s

  -- The variables before the first line.
  unfoldable pub start_online : BaseParams W → BaseModel W → OnlineState W
  start_online params model = record {
    model = model;
    unknowns = [];
    max_size = trigger_of params;
    last_nd_check = 0;
    id = 0;
    output = [];
  }

  unfoldable pub minas_online :
      W → BaseParams W → BaseModel W → List (List W) → Result (OnlineState W)
  minas_online junk params model vals = do
    s ← online_all junk params vals (start_online params model)
    flush_online junk params s

-- ===== src/Sleep.antt =====
-- `minasHandleSleep` and `restoreSleep` of src/base.c: clusters that have not matched for long are
-- put to sleep, and all are woken at once.
pub mod Counter
pub mod Effect
pub mod Frame
mod Tests
use minas_flink.Prelude.{
  ℕ, ◌*◌, Bool, true, false, ◌||◌, List, [], ◌∷◌, map, ltb, leb, ◌==◌, if◌then◌else◌, u32, add64,
  sub64,
}
use minas_flink.Data.{Cluster, MinasParams, MinasState, Model, size}

-- The body of the loop of `restoreSleep`. The field is an `unsigned int`, the id an `unsigned long`.
unfoldable pub wake : {W : Type 0} → ℕ → Cluster W → Cluster W
wake curr_id c = record c { latest_match_id = u32 curr_id; is_sleep = false }

abbrev pub with_clusters : {W : Type 0} → Model W → List (Cluster W) → Model W
with_clusters m cs = record m { clusters = cs }

unfoldable pub restore_sleep : {W : Type 0} → MinasState W → MinasState W
restore_sleep s = if s.sleep_counter == 0 then s else record s {
  model = with_clusters s.model (map (wake s.curr_id) s.model.clusters);
  sleep_counter = 0;
}

-- Whether a cluster has not matched for more than `threshold` examples.
abbrev pub is_stale : {W : Type 0} → ℕ → ℕ → Cluster W → Bool
is_stale threshold curr_id c = ltb threshold (sub64 curr_id c.latest_match_id)

-- The loop of `minasHandleSleep`, with the counter, which stops once the counter reaches `limit`.
unfoldable pub doze : {W : Type 0} → ℕ → ℕ → ℕ → ℕ → List (Cluster W) → List (Cluster W) × ℕ
doze limit threshold curr_id counter [] = ([], counter)
doze limit threshold curr_id counter (c ∷ cs) =
    let stale = is_stale threshold curr_id c in
    let counter' = if c.is_sleep then counter else if stale then add64 counter 1 else counter in
    let c' : Cluster _ = if stale then record c { is_sleep = true } else c in
    let rest = doze limit threshold curr_id counter' cs in
    if c.is_sleep
    then (c ∷ rest.0, rest.1)
    else if leb limit counter'
    then (c' ∷ cs, counter')
    else (c' ∷ rest.0, rest.1)

unfoldable pub handle_sleep : {W : Type 0} → MinasParams W → MinasState W → MinasState W
handle_sleep params s =
    let id_diff = sub64 s.curr_id s.last_forget_check in
    let active = sub64 (size s.model) s.sleep_counter in
    let limit = u32 (2 * params.k) in
    let threshold = params.threshold_forgetting_past in
    let (cs, counter) = doze limit threshold s.curr_id s.sleep_counter s.model.clusters in
    if s.curr_id == 0
    then s
    else if leb active limit || ltb id_diff threshold
    then s
    else record s { model = with_clusters s.model cs; sleep_counter = counter }

-- ===== src/Sleep/Counter.antt =====
-- The sleep counter counts the sleeping clusters, and never counts all of them.
use minas_flink.Prelude.{
  ℕ, ◌+◌, ◌*◌, ◌≤◌, ◌<◌, ◌≡◌, refl, List, [], ◌∷◌, map, length, arith, count_if, u32_mod, u64_mod,
  add64, length-map, ◌⊎◌, inr,
}
use minas_flink.Data.{Cluster, MinasParams, MinasState, size}
use minas_flink.Sleep.{wake, restore_sleep, doze, handle_sleep}

-- How many clusters sleep.
abbrev pub sleeping : {W : Type 0} → List (Cluster W) → ℕ
sleeping = count_if λ c. c.is_sleep

-- The counter is right, and the size is that of an `unsigned int`.
pub record IsCounted {W : Type 0} (s : MinasState W) : Type 0 where
  pub counted : s.sleep_counter ≡ sleeping s.model.clusters
  pub small : size s.model < u32_mod

pub sleeping-le : {W : Type 0} (cs : List (Cluster W)) → sleeping cs ≤ length cs
sleeping-le [] = omega arith
sleeping-le (c ∷ cs) = ground (arith, sleeping-le cs)

sleeping-wake :
    {W : Type 0} (curr_id : ℕ) (cs : List (Cluster W)) → sleeping (map (wake curr_id) cs) ≡ 0
unfolding wake
sleeping-wake curr_id [] = refl
sleeping-wake curr_id (c ∷ cs) = omega (arith, sleeping-wake curr_id cs)

module _ {W : Type 0} (limit threshold curr_id : ℕ) where
  doze-length :
      (counter : ℕ) (cs : List (Cluster W))
      → length (doze limit threshold curr_id counter cs).0 ≡ length cs
  unfolding doze
  doze-length counter [] = refl
  doze-length counter (c ∷ cs) =
      ground (arith, doze-length counter cs, doze-length (add64 counter 1) cs)

  -- The counter grows with the sleeping clusters, by one or up to the limit.
  doze-sleeping :
      (counter : ℕ) (cs : List (Cluster W))
      → counter + length cs < u64_mod
      → let (cs', counter') = doze limit threshold curr_id counter cs in
        (counter' + sleeping cs ≡ counter + sleeping cs')
        × ((counter' ≤ limit) ⊎ (counter' ≤ counter + 1))
  unfolding doze
  doze-sleeping counter [] h = (refl, inr (omega arith))
  doze-sleeping counter (c ∷ cs) h =
      ground (arith, doze-sleeping counter cs, doze-sleeping (add64 counter 1) cs)

-- `restoreSleep` wakes every cluster, if the counter was right, and the counter stays right.
restore_sleep-awake :
    {W : Type 0} (s : MinasState W)
    → IsCounted s
    → let s' = restore_sleep s in
      IsCounted s' × (sleeping s'.model.clusters ≡ 0) × (size s'.model ≡ size s.model)
unfolding restore_sleep
restore_sleep-awake s v =
    ground (
      arith,
      sleeping-wake s.curr_id s.model.clusters,
      length-map (wake s.curr_id) s.model.clusters,
    )

-- If `k` is not 0, 2k is below 2^32, the counter of the sleeping clusters is right, and a cluster is
-- awake, then `minasHandleSleep` leaves the counter right, as many clusters as before, and one of them
-- awake.
pub handle_sleep-IsCounted :
    {W : Type 0} (params : MinasParams W) (s : MinasState W)
    → 0 < params.k
    → 2 * params.k < u32_mod
    → IsCounted s
    → sleeping s.model.clusters < size s.model
    → let s' = handle_sleep params s in
      IsCounted s' × (size s'.model ≡ size s.model) × (sleeping s'.model.clusters < size s'.model)
unfolding handle_sleep
handle_sleep-IsCounted params s pos fits v awake =
    let limit = 2 * params.k in
    let cs = s.model.clusters in
    ground (
      arith,
      doze-length limit params.threshold_forgetting_past s.curr_id s.sleep_counter cs,
      doze-sleeping limit params.threshold_forgetting_past s.curr_id s.sleep_counter cs,
    )

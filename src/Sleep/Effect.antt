-- ===== src/Sleep/Effect.antt =====
-- Which clusters `minasHandleSleep` puts to sleep.
use minas_flink.Prelude.{
  ℕ, ◌*◌, ◌≤◌, ◌<◌, ◌≡◌, ◌≢◌, refl, sym, subst, true, false, List, [], ◌∷◌, arith, u32, add64,
  sub64, All, ◌⊎◌, inl,
}
use minas_flink.Data.{Cluster, MinasParams, MinasState, size}
use minas_flink.Sleep.{with_clusters, is_stale, doze, handle_sleep}

-- The clusters in order, of which some were put to sleep: only such as were awake and stale, and
-- nothing else of them changed.
abbrev pub AreDozed : {W : Type 0} → ℕ → ℕ → List (Cluster W) → List (Cluster W) → Type 0
AreDozed threshold curr_id [] [] = Unit
AreDozed threshold curr_id (c ∷ cs) (c' ∷ cs') =
    ((c' ≡ c)
      ⊎ ((c.is_sleep ≡ false)
          × (is_stale threshold curr_id c ≡ true)
          × (c' ≡ record c { is_sleep = true })))
    × AreDozed threshold curr_id cs cs'
AreDozed threshold curr_id _ _ = ⊥

AreDozed-refl :
    {W : Type 0} (threshold curr_id : ℕ) (cs : List (Cluster W)) → AreDozed threshold curr_id cs cs
AreDozed-refl threshold curr_id [] = tt
AreDozed-refl threshold curr_id (c ∷ cs) = (inl refl, AreDozed-refl threshold curr_id cs)

module _ {W : Type 0} (limit threshold curr_id : ℕ) where
  doze-AreDozed :
      (counter : ℕ) (cs : List (Cluster W))
      → AreDozed threshold curr_id cs (doze limit threshold curr_id counter cs).0
  unfolding doze
  doze-AreDozed counter [] = tt
  doze-AreDozed counter (c ∷ cs) = ground (
    arith,
    AreDozed-refl threshold curr_id cs,
    doze-AreDozed counter cs,
    doze-AreDozed (add64 counter 1) cs,
  )

  -- Below the limit the loop runs to its end.
  doze_complete :
      (counter : ℕ) (cs : List (Cluster W))
      → let (cs', counter') = doze limit threshold curr_id counter cs in
        counter' < limit → All (λ c. is_stale threshold curr_id c ≡ true → c.is_sleep ≡ true) cs'
  unfolding doze
  doze_complete counter [] h = tt
  doze_complete counter (c ∷ cs) h =
      ground (arith, doze_complete counter cs, doze_complete (add64 counter 1) cs)

-- `minasHandleSleep` puts to sleep only clusters that were awake and stale, and changes nothing else
-- of any cluster.
pub handle_sleep-AreDozed :
    {W : Type 0} (params : MinasParams W) (s : MinasState W)
    → AreDozed params.threshold_forgetting_past s.curr_id s.model.clusters
        (handle_sleep params s).model.clusters
unfolding handle_sleep
handle_sleep-AreDozed params s =
    let threshold = params.threshold_forgetting_past in
    ground (
      arith,
      AreDozed-refl threshold s.curr_id s.model.clusters,
      doze-AreDozed (u32 (2 * params.k)) threshold s.curr_id s.sleep_counter s.model.clusters,
    )

abbrev pub SleepsIfStale : {W : Type 0} → ℕ → ℕ → Cluster W → Type 0
SleepsIfStale threshold curr_id c = is_stale threshold curr_id c ≡ true → c.is_sleep ≡ true

-- The run of the loop that `minasHandleSleep` makes.
abbrev dozed : {W : Type 0} → MinasParams W → MinasState W → List (Cluster W) × ℕ
dozed params s =
    doze (u32 (2 * params.k)) params.threshold_forgetting_past s.curr_id s.sleep_counter
      s.model.clusters

handle_sleep_due :
    {W : Type 0} (params : MinasParams W) (s : MinasState W)
    → s.curr_id ≢ 0
    → u32 (2 * params.k) < sub64 (size s.model) s.sleep_counter
    → params.threshold_forgetting_past ≤ sub64 s.curr_id s.last_forget_check
    → handle_sleep params s ≡ record s {
      model = with_clusters s.model (dozed params s).0;
      sleep_counter = (dozed params s).1;
    }
unfolding handle_sleep
handle_sleep_due params s started many due = ground arith

-- If more than `2 * k` clusters are awake and ids have passed the threshold since the last check,
-- and the counter ends below `2 * k`, then every stale cluster sleeps afterwards.
handle_sleep_complete :
    {W : Type 0} (params : MinasParams W) (s : MinasState W)
    → s.curr_id ≢ 0
    → u32 (2 * params.k) < sub64 (size s.model) s.sleep_counter
    → params.threshold_forgetting_past ≤ sub64 s.curr_id s.last_forget_check
    → (handle_sleep params s).sleep_counter < u32 (2 * params.k)
    → All
        (SleepsIfStale params.threshold_forgetting_past s.curr_id)
        (handle_sleep params s).model.clusters
handle_sleep_complete params s started many due =
    let threshold = params.threshold_forgetting_past in
    subst
      (λ (t : MinasState _).
        t.sleep_counter < u32 (2 * params.k)
        → All (λ c. is_stale threshold s.curr_id c ≡ true → c.is_sleep ≡ true) t.model.clusters)
      (sym (handle_sleep_due params s started many due))
      (doze_complete (u32 (2 * params.k)) threshold s.curr_id s.sleep_counter s.model.clusters)

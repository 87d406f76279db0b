-- ===== src/Identify/Settle.antt =====
-- How `identify` comes to the cluster that it settles on.
use minas_flink.Prelude.{
  ℕ, ◌+◌, ◌<◌, ◌≡◌, refl, ap, ◌∙◌, ◌⊎◌, inl, inr, true, false, List, [], ◌∷◌, map, some, none,
  arith, get_elem?, sum_of, sum_of-modify, le-sum_of, u32_mod,
}
use minas_flink.Double.{Double, IsIeee}
use minas_flink.Data.{Example, Cluster, MinasState, size, ok}
use minas_flink.Nearest.{nearest_cluster_val}
use minas_flink.Nearest.Reference.{distance_to}
use minas_flink.Nearest.Minimal.{nearest-found_all, nearest-cases}
use minas_flink.Sleep.Frame.{size-restore_sleep}
use minas_flink.Sleep.{restore_sleep, wake}
use minas_flink.Identify.{note_match, settle, settle_at, identify}

-- The examples that the clusters count, as hits and as misses.
abbrev pub items : {W : Type 0} → List (Cluster W) → ℕ
items = sum_of λ c. c.n_matches + c.n_misses

items-wake :
    {W : Type 0} (curr_id : ℕ) (cs : List (Cluster W)) → items (map (wake curr_id) cs) ≡ items cs
unfolding wake
items-wake curr_id [] = refl
items-wake curr_id (c ∷ cs) = omega (arith, items-wake curr_id cs)

pub items-restore_sleep :
    {W : Type 0} (s : MinasState W)
    → items (restore_sleep s).model.clusters ≡ items s.model.clusters
unfolding restore_sleep
items-restore_sleep s = ground (arith, items-wake s.curr_id s.model.clusters)

module _ {W : Type 0} ⦃D : Double W⦄ where
  pub settle_at-some :
      (s : MinasState W) (e : Example W) (i : ℕ) (dist : W) {c : Cluster W}
      → get_elem? s.model.clusters i ≡ some c
      → settle_at s e (some i, dist) ≡ ok (settle s e i dist c)
  unfolding settle_at
  settle_at-some s e i dist at = rw (at, settle_at)

  items-note_match :
      (e : Example W) (dist : W) (c : Cluster W)
      → c.n_matches + c.n_misses + 1 < u32_mod
      → let c' = note_match e dist c in c'.n_matches + c'.n_misses ≡ c.n_matches + c.n_misses + 1
  unfolding note_match
  items-note_match e dist c h = ground arith

  pub items-settle :
      (s : MinasState W) (e : Example W) (i : ℕ) (dist : W) (c : Cluster W)
      → get_elem? s.model.clusters i ≡ some c
      → items s.model.clusters + 1 < u32_mod
      → items (settle s e i dist c).0.model.clusters ≡ items s.model.clusters + 1
  unfolding settle
  items-settle s e i dist c at h =
      let count = λ (x : Cluster W). x.n_matches + x.n_misses in
      let le = le-sum_of count s.model.clusters i at in
      omega (
        arith,
        sum_of-modify count s.model.clusters i (note_match e dist) at,
        items-note_match e dist c (omega arith),
      )

module _ {W : Type 0} ⦃D : Double W⦄ (ieee : IsIeee W) (junk : W) where
  pub identify_awake :
      (s : MinasState W) (e : Example W) {i : ℕ} {dist : W}
      → 0 < size s.model
      → nearest_cluster_val junk s.model.clusters e.val true ≡ (some i, dist)
      → identify junk s e ≡ settle_at s e (some i, dist)
  unfolding identify
  identify_awake s e h found = ground arith

  identify_again :
      (s : MinasState W) (e : Example W)
      → 0 < size s.model
      → (nearest_cluster_val junk s.model.clusters e.val true).0 ≡ none
      → let woken = restore_sleep s in
        identify junk s e
        ≡ settle_at woken e (nearest_cluster_val junk woken.model.clusters e.val false)
  unfolding identify
  identify_again s e h lost = ground arith

  -- `identify` settles on a cluster of the model as it is, or with all clusters woken.
  pub identify-settles :
      (s : MinasState W) (e : Example W)
      → 0 < size s.model
      → (s₀ : MinasState W) × (i : ℕ) × (c : Cluster W) × ((s₀ ≡ s) ⊎ (s₀ ≡ restore_sleep s))
        × (get_elem? s₀.model.clusters i ≡ some c)
        × (identify junk s e ≡ ok (settle s₀ e i (D.sqrt (distance_to e.val c)) c))
  identify-settles s e h = elim (nearest-cases ieee junk s.model.clusters e.val true) [
    | inr (i, c, found, at, on) ↦
        (s, i, c, inl refl, at, identify_awake s e h found ∙ settle_at-some s e i _ at)
    | inl lost ↦
        let woken = restore_sleep s in
        let (i, c, found, at, _) =
          nearest-found_all ieee junk woken.model.clusters e.val (rw size-restore_sleep h) in
        (
          woken,
          i,
          c,
          inr refl,
          at,
          identify_again s e h lost ∙ ap (settle_at woken e) found ∙ settle_at-some woken e i _ at,
        )
  ]

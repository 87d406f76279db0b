-- ===== src/Identify/Outcome.antt =====
-- What `identify` returns, and what it does to the model.
use minas_flink.Prelude.{
  ℕ, ◌+◌, ◌<◌, ◌≡◌, refl, sym, ap, ◌∙◌, ◌⊎◌, inl, inr, true, false, not, List, ◌∷◌, some, arith,
  get_elem?, get_elem?-modify, map-modify, map-map_same, if◌then◌else◌, u32_mod,
}
use minas_flink.Double.{Double, IsIeee}
use minas_flink.Data.{Example, Cluster, Match, MinasState, minas_unk_label, size, ok}
use minas_flink.Nearest.{nearest_cluster_val}
use minas_flink.Nearest.Reference.{distance_to}
use minas_flink.Nearest.Minimal.{AreNumbers, IsLeast, is_considered, nearest-IsLeast}
use minas_flink.KMeans.Total.{ids}
use minas_flink.Sleep.{restore_sleep, wake}
use minas_flink.Identify.{note_match, settle, identify}
use minas_flink.Identify.Settle.{
  items, items-restore_sleep, settle_at-some, items-settle, identify_awake, identify-settles,
}

-- The match that `identify` returns for the example, the state that it leaves, and the cluster that
-- it settled on, as it was before: in `s`, or in `s` with all clusters woken.
pub record IsDecision {W : Type 0} ⦃D : Double W⦄ (s : MinasState W) (e : Example W)
    (out : MinasState W × Match W) (c : Cluster W) : Type 0 where
  pub found :
      (get_elem? s.model.clusters out.1.cluster ≡ some c)
      ⊎ (get_elem? (restore_sleep s).model.clusters out.1.cluster ≡ some c)
  pub point : out.1.point_id ≡ e.id
  pub distance : out.1.distance ≡ D.sqrt (distance_to e.val c)
  pub matched : out.1.is_match ≡ D.le out.1.distance c.radius
  pub label : out.1.label ≡ (if out.1.is_match then c.label else minas_unk_label)
  pub noted : get_elem? out.0.model.clusters out.1.cluster ≡ some (note_match e out.1.distance c)
  pub same : ids out.0.model.clusters ≡ ids s.model.clusters
  pub counted : items out.0.model.clusters ≡ items s.model.clusters + 1

module _ {W : Type 0} ⦃D : Double W⦄ where
  note_match-id : (e : Example W) (dist : W) (c : Cluster W) → (note_match e dist c).id ≡ c.id
  unfolding note_match
  note_match-id e dist c = ground arith

  ids-restore_sleep :
      (s : MinasState W) → ids (restore_sleep s).model.clusters ≡ ids s.model.clusters
  unfolding restore_sleep wake
  ids-restore_sleep s =
      ground (arith, map-map_same (λ c. c.id) (wake s.curr_id) s.model.clusters (λ c. refl))

  -- Waking all clusters changes neither the counts nor the ids.
  roused :
      (s s₀ : MinasState W) (i : ℕ)
      → (s₀ ≡ s) ⊎ (s₀ ≡ restore_sleep s)
      → (items s₀.model.clusters ≡ items s.model.clusters)
        × (ids s₀.model.clusters ≡ ids s.model.clusters)
        × ((get_elem? s.model.clusters i ≡ get_elem? s₀.model.clusters i)
            ⊎ (get_elem? (restore_sleep s).model.clusters i ≡ get_elem? s₀.model.clusters i))
  roused s s₀ i (inl p) = (
    ap (λ t. items t.model.clusters) p,
    ap (λ t. ids t.model.clusters) p,
    inl (ap (λ t. get_elem? t.model.clusters i) (sym p)),
  )
  roused s s₀ i (inr p) = (
    ap (λ t. items t.model.clusters) p ∙ items-restore_sleep s,
    ap (λ t. ids t.model.clusters) p ∙ ids-restore_sleep s,
    inr (ap (λ t. get_elem? t.model.clusters i) (sym p)),
  )

  settle-IsDecision :
      (s s₀ : MinasState W) (e : Example W) (i : ℕ) (c : Cluster W)
      → (s₀ ≡ s) ⊎ (s₀ ≡ restore_sleep s)
      → get_elem? s₀.model.clusters i ≡ some c
      → items s.model.clusters + 1 < u32_mod
      → IsDecision s e (settle s₀ e i (D.sqrt (distance_to e.val c)) c) c
  unfolding settle
  settle-IsDecision s s₀ e i c from at small =
      let dist = D.sqrt (distance_to e.val c) in
      let (count, same, where_from) = roused s s₀ i from in
      record {
        found = elim where_from [ inl p ↦ inl (p ∙ at) | inr p ↦ inr (p ∙ at) ];
        point = refl;
        distance = refl;
        matched = refl;
        label = refl;
        noted = get_elem?-modify s₀.model.clusters i (note_match e dist) at;
        same =
            map-modify (λ (x : Cluster W). x.id) (note_match e dist) s₀.model.clusters i
              (note_match-id e dist)
            ∙ same;
        counted = items-settle s₀ e i dist c at (rw count small) ∙ ap (λ n. n + 1) count;
      }

module _ {W : Type 0} ⦃D : Double W⦄ (ieee : IsIeee W) (junk : W) where
  -- On a model that is not empty, whose counts add up to less than 2^32 - 1, `identify` returns,
  -- whatever `minDist` holds at the start, if the operations on doubles obey the laws of `IsIeee`.
  -- It labels the example with the label of a cluster if the example lies within the radius of
  -- that cluster, and with '-' if not; that cluster counts one match or one miss more, all counts
  -- add up to one more, and all clusters keep their ids.
  pub identify-IsDecision :
      (s : MinasState W) (e : Example W)
      → 0 < size s.model
      → items s.model.clusters + 1 < u32_mod
      → (out : MinasState W × Match W) × (c : Cluster W) × (identify junk s e ≡ ok out)
        × IsDecision s e out c
  identify-IsDecision s e h small =
      let (s₀, i, c, from, at, run) = identify-settles ieee junk s e h in
      (
        settle s₀ e i (D.sqrt (distance_to e.val c)) c,
        c,
        run,
        settle-IsDecision s s₀ e i c from at small,
      )

  -- If the first cluster is awake and no distance is NaN, then the cluster that `identify` settles on
  -- is awake and nearest to the example among the clusters that are awake, and the distance of the
  -- match is that to this cluster.
  pub identify-IsLeast :
      (s : MinasState W) (e : Example W) (first : Cluster W) (others : List (Cluster W))
      → s.model.clusters ≡ first ∷ others
      → first.is_sleep ≡ false
      → AreNumbers e.val (first ∷ others)
      → (out : MinasState W × Match W) × (c : Cluster W) × (identify junk s e ≡ ok out)
        × (get_elem? s.model.clusters out.1.cluster ≡ some c)
        × (c.is_sleep ≡ false)
        × (out.1.distance ≡ D.sqrt (distance_to e.val c))
        × IsLeast e.val true (distance_to e.val c) s.model.clusters
  unfolding settle
  identify-IsLeast s e first others split awake n =
      let on : is_considered true first ≡ true = ap not awake in
      let (i, c, found, at, on', least) = nearest-IsLeast ieee junk first others e.val true on n in
      let at' = ap (λ cs. get_elem? cs i) split ∙ at in
      let found' = ap (λ cs. nearest_cluster_val junk cs e.val true) split ∙ found in
      let dist = D.sqrt (distance_to e.val c) in
      (
        settle s e i dist c,
        c,
        identify_awake ieee junk s e (rw split (omega arith)) found'
            ∙ settle_at-some s e i dist at',
        at',
        ground arith,
        refl,
        rw split least,
      )

-- ===== src/Unknowns/Detect.antt =====
-- Novelty detection on the buffer of unknown examples: the body of the first `if` of
-- `minasHandleUnknown`.
use minas_flink.Prelude.{
  u32, ℕ, ◌-◌, ◌*◌, ◌≤◌, ◌<◌, ◌≡◌, refl, ap, ◌∙◌, sym, subst, Bool, List, ◌++◌, some, arith, length,
  get_elem?, filter_if, take, drop, length-map, drop-append, take_all, length-take, u32_mod, add32,
  sub64,
}
use minas_flink.Double.{Double, IsIeee}
use minas_flink.Data.{Cluster, Buffer, MinasParams, MinasState, size, Result, ok, fail}
use minas_flink.Nearest.Reference.{distance_to}
use minas_flink.Nearest.Minimal.{nearest-found_all}
use minas_flink.Sleep.{restore_sleep}
use minas_flink.Sleep.Frame.{size-restore_sleep, unknowns-restore_sleep}
use minas_flink.Novelty.Grows.{novelty_detection-grows}
use minas_flink.Unknowns.{
  Unknown, contents, to_example, examples, Verdict, kept, offset, judge_at, judge, detect_awake,
  detect_awake, detect_novelties,
}
use minas_flink.Unknowns.Owned.{IsOwned}
use minas_flink.Unknowns.Compact.{is_kept, held, compact-filter, length-contents}

abbrev to_verdict : Result Verdict → Verdict
to_verdict (ok v) = v
to_verdict (fail e) = kept

module _ {W : Type 0} ⦃D : Double W⦄ where
  judge_at-ok :
      (new : List (Cluster W)) (last_nd_check id i : ℕ) (dist : W) {c : Cluster W}
      → get_elem? new i ≡ some c
      → let r = judge_at new last_nd_check id (some i, dist) in r ≡ ok (to_verdict r)
  unfolding judge_at
  judge_at-ok new last_nd_check id i dist at = ground arith

module _ {W : Type 0} ⦃D : Double W⦄ (ieee : IsIeee W) (junk : W) where
  -- With a new cluster in the model the assertion on `nearest` holds.
  judge-ok :
      (new : List (Cluster W)) (last_nd_check : ℕ)
      → 0 < length new
      → (u : Unknown W)
      → judge junk new last_nd_check u ≡ ok (to_verdict (judge junk new last_nd_check u))
  unfolding judge
  judge-ok new last_nd_check h u =
      let (i, c, found, at, _) = nearest-found_all ieee junk new u.val h in
      rw found (judge_at-ok new last_nd_check u.id i (D.sqrt (distance_to u.val c)) at)

  -- Whether the loop keeps an example: no new cluster takes it in, and it is not older than the last
  -- check.
  abbrev pub stays : List (Cluster W) → ℕ → Unknown W → Bool
  stays new last_nd_check u = is_kept (to_verdict (judge junk new last_nd_check u))

  length-examples : (b : Buffer W) → b.used ≤ length b.slots → length (examples b) ≡ b.used
  unfolding examples
  length-examples b room =
      length-map to_example (held b) ∙ length-take b.used (contents b) (rw length-contents room)

  -- What the body has done when it ends, from the state after `restoreSleep`.
  pub record IsChecked (s : MinasState W) (s' : MinasState W) (n_new : ℕ) (new : List (Cluster W))
      : Type 0 where
    pub appended : s'.model.clusters ≡ s.model.clusters ++ new
    pub returned : length new ≡ n_new
    pub found : 0 < n_new
    pub owned : IsOwned s'.unknowns
    pub slots : length s'.unknowns.slots ≡ length s.unknowns.slots
    pub fewer : s'.unknowns.used ≤ s.unknowns.used
    pub filtered : held s'.unknowns ≡ filter_if (stays new s.last_nd_check) (held s.unknowns)
    pub dated : s'.last_nd_check ≡ s.curr_id

  detect_awake-ok :
      (params : MinasParams W) (s : MinasState W)
      → IsOwned s.unknowns
      → s.unknowns.used ≤ length s.unknowns.slots
      → s.unknowns.used < u32_mod
      → 0 < size s.model
      → 0 < params.k
      → params.k ≤ s.unknowns.used
      → params.k * params.min_examples_per_cluster ≤ s.unknowns.used
      → (s' : MinasState W) × (n_new : ℕ) × (new : List (Cluster W)) × (detect_awake junk params s
          ≡ ok (s', n_new))
        × IsChecked s s' n_new new
  unfolding detect_awake contents examples
  detect_awake-ok params s o room small some_model pos enough trigger =
      let u = s.unknowns in
      let len = length-examples u room in
      let word : u32 u.used ≡ u.used = omega arith in
      let (d, clusters, new, _, run, appended, adopted, counted, found, few) =
        novelty_detection-grows ieee junk params s.model s.next_label (examples u) some_model pos
          (rw len enough) (rw len trigger) (rw len small) in
      let n_new = add32 d.novelties d.extensions in
      let count : n_new ≡ length new = omega arith in
      let same : take n_new (drop (size s.model) d.model.clusters) ≡ new =
        ap (λ l. take n_new (drop (size s.model) l)) appended
        ∙ ap (take n_new) (drop-append s.model.clusters new (size s.model) refl)
        ∙ take_all new n_new count in
      let (b, t, run', owned, slots, used, kept_all, total) =
        compact-filter (judge junk new s.last_nd_check) _ u (judge-ok new s.last_nd_check found) o
          room in
      let left : sub64 b.used (offset t) ≡ u.used - offset t = omega arith in
      (
        record s {
          model = d.model;
          next_label = d.next_label;
          unknowns = record b { used = sub64 b.used (offset t) };
          last_nd_check = s.curr_id;
        },
        n_new,
        new,
        rw (word, run, same, run'),
        record {
          appended = appended;
          returned = sym count;
          found = omega arith;
          owned = record { pointers = owned.pointers; allocated = owned.allocated };
          slots = slots;
          fewer = omega arith;
          filtered = rw left kept_all;
          dated = refl;
        },
      )

  -- If the buffer holds at least `k` and at least `k * minExamplesPerCluster` examples, but fewer
  -- than 2^32 and at most its entries, each of which has a block of its own, the model is not
  -- empty, `k` is not 0, and the operations on doubles obey the laws of `IsIeee`, then novelty
  -- detection goes through: no assertion fails, at least one cluster is appended to the model,
  -- whose clusters `restoreSleep` has woken before, the buffer keeps in order just the examples
  -- that no new cluster takes in and that are not older than the last check, its entries still
  -- have blocks of their own, and the check is dated.
  pub detect_novelties-IsChecked :
      (params : MinasParams W) (s : MinasState W)
      → IsOwned s.unknowns
      → s.unknowns.used ≤ length s.unknowns.slots
      → s.unknowns.used < u32_mod
      → 0 < size s.model
      → 0 < params.k
      → params.k ≤ s.unknowns.used
      → params.k * params.min_examples_per_cluster ≤ s.unknowns.used
      → (s' : MinasState W) × (n_new : ℕ) × (new : List (Cluster W)) × (detect_novelties junk params
            s
          ≡ ok (s', n_new))
        × IsChecked (restore_sleep s) s' n_new new
  unfolding detect_novelties
  detect_novelties-IsChecked params s o room small some_model pos enough trigger =
      let same = sym (unknowns-restore_sleep s) in
      detect_awake-ok params (restore_sleep s) (subst IsOwned same o)
        (subst (λ (b : Buffer W). b.used ≤ length b.slots) same room)
        (subst (λ (b : Buffer W). b.used < u32_mod) same small) (rw size-restore_sleep some_model)
        pos (subst (λ (b : Buffer W). params.k ≤ b.used) same enough)
        (subst (λ (b : Buffer W). params.k * params.min_examples_per_cluster ≤ b.used) same trigger)

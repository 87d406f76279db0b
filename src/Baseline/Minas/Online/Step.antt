-- ===== src/Baseline/Minas/Online/Step.antt =====
-- A round of `minasOnline` never fails, and prints a line for its example.
use minas_flink.Prelude.{
  ℕ, ◌+◌, ◌*◌, ◌≤◌, ◌<◌, ◌≡◌, refl, ap, ◌∙◌, sym, subst, false, some, List, [], ◌∷◌, ◌++◌, arith,
  length, ◌==◌, if◌then◌else◌, u32_mod, add32, get_elem?, get_elem?-in, Bool-cases, inl, inr,
  length-append,
}
use mathlib.Core.List.{append-nil, append_assoc}
use minas_flink.Double.{Double}
use minas_flink.Data.{Example, ok}
use minas_flink.Baseline.{BaseParams, BaseCluster}
use minas_flink.Baseline.KMeans.Total.{nearest_val-found}
use minas_flink.Baseline.Minas.{BaseModel, Line, unk_label, label_within, base_identify}
use minas_flink.Baseline.Minas.Online.{OnlineState, trigger_of, is_due, take_unknown, online_one}
use minas_flink.Baseline.Minas.Online.Kept.{
  IsPlain, IsReady, IsStep, k-le, is_due-le, kept-IsStep, detected-IsStep, both-IsStep,
}

module _ {W : Type 0} ⦃D : Double W⦄ (params : BaseParams W) where
  take_unknown-IsStep :
      (junk : W) (e : Example W) (s : OnlineState W)
      → IsPlain params
      → IsReady params s
      → length e.val ≡ params.dim
      → length s.unknowns < s.id
      → s.id < u32_mod
      → (s' : OnlineState W) × (take_unknown junk params e s ≡ ok s') × IsStep params s s'
  unfolding take_unknown
  take_unknown-IsStep junk e s p v len fewer small =
      let (s₁, run, held, same, step) = kept-IsStep params e s v len fewer small in
      let trigger : trigger_of params ≡ params.min_examples_per_cluster * params.k =
        omega (arith, p.small) in
      let k_le = k-le params.min_examples_per_cluster params.k p.some_min in
      let some_trigger : (trigger_of params == 0) ≡ false =
        ground (arith, trigger, k_le, p.some_k) in
      elim (Bool-cases (is_due (trigger_of params) s₁)) [
        | inl due ↦
            let some_unknown : 0 < length s₁.unknowns = rw (held, length-append) (omega arith) in
            let reached =
              is_due-le params (trigger_of params) s₁ due (ground (arith, some_trigger))
                some_unknown in
            let full : params.min_examples_per_cluster * params.k ≤ length s₁.unknowns =
              subst (λ t. t ≤ length s₁.unknowns) trigger reached in
            let (s₂, run', step') =
              detected-IsStep params junk params.use_reclassification
                (record s₁ { last_nd_check = s₁.id }) p
                (record {
                  some_model = step.ready.some_model;
                  room = step.ready.room;
                  bounded = step.ready.bounded;
                  taken = step.ready.taken;
                  dims = step.ready.dims;
                })
                (rw step.id small) full in
            (
              s₂,
              rw (run, some_trigger, due) run',
              both-IsStep params s s₁ s₂ step (record {
                ready = step'.ready;
                grown = step'.grown;
                printed = step'.printed;
                id = step'.id;
              }),
            )
        | inr later ↦ (s₁, rw (run, some_trigger, later) refl, step)
      ]

  label_within-at :
      (cs : List (BaseCluster W)) (i : ℕ) (dist : W) (c : BaseCluster W)
      → get_elem? cs i ≡ some c
      → label_within cs (some i, dist) ≡ ok (if D.le dist c.radius then c.label else unk_label)
  unfolding label_within
  label_within-at cs i dist c at = rw (label_within, at) refl

  base_identify-ok :
      (junk : W) (m : BaseModel W) (val : List W)
      → 0 < length m.clusters
      → (label : ℕ) × (base_identify junk m val ≡ ok label)
  unfolding base_identify
  base_identify-ok junk m val h =
      let (i, dist, found, lt) = nearest_val-found junk m.clusters val h in
      let (c, at) = get_elem?-in m.clusters i lt in
      (
        if D.le dist c.radius then c.label else unk_label,
        ap (label_within m.clusters) found ∙ label_within-at m.clusters i dist c at,
      )

  pub online_one-IsStep :
      (junk : W) (val : List W) (s : OnlineState W)
      → IsPlain params
      → IsReady params s
      → length val ≡ params.dim
      → s.id + 1 < u32_mod
      → (label : ℕ) × (lines : List Line) × (new : List (BaseCluster W)) × (s' : OnlineState W)
        × (base_identify junk s.model val ≡ ok label)
        × (online_one junk params val s ≡ ok s')
        × (s'.output ≡ s.output ++ (record { point_id = s.id; label = label } ∷ lines))
        × (s'.model.clusters ≡ s.model.clusters ++ new)
        × (s'.id ≡ s.id + 1)
        × IsReady params s'
  unfolding online_one
  online_one-IsStep junk val s p v len small =
      let (label, identified) = base_identify-ok junk s.model val v.some_model in
      let line : Line = record { point_id = s.id; label = label } in
      let s₁ : OnlineState W = record s { id = add32 s.id 1; output = s.output ++ (line ∷ []) } in
      let next : s₁.id ≡ s.id + 1 = omega arith in
      let v₁ : IsReady params s₁ = record {
        some_model = v.some_model;
        room = v.room;
        bounded = v.bounded;
        taken = omega (arith, v.taken, next);
        dims = v.dims;
      } in
      elim (Bool-cases (label == unk_label)) [
        | inl unknown ↦
            let (s', run, step) =
              take_unknown-IsStep junk (record { id = s.id; label = 0; val = val }) s₁ p v₁ len
                (omega (arith, v.taken, next)) (omega (arith, next)) in
            let (new, grown) = step.grown in
            let (lines, printed) = step.printed in
            (
              label,
              lines,
              new,
              s',
              identified,
              rw (identified, unknown) run,
              printed ∙ append_assoc s.output (line ∷ []) lines,
              grown,
              step.id ∙ next,
              step.ready,
            )
        | inr known ↦ (
          label,
          [],
          [],
          s₁,
          identified,
          rw (identified, known) refl,
          refl,
          sym (append-nil s.model.clusters),
          next,
          v₁,
        )
      ]

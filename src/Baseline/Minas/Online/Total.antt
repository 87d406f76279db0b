-- ===== src/Baseline/Minas/Online/Total.antt =====
-- The loop of `minasOnline` never fails, and prints a line for each example.
use minas_flink.Prelude.{
  ℕ, ◌+◌, ◌*◌, ◌<◌, ◌≡◌, refl, ap, ◌∙◌, sym, subst, List, [], ◌∷◌, ◌++◌, arith, length, u32_mod,
  All,
}
use mathlib.Core.List.{append-nil, append_assoc}
use minas_flink.Double.{Double}
use minas_flink.Data.{ok}
use minas_flink.Baseline.{BaseParams, BaseCluster}
use minas_flink.Baseline.Minas.{BaseModel, Line}
use minas_flink.Baseline.Minas.Online.{OnlineState, trigger_of, online_all}
use minas_flink.Baseline.Minas.Online.{start_online}
use minas_flink.Baseline.Minas.Online.Kept.{IsPlain, IsReady, k-le}
use minas_flink.Baseline.Minas.Online.Step.{online_one-IsStep}

module _ {W : Type 0} where
  -- A line for each example, with its number, in order; there may be other lines between.
  abbrev pub Prints : ℕ → List (List W) → List Line → Type 0
  Prints id [] lines = Unit
  Prints id (val ∷ vals) lines =
      (label : ℕ) × (others : List Line) × (rest : List Line) × (lines
        ≡ record { point_id = id; label = label } ∷ (others ++ rest))
      × Prints (id + 1) vals rest

module _ {W : Type 0} ⦃D : Double W⦄ (junk : W) (params : BaseParams W) where
  online_all-IsReady :
      (vals : List (List W)) (s : OnlineState W)
      → IsPlain params
      → IsReady params s
      → All (λ val. length val ≡ params.dim) vals
      → s.id + length vals < u32_mod
      → (s' : OnlineState W) × (new : List (BaseCluster W)) × (lines : List Line) × (online_all junk
            params vals s
          ≡ ok s')
        × (s'.model.clusters ≡ s.model.clusters ++ new)
        × (s'.output ≡ s.output ++ lines)
        × Prints s.id vals lines
        × IsReady params s'
  unfolding online_all
  online_all-IsReady [] s p v lens small =
      (s, [], [], refl, sym (append-nil s.model.clusters), sym (append-nil s.output), tt, v)
  online_all-IsReady (val ∷ vals) s p v (len, lens) small =
      let (label, others, new, s₁, identified, run, printed, grown, next, v₁) =
        online_one-IsStep params junk val s p v len (omega arith) in
      let (s', new', rest, run', grown', printed', prints, v') =
        online_all-IsReady vals s₁ p v₁ lens (omega (arith, next)) in
      let line : Line = record { point_id = s.id; label = label } in
      (
        s',
        new ++ new',
        line ∷ (others ++ rest),
        rw run run',
        grown' ∙ ap (λ l. l ++ new') grown ∙ append_assoc s.model.clusters new new',
        printed' ∙ ap (λ l. l ++ rest) printed ∙ append_assoc s.output (line ∷ others) rest,
        (label, others, rest, refl, subst (λ n. Prints n vals rest) next prints),
        v',
      )

  start-IsReady :
      (model : BaseModel W)
      → IsPlain params
      → 0 < length model.clusters
      → IsReady params (start_online params model)
  unfolding start_online
  start-IsReady model p some_model =
      let k_le = k-le params.min_examples_per_cluster params.k p.some_min in
      let same : trigger_of params ≡ params.min_examples_per_cluster * params.k =
        omega (arith, p.small) in
      record {
        some_model = some_model;
        room = omega (arith, same, k_le, p.some_k);
        bounded = omega (arith, same, p.small);
        taken = omega arith;
        dims = tt;
      }

  -- With k-means in place of CluStream, `k` and `minExamplesPerCluster` above 0 with a product below
  -- 2^32, a model that is not empty, and fewer than 2^32 examples of `dim` values, the loop of
  -- `minasOnline` ends without a failure: no write is past the end of the buffer, and each detection
  -- finds a new cluster. It keeps the clusters of the model, and prints a line for each example, with its
  -- number, in order.
  pub online_all-Prints :
      (model : BaseModel W) (vals : List (List W))
      → IsPlain params
      → 0 < length model.clusters
      → All (λ val. length val ≡ params.dim) vals
      → length vals < u32_mod
      → (s' : OnlineState W) × (new : List (BaseCluster W)) × (online_all junk params vals
            (start_online params model)
          ≡ ok s')
        × (s'.model.clusters ≡ model.clusters ++ new)
        × Prints 0 vals s'.output
  unfolding start_online
  online_all-Prints model vals p some_model lens small =
      let (s', new, lines, run, grown, printed, prints, v) =
        online_all-IsReady vals (start_online params model) p (start-IsReady model p some_model)
          lens (omega (arith, small)) in
      (s', new, run, grown, subst (Prints 0 vals) (sym printed) prints)

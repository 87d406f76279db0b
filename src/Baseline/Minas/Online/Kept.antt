-- ===== src/Baseline/Minas/Online/Kept.antt =====
-- What `minasOnline` does with an unknown example keeps room for the next.
use minas_flink.Prelude.{
  ℕ, zero, suc, ◌+◌, ◌*◌, ◌%◌, ◌≤◌, ◌<◌, ◌≡◌, refl, ap, ◌∙◌, sym, Bool, true, false, List, [], ◌∷◌,
  ◌++◌, arith, length, ltb, leb, ◌==◌, if◌then◌else◌, u32_mod, u64_mod, Bool-cases, inl, inr,
  All-append, length-append,
}
use mathlib.Core.List.{append-nil, append_assoc}
use native.Mathlib.Nat.{mod-eq_of_lt}
use minas_flink.Double.{Double}
use minas_flink.Data.{Example, ok}
use minas_flink.Baseline.{BaseParams, BaseCluster}
use minas_flink.Baseline.KMeans.Total.{HaveDim}
use minas_flink.Baseline.Minas.{Line}
use minas_flink.Baseline.Minas.Online.{OnlineState, keep_unknown, is_due, detect_online}
use minas_flink.Baseline.Minas.Online.Clusters.{detect_online-ok}

-- The parameters with k-means in place of CluStream, and a trigger that does not wrap.
pub record IsPlain {W : Type 0} (params : BaseParams W) : Type 0 where
  pub plain : params.use_clu_stream ≡ false
  pub some_k : 0 < params.k
  pub some_min : 0 < params.min_examples_per_cluster
  pub small : params.min_examples_per_cluster * params.k < u32_mod

trigger-le : (t n : ℕ) → 0 < n → 0 < t → (n % t) == 0 ≡ true → t ≤ n
trigger-le t n some_n some_t due = elim (Bool-cases (ltb n t)) [
  | inl less ↦
      let same : n % t ≡ n = mod-eq_of_lt (ground (arith, less)) in
      absurd (ground (arith, due, same, some_n))
  | inr more ↦ ground (arith, more)
]

pub k-le : (m k : ℕ) → 0 < m → k ≤ m * k
k-le zero k h = absurd (omega arith)
k-le (suc m) k h = omega arith

module _ {W : Type 0} ⦃D : Double W⦄ (params : BaseParams W) where
  -- The model has clusters, and the buffer has room for an example.
  pub record IsReady (s : OnlineState W) : Type 0 where
    pub some_model : 0 < length s.model.clusters
    pub room : length s.unknowns < s.max_size
    pub bounded : s.max_size < 2 * u32_mod
    pub taken : length s.unknowns ≤ s.id
    pub dims : HaveDim params.dim s.unknowns

  -- The model has grown, and the buffer has room for an example again.
  pub record IsStep (s s' : OnlineState W) : Type 0 where
    pub ready : IsReady s'
    pub grown : (new : List (BaseCluster W)) × (s'.model.clusters ≡ s.model.clusters ++ new)
    pub printed : (lines : List Line) × (s'.output ≡ s.output ++ lines)
    pub id : s'.id ≡ s.id

  pub is_due-le :
      (t : ℕ) (s : OnlineState W)
      → is_due t s ≡ true
      → 0 < t
      → 0 < length s.unknowns
      → t ≤ length s.unknowns
  unfolding is_due
  is_due-le t s due some_t some_n =
      trigger-le t (length s.unknowns) some_n some_t (ground (arith, due))

  pub kept-IsStep :
      (e : Example W) (s : OnlineState W)
      → IsReady s
      → length e.val ≡ params.dim
      → length s.unknowns < s.id
      → s.id < u32_mod
      → (s' : OnlineState W) × (keep_unknown e s ≡ ok s')
        × (s'.unknowns ≡ s.unknowns ++ (e ∷ []))
        × (s'.model ≡ s.model)
        × IsStep s s'
  unfolding keep_unknown
  kept-IsStep e s v len fewer small =
      let unknowns = s.unknowns ++ (e ∷ []) in
      let more : length unknowns ≡ length s.unknowns + 1 = length-append s.unknowns (e ∷ []) in
      let max_size' =
        if leb s.max_size (length unknowns) then (s.max_size * 2) % u64_mod else s.max_size in
      let open_room : leb s.max_size (length s.unknowns) ≡ false = ground (arith, v.room) in
      let room' : length unknowns < max_size' = ground (arith, v.room, v.bounded, more) in
      let bounded' : max_size' < 2 * u32_mod =
        ground (arith, v.room, v.bounded, more, fewer, small) in
      (
        record s { unknowns = unknowns; max_size = max_size' },
        rw open_room refl,
        refl,
        refl,
        record {
          ready = record {
            some_model = v.some_model;
            room = room';
            bounded = bounded';
            taken = omega (arith, more);
            dims = All-append (λ x. length x.val ≡ params.dim) s.unknowns (e ∷ []) v.dims (len, tt);
          };
          grown = ([], sym (append-nil s.model.clusters));
          printed = ([], sym (append-nil s.output));
          id = refl;
        },
      )

  -- A detection that is due goes through.
  pub detected-IsStep :
      (junk : W) (prints : Bool) (s : OnlineState W)
      → IsPlain params
      → IsReady s
      → s.id < u32_mod
      → params.min_examples_per_cluster * params.k ≤ length s.unknowns
      → (s' : OnlineState W) × (detect_online junk params prints s ≡ ok s') × IsStep s s'
  detected-IsStep junk prints s p v small full =
      let k_le = k-le params.min_examples_per_cluster params.k p.some_min in
      let (m', new, r, run, appended, fewer) =
        detect_online-ok junk params prints s p.plain v.some_model p.some_k (omega arith) full
          (omega (arith, v.taken)) v.dims in
      (
        record s { model = m'; unknowns = r.kept; output = s.output ++ r.lines },
        run,
        record {
          ready = record {
            some_model = rw (appended, length-append) (omega (arith, v.some_model));
            room = omega (arith, v.room, fewer.fewer);
            bounded = v.bounded;
            taken = omega (arith, v.taken, fewer.fewer);
            dims = fewer.dims;
          };
          grown = (new, appended);
          printed = (r.lines, refl);
          id = refl;
        },
      )

  pub both-IsStep : (s t u : OnlineState W) → IsStep s t → IsStep t u → IsStep s u
  both-IsStep s t u a b =
      let (new, grown) = a.grown in
      let (new', grown') = b.grown in
      let (lines, printed) = a.printed in
      let (lines', printed') = b.printed in
      record {
        ready = b.ready;
        grown = (
          new ++ new',
          grown' ∙ ap (λ l. l ++ new') grown ∙ append_assoc s.model.clusters new new',
        );
        printed = (
          lines ++ lines',
          printed' ∙ ap (λ l. l ++ lines') printed ∙ append_assoc s.output lines lines',
        );
        id = b.id ∙ a.id;
      }

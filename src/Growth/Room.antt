-- ===== src/Growth/Room.antt =====
-- The block of the model has room for every cluster that is added.
use minas_flink.Prelude.{
  ℕ, suc, ◌+◌, ◌%◌, ◌≤◌, ◌<◌, ◌≡◌, refl, ap, sym, add32, ◌∙◌, Bool, true, false, [], ◌∷◌, ◌++◌,
  arith, length, take, ltb, leb, ◌==◌, ◌&&◌, u32_mod, inl, inr, Bool-cases, ◌⊎◌, modify-append,
  lt→ltb, length-append,
}
use native.Mathlib.Decide.{ℕ_discrete}
use native.Mathlib.Nat.{add-mod_right}
use minas_flink.Data.{Cluster, Model, MinasParams, MinasState, size, ok, fail, out_of_bounds}
use minas_flink.Double.{Double}
use minas_flink.Novelty.{append_cluster}
use minas_flink.Growth.{
  grow, mark, mark_at, label_after, put_cluster, add_cluster, read_cluster_line,
}

-- The block of a model has room for a multiple of `k` clusters.
pub record IsStepped {W : Type 0} (k : ℕ) (m : Model W) : Type 0 where
  pub stepped : m.room % k ≡ 0
  pub started : 0 < m.room
  pub fits : size m ≤ m.room

full_lem : (n k : ℕ) → ltb 0 n && (n % k) == 0 ≡ true → (0 < n) × (n % k ≡ 0)
full_lem n k h = ground arith

free_lem :
    (n k room : ℕ) → ltb 0 n && (n % k) == 0 ≡ false → room % k ≡ 0 → 0 < room → n ≤ room → n < room
free_lem n k room free h pos le = elim (ℕ_discrete n room) [
  | yes e ↦
      let some_n : 0 < n = omega arith in
      let divides : n % k ≡ 0 = ap (λ j. j % k) e ∙ h in ground arith
  | no ne ↦ omega arith
]

pub clusters-grow : {W : Type 0} (k : ℕ) (m : Model W) → (grow k m).clusters ≡ m.clusters
unfolding grow
clusters-grow k m = ground arith

pub grow-IsStepped :
    {W : Type 0} (k : ℕ) (m : Model W)
    → 0 < k
    → size m + k < u32_mod
    → IsStepped k m
    → IsStepped k (grow k m) × (size m < (grow k m).room)
unfolding grow
grow-IsStepped k m pos small h = elim (Bool-cases (ltb 0 (size m) && (size m % k) == 0)) [
  | inl full ↦
      let (some_size, divides) = full_lem (size m) k full in
      let room : add32 (size m) k ≡ size m + k = omega arith in
      rw full (
        record {
          stepped = ap (λ n. n % k) room ∙ add-mod_right (size m) k ∙ divides;
          started = omega arith;
          fits = omega arith;
        },
        omega arith,
      )
  | inr free ↦ rw free (h, free_lem (size m) k m.room free h.stepped h.started h.fits)
]

module _ {W : Type 0} (beyond : ℕ → Bool) (params : MinasParams W) where
  abbrev pub added : MinasState W → Cluster W → MinasState W
  added s c = put_cluster beyond params (record s { model = grow params.k s.model }) c

  pub add_cluster-ok :
      (s : MinasState W) (c : Cluster W)
      → 0 < params.k
      → size s.model < (grow params.k s.model).room
      → add_cluster beyond params s c ≡ ok (added s c)
  unfolding add_cluster
  add_cluster-ok s c pos room =
      let some_k : ltb 0 (size s.model) && params.k == 0 ≡ false = ground arith in
      let len = ap length (clusters-grow params.k s.model) in
      let fits = lt→ltb (size (grow params.k s.model)) (grow params.k s.model).room (rw len room) in
      rw (some_k, fits) refl

  -- A line 'C' adds the cluster or is skipped.
  pub read_line-cases :
      (interest : Bool) (s : MinasState W) (c : Cluster W)
      → 0 < params.k
      → size s.model < (grow params.k s.model).room
      → (leb (size s.model) c.id ≡ false) × (read_cluster_line beyond interest params s c ≡ ok s)
        ⊎ (s' : MinasState W) × (leb (size s.model) c.id ≡ true)
          × (read_cluster_line beyond interest params s c ≡ ok s')
          × (s'.model.clusters
              ≡ s.model.clusters
                ++ (mark interest s.curr_id (record c { center = take params.dim c.center }) ∷ []))
          × (s'.model.room ≡ (grow params.k s.model).room)
          × (s'.next_label ≡ label_after beyond s.next_label c.label)
          × (s'.curr_id ≡ s.curr_id)
  unfolding read_cluster_line put_cluster mark_at
  read_line-cases interest s c pos room =
      let run = add_cluster-ok s c pos room in
      let copied = record c { center = take params.dim c.center } in
      let same = clusters-grow params.k s.model in
      elim (Bool-cases (leb (size s.model) c.id)) [
        | inr known ↦ inl (known, rw known refl)
        | inl new ↦ inr (
          mark_at interest (size s.model) (added s c),
          new,
          rw (new, run) refl,
          modify-append (grow params.k s.model).clusters copied [] (size s.model)
                (mark interest s.curr_id) (sym (ap length same))
              ∙ ap (λ l. l ++ (mark interest s.curr_id copied ∷ [])) same,
          refl,
          refl,
          refl,
        )
      ]

-- After `noveltyDetection` has appended a cluster, `addCluster` writes past the end of the block,
-- if `k` is not 0 and does not divide the number of the clusters by then.
pub add_cluster-append_cluster :
    {W : Type 0} ⦃D : Double W⦄ (beyond : ℕ → Bool) (params : MinasParams W) (s : MinasState W)
    (found c : Cluster W)
    → 0 < params.k
    → 0 < suc (size s.model) % params.k
    → add_cluster beyond params (record s { model = append_cluster s.model found }) c
      ≡ fail out_of_bounds
unfolding add_cluster append_cluster grow
add_cluster-append_cluster beyond params s found c pos odd =
    let len = length-append s.model.clusters (record found { id = size s.model } ∷ []) in
    let size' : length (s.model.clusters ++ (record found { id = size s.model } ∷ []))
        ≡ suc (size s.model) =
      len ∙ omega arith in
    rw size' (ground arith)

-- ===== src/Mpi/Receiver/Replica.antt =====
-- The clusters that are received make up the model.
use mathlib.Core.List.{append-nil, append_assoc}
use minas_flink.Prelude.{
  ℕ, suc, ◌+◌, ◌<◌, ◌≡◌, refl, ap, sym, ◌∙◌, subst, Bool, false, not, ◌&&◌, List, [], ◌∷◌, ◌++◌,
  map, take, arith, length, length-append, ltb, leb, ◌==◌, if◌then◌else◌, u32_mod,
}
use minas_flink.Data.{Cluster, MinasParams, size, ok}
use minas_flink.Growth.{put_cluster}
use minas_flink.Growth.Room.{IsStepped, grow-IsStepped, clusters-grow, added, add_cluster-ok}
use minas_flink.Mpi.{mfog_eos_marker}
use minas_flink.Mpi.Receiver.{Leaf, post_ready, receive_cluster, receive}

module _ {W : Type 0} (n_classifiers : ℕ) (params : MinasParams W) where
  -- A cluster as it is stored.
  abbrev pub stored : Cluster W → Cluster W
  stored c = record c { center = take params.dim c.center }

  -- The clusters have the ids from `n` on, and no label is the end of the stream.
  abbrev pub AreNext : ℕ → List (Cluster W) → Type 0
  AreNext n [] = Unit
  AreNext n (c ∷ cs) = (c.id ≡ n) × (c.label == mfog_eos_marker ≡ false) × AreNext (suc n) cs

  -- Whether the model is completed by `len` clusters more than `n`.
  abbrev pub completes : ℕ → ℕ → Bool
  completes n len = ltb n params.k && leb params.k (n + len)

  ready_step :
      (n len r r₁ r₂ : ℕ)
      → r₁ ≡ (if suc n == params.k then r + n_classifiers else r)
      → r₂ ≡ (if completes (suc n) len then r₁ + n_classifiers else r₁)
      → r₂ ≡ (if completes n (suc len) then r + n_classifiers else r)
  ready_step n len r r₁ r₂ e e' = ground arith

  module _ (beyond : ℕ → Bool) where
    receive_cluster-stored :
        (leaf : Leaf W) (c : Cluster W)
        → 0 < params.k
        → size leaf.state.model + params.k < u32_mod
        → c.id ≡ size leaf.state.model
        → IsStepped params.k leaf.state.model
        → (leaf' : Leaf W) × (receive_cluster beyond n_classifiers params leaf c ≡ ok leaf')
          × (leaf'.state.model.clusters ≡ leaf.state.model.clusters ++ (stored c ∷ []))
          × IsStepped params.k leaf'.state.model
          × (size leaf'.state.model ≡ suc (size leaf.state.model))
          × (leaf'.ready ≡ (
              if suc (size leaf.state.model) == params.k
              then leaf.ready + n_classifiers
              else leaf.ready))
    unfolding receive_cluster put_cluster post_ready
    receive_cluster-stored leaf c pos small next v =
        let (grown, room) = grow-IsStepped params.k leaf.state.model pos small v in
        let run = add_cluster-ok beyond params leaf.state c pos room in
        let right : not (c.id == size leaf.state.model) ≡ false = ground arith in
        let s = added beyond params leaf.state c in
        let clusters : s.model.clusters ≡ leaf.state.model.clusters ++ (stored c ∷ []) =
          ap (λ l. l ++ (stored c ∷ [])) (clusters-grow params.k leaf.state.model) in
        let len : size s.model ≡ suc (size leaf.state.model) =
          ap length clusters
          ∙ length-append leaf.state.model.clusters (stored c ∷ [])
          ∙ omega arith in
        (
          post_ready n_classifiers params leaf s,
          rw (right, run) refl,
          clusters,
          record { stepped = grown.stepped; started = grown.started; fits = rw len room },
          len,
          rw len refl,
        )

    -- If the broadcast clusters have the ids from the size of the model on, no label is that of the end
    -- of the stream, `k` is not 0, the clusters and `k` together are below 2^32, and the block of the
    -- model has room for a multiple of `k` clusters, then `m_receiver` gets through: no assertion fails,
    -- no write leaves the block, the model has the clusters added in order, and the semaphore is
    -- posted once for each classifier if they complete the model, and not at all if they do not.
    pub receive-stored :
        (cs : List (Cluster W)) (leaf : Leaf W)
        → 0 < params.k
        → size leaf.state.model + length cs + params.k < u32_mod
        → AreNext (size leaf.state.model) cs
        → IsStepped params.k leaf.state.model
        → (leaf' : Leaf W) × (receive beyond n_classifiers params leaf cs ≡ ok leaf')
          × (leaf'.state.model.clusters ≡ leaf.state.model.clusters ++ map stored cs)
          × IsStepped params.k leaf'.state.model
          × (leaf'.ready ≡ (
              if completes (size leaf.state.model) (length cs)
              then leaf.ready + n_classifiers
              else leaf.ready))
    unfolding receive
    receive-stored [] leaf pos small next v =
        let none_new : completes (size leaf.state.model) 0 ≡ false = ground arith in
        (leaf, refl, sym (append-nil leaf.state.model.clusters), v, rw none_new refl)
    receive-stored (c ∷ cs) leaf pos small (id, open_stream, next) v =
        let n = size leaf.state.model in
        let (leaf₁, run, clusters, v₁, size₁, ready₁) =
          receive_cluster-stored leaf c pos (omega arith) id v in
        let (leaf', run', clusters', v', ready') =
          receive-stored cs leaf₁ pos (omega arith) (subst (λ i. AreNext i cs) (sym size₁) next)
            v₁ in
        let ready_all : leaf'.ready
            ≡ (if completes n (suc (length cs)) then leaf.ready + n_classifiers else leaf.ready) =
          ready_step n (length cs) leaf.ready leaf₁.ready leaf'.ready ready₁
            (rw (← size₁) ready') in
        (
          leaf',
          rw (open_stream, run) run',
          clusters'
              ∙ ap (λ l. l ++ map stored cs) clusters
              ∙ append_assoc leaf.state.model.clusters (stored c ∷ []) (map stored cs),
          v',
          ready_all,
        )

-- ===== src/Mpi/Sampler/Clusters.antt =====
-- The clusters that the sampler broadcasts make the same model in the other processes.
use mathlib.Core.List.{append-nil, append_assoc}
use minas_flink.Prelude.{
  drop-append, ℕ, zero, suc, ◌+◌, ◌%◌, ◌<◌, ◌≡◌, refl, ap, ap₂, sym, ◌∙◌, subst, Bool, List, [],
  ◌∷◌, ◌++◌, map, take, drop, arith, length, length-append, length-map, if◌then◌else◌, u32_mod, inl,
  inr,
}
use minas_flink.Data.{Cluster, MinasParams, MinasState, size, ok}
use minas_flink.Growth.{mark}
use minas_flink.Growth.Room.{IsStepped, grow-IsStepped, read_line-cases}
use minas_flink.Growth.Read.{as_read}
use minas_flink.Mpi.Sampler.{take_cluster, take_clusters}
use minas_flink.Mpi.Receiver.{Leaf, receive}
use minas_flink.Mpi.Receiver.Replica.{stored, AreNext, completes, receive-stored}

take_twice : {A : Type 0} (n : ℕ) (xs : List A) → take n (take n xs) ≡ take n xs
take_twice zero xs = refl
take_twice (suc n) [] = refl
take_twice (suc n) (x ∷ xs) = ap (λ l. x ∷ l) (take_twice n xs)

module _ {W : Type 0} (beyond : ℕ → Bool) (interest : Bool) (params : MinasParams W) where
  take_cluster-new :
      (s : MinasState W) (broadcast : List (Cluster W)) (c : Cluster W)
      → 0 < params.k
      → size s.model + params.k < u32_mod
      → c.id ≡ size s.model
      → IsStepped params.k s.model
      → let x = as_read interest params s.curr_id c in
        (s' : MinasState W) × (take_cluster beyond interest params (s, broadcast) c
          ≡ ok (s', broadcast ++ (x ∷ [])))
        × (s'.model.clusters ≡ s.model.clusters ++ (x ∷ []))
        × IsStepped params.k s'.model
        × (size s'.model ≡ suc (size s.model))
        × (s'.curr_id ≡ s.curr_id)
  unfolding take_cluster mark
  take_cluster-new s broadcast c pos small id v =
      let (grown, room) = grow-IsStepped params.k s.model pos small v in
      elim (read_line-cases beyond params interest s c pos room) [
        | inl (known, run) ↦ absurd (ground arith)
        | inr (s₁, new, run, clusters, room₁, next, curr) ↦
            let x = as_read interest params s.curr_id c in
            let size₁ : size s₁.model ≡ suc (size s.model) =
              ap length clusters ∙ length-append s.model.clusters (x ∷ []) ∙ omega arith in
            let sent : drop (size s.model) s₁.model.clusters ≡ x ∷ [] =
              ap (drop (size s.model)) clusters
              ∙ drop-append s.model.clusters (x ∷ []) (size s.model) refl in
            (
              s₁,
              rw (run, sent) refl,
              clusters,
              record {
                stepped = ap (λ n. n % params.k) room₁ ∙ grown.stepped;
                started = omega (arith, grown.started);
                fits = omega arith;
              },
              size₁,
              curr,
            )
      ]

  -- The clusters with the ids from the size of the model on, as they are broadcast.
  abbrev copies : ℕ → List (Cluster W) → List (Cluster W)
  copies curr_id cs = map (as_read interest params curr_id) cs

  take_clusters-new :
      (n_classifiers : ℕ) (cs : List (Cluster W)) (s : MinasState W) (broadcast : List (Cluster W))
      → 0 < params.k
      → size s.model + length cs + params.k < u32_mod
      → AreNext n_classifiers params (size s.model) cs
      → IsStepped params.k s.model
      → (s' : MinasState W) × (take_clusters beyond interest params (s, broadcast) cs
          ≡ ok (s', broadcast ++ copies s.curr_id cs))
        × (s'.model.clusters ≡ s.model.clusters ++ copies s.curr_id cs)
        × IsStepped params.k s'.model
  unfolding take_clusters
  take_clusters-new n_classifiers [] s broadcast pos small next v =
      (s, ap (λ l. ok (s, l)) (sym (append-nil broadcast)), sym (append-nil s.model.clusters), v)
  take_clusters-new n_classifiers (c ∷ cs) s broadcast pos small (id, open_stream, next) v =
      let x = as_read interest params s.curr_id c in
      let (s₁, run, clusters, v₁, size₁, curr) =
        take_cluster-new s broadcast c pos (omega arith) id v in
      let (s', run', clusters', v') =
        take_clusters-new n_classifiers cs s₁ (broadcast ++ (x ∷ [])) pos (omega arith)
          (subst (λ i. AreNext n_classifiers params i cs) (sym size₁) next) v₁ in
      let rest = ap (λ i. copies i cs) curr in
      (
        s',
        rw run (
            run'
            ∙ ap (λ l. ok (s', broadcast ++ (x ∷ []) ++ l)) rest
            ∙ ap (λ l. ok (s', l)) (append_assoc broadcast (x ∷ []) (copies s.curr_id cs))),
        clusters'
            ∙ ap₂ ◌++◌ clusters rest
            ∙ append_assoc s.model.clusters (x ∷ []) (copies s.curr_id cs),
        v',
      )

  AreNext-copies :
      (n_classifiers curr_id n : ℕ) (cs : List (Cluster W))
      → AreNext n_classifiers params n cs
      → AreNext n_classifiers params n (copies curr_id cs)
  unfolding mark
  AreNext-copies n_classifiers curr_id n [] next = tt
  AreNext-copies n_classifiers curr_id n (c ∷ cs) (id, open_stream, next) =
      (id, open_stream, AreNext-copies n_classifiers curr_id (suc n) cs next)

  stored-copies :
      (n_classifiers curr_id : ℕ) (cs : List (Cluster W))
      → map (stored n_classifiers params) (copies curr_id cs) ≡ copies curr_id cs
  unfolding mark
  stored-copies n_classifiers curr_id [] = refl
  stored-copies n_classifiers curr_id (c ∷ cs) =
      ap₂ ◌∷◌
        (ap (λ l. record (as_read interest params curr_id c) { center = l })
          (take_twice params.dim c.center))
        (stored-copies n_classifiers curr_id cs)

  -- The sampler takes lines with clusters whose ids go on from the size of its model, and another
  -- process, whose model has the same clusters, receives what it broadcasts. If no label is that of the
  -- end of the stream, `k` is not 0, the clusters and `k` together are below 2^32, and both models have
  -- room for a multiple of `k` clusters, then neither fails, and both models have the same clusters
  -- again, as many more as lines, with room for a multiple of `k`. The receiver wakes each of its
  -- classifiers once if the clusters complete its model.
  pub take_clusters-receive :
      (n_classifiers : ℕ) (cs : List (Cluster W)) (s : MinasState W) (leaf : Leaf W)
      → leaf.state.model.clusters ≡ s.model.clusters
      → 0 < params.k
      → size s.model + length cs + params.k < u32_mod
      → AreNext n_classifiers params (size s.model) cs
      → IsStepped params.k s.model
      → IsStepped params.k leaf.state.model
      → (s' : MinasState W) × (sent : List (Cluster W)) × (leaf' : Leaf W) × (take_clusters beyond
            interest params
            (s, [])
            cs
          ≡ ok (s', sent))
        × (receive beyond n_classifiers params leaf sent ≡ ok leaf')
        × (leaf'.state.model.clusters ≡ s'.model.clusters)
        × (size s'.model ≡ size s.model + length cs)
        × IsStepped params.k s'.model
        × IsStepped params.k leaf'.state.model
        × (leaf'.ready ≡ (
            if completes n_classifiers params (size s.model) (length cs)
            then leaf.ready + n_classifiers
            else leaf.ready))
  take_clusters-receive n_classifiers cs s leaf same pos small next v w =
      let sent = copies s.curr_id cs in
      let (s', run, clusters, v') = take_clusters-new n_classifiers cs s [] pos small next v in
      let len = length-map (as_read interest params s.curr_id) cs in
      let size₀ : size leaf.state.model ≡ size s.model = ap length same in
      let (leaf', run', clusters', w', ready) =
        receive-stored n_classifiers params beyond sent leaf pos (omega arith)
          (subst (λ n. AreNext n_classifiers params n sent) (sym size₀)
            (AreNext-copies n_classifiers s.curr_id (size s.model) cs next))
          w in
      (
        s',
        sent,
        leaf',
        run,
        run',
        clusters' ∙ ap₂ ◌++◌ same (stored-copies n_classifiers s.curr_id cs) ∙ sym clusters,
        ap length clusters ∙ length-append s.model.clusters sent ∙ omega arith,
        v',
        w',
        ready
            ∙ ap₂
                (λ a b.
                  if completes n_classifiers params a b
                  then leaf.ready + n_classifiers
                  else leaf.ready)
                size₀ len,
      )

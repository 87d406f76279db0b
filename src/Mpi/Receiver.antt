-- ===== src/Mpi/Receiver.antt =====
-- `m_receiver` of src/threaded-mpi.c: adds the clusters that process 0 broadcasts to the model of a
-- process with classifiers.
pub mod Replica
use minas_flink.Prelude.{ℕ, ◌+◌, Bool, List, [], ◌∷◌, not, ◌==◌, if◌then◌else◌}
use minas_flink.Data.{Cluster, MinasParams, MinasState, size, Result, ok, fail, wrong_id, ◌>>=◌}
use minas_flink.Growth.{add_cluster}
use minas_flink.Mpi.{mfog_eos_marker}

-- `minasState` of the process, and the semaphore `modelReadySemaphore`.
pub record Leaf (W : Type 0) : Type 0 where
  pub state : MinasState W
  pub ready : ℕ

-- The `sem_post` for each classifier, once the model is complete.
unfoldable pub post_ready : {W : Type 0} → ℕ → MinasParams W → Leaf W → MinasState W → Leaf W
post_ready n_classifiers params leaf s = record {
  state = s;
  ready = if size s.model == params.k then leaf.ready + n_classifiers else leaf.ready;
}

-- A cluster that is not the end of the stream.
unfoldable pub receive_cluster :
    {W : Type 0} → (ℕ → Bool) → ℕ → MinasParams W → Leaf W → Cluster W → Result (Leaf W)
receive_cluster beyond n_classifiers params leaf c =
    let added = add_cluster beyond params leaf.state c >>= λ (s : MinasState _).
    ok (post_ready n_classifiers params leaf s) in
    if not (c.id == size leaf.state.model) then fail wrong_id else added

-- The loop over the broadcasts, up to the end of the stream.
unfoldable pub receive :
    {W : Type 0} → (ℕ → Bool) → ℕ → MinasParams W → Leaf W → List (Cluster W) → Result (Leaf W)
receive beyond n_classifiers params leaf [] = ok leaf
receive beyond n_classifiers params leaf (c ∷ cs) =
    let rest = receive_cluster beyond n_classifiers params leaf c >>= λ (leaf' : Leaf _).
    receive beyond n_classifiers params leaf' cs in
    if c.label == mfog_eos_marker then ok leaf else rest

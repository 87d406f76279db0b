-- ===== src/Mpi/Sampler.antt =====
-- `sampler` of src/threaded-mpi.c, from the lines that it has read on: clusters are broadcast, and
-- examples are sent in packets, to one process after the other.
pub mod Clusters
pub mod Rounds
pub mod Packets
use minas_flink.Prelude.{
  ℕ, zero, suc, ◌+◌, ◌%◌, ◌*◌, Bool, List, [], ◌∷◌, ◌++◌, length, modify, drop, ltb, ◌==◌,
  if◌then◌else◌, add64,
}
use minas_flink.Data.{Example, Cluster, MinasParams, MinasState, size, Result, ok, ◌>>=◌}
use minas_flink.Growth.{read_cluster_line}
use minas_flink.Mpi.{mfog_eos_marker, mfog_rank_main}

-- A line with a cluster, and the clusters that have been broadcast. The pointer that `addCluster`
-- returns is that of the new cluster, which is behind the old ones. `beyond` is what `isalpha` returns
-- where it is undefined.
unfoldable pub take_cluster :
    {W : Type 0}
    → (ℕ → Bool)
    → Bool
    → MinasParams W
    → MinasState W × List (Cluster W)
    → Cluster W
    → Result (MinasState W × List (Cluster W))
take_cluster beyond interest params (s, broadcast) c =
    read_cluster_line beyond interest params s c >>= λ (s' : MinasState _).
    ok (s', broadcast ++ drop (size s.model) s'.model.clusters)

unfoldable pub take_clusters :
    {W : Type 0}
    → (ℕ → Bool)
    → Bool
    → MinasParams W
    → MinasState W × List (Cluster W)
    → List (Cluster W)
    → Result (MinasState W × List (Cluster W))
take_clusters beyond interest params s [] = ok s
take_clusters beyond interest params s (c ∷ cs) = do
  s' ← take_cluster beyond interest params s c
  take_clusters beyond interest params s' cs

-- A message with the tag `MFOG_TAG_EXAMPLE`: its process, and the examples packed into it.
pub record Packet (W : Type 0) : Type 0 where
  pub dest : ℕ
  pub examples : List (Example W)

-- The variables of the loop, `nextId` of the state, and the messages that have been sent.
pub record Sampler (W : Type 0) : Type 0 where
  pub next_id : ℕ
  pub sample_buffer : List (Example W)
  pub dest : ℕ
  pub items_where : List ℕ
  pub sent : List (Packet W)

-- The `do` loop that picks the next process, with fuel.
unfoldable pub pick_dest : ℕ → ℕ → ℕ → ℕ
pick_dest zero mpi_size dest = dest
pick_dest (suc fuel) mpi_size dest =
    let dest' = (dest + 1) % mpi_size in
    let rest = pick_dest fuel mpi_size dest' in if dest' == mfog_rank_main then rest else dest'

-- Two rounds are enough, as two processes in a row are not both process 0.
abbrev pub next_dest : ℕ → ℕ → ℕ
next_dest mpi_size dest = pick_dest 2 mpi_size dest

module _ {W : Type 0} (mpi_size : ℕ) where
  unfoldable pub send_packet : Sampler W → Sampler W
  send_packet s =
      let dest = next_dest mpi_size s.dest in
      record s {
        sample_buffer = [];
        dest = dest;
        items_where = modify s.items_where dest (λ n. add64 n 1);
        sent = s.sent ++ (record { dest = dest; examples = s.sample_buffer } ∷ []);
      }

  -- What is left when the input ends.
  unfoldable pub flush : Sampler W → Sampler W
  flush s = if ltb 0 (length s.sample_buffer) then send_packet s else s

module _ {W : Type 0} (junk packet_size mpi_size : ℕ) where
  -- A line with an example, with its values. Nothing sets its label, which holds `junk`.
  unfoldable pub take_sample : Sampler W → List W → Sampler W
  take_sample s val =
      let e : Example W = record { id = s.next_id; label = junk; val = val } in
      let s' : Sampler W = record s {
        next_id = add64 s.next_id 1;
        sample_buffer = s.sample_buffer ++ (e ∷ []);
      } in
      if ltb (length s'.sample_buffer) packet_size then s' else send_packet mpi_size s'

  unfoldable pub take_samples : Sampler W → List (List W) → Sampler W
  take_samples s [] = s
  take_samples s (val ∷ vals) = take_samples (take_sample s val) vals

abbrev pub repeat {ℓ} : {A : Type ℓ} → ℕ → A → List A
repeat zero x = []
repeat (suc n) x = x ∷ repeat n x

-- The end of the stream, for each classifier of each process from `dest` on.
unfoldable pub eos_packets : {W : Type 0} → ℕ → ℕ → ℕ → Example W → List (Packet W)
eos_packets n_classifiers dest zero e = []
eos_packets n_classifiers dest (suc left) e =
    repeat n_classifiers
      (record { dest = dest; examples = record e { label = mfog_eos_marker } ∷ [] })
    ++ eos_packets n_classifiers (dest + 1) left e

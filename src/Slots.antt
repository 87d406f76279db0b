-- ===== src/Slots.antt =====
-- old-code/src/reboot/threaded-mpi.c: the table of slots that `sampler` and `detector` of process 0
-- share. The sampler puts an example into a slot and sends it to a process; the detector finds the
-- slot again when the process answers. What a thread does under `slotsMutex` is one step. The first
-- loop of the sampler, which reads clusters, and the ends of the streams are left out.
pub mod Search
pub mod Held
pub mod Invariant
pub mod Step
pub mod Safety
pub mod Unknowns
mod Tests
use minas_flink.Prelude.{
  ℕ, zero, suc, ◌+◌, ◌-◌, ◌%◌, ◌≡◌, Option, none, some, Bool, ◌&&◌, ◌||◌, List, [], ◌∷◌, ◌++◌,
  modify, ltb, ◌==◌, if◌then◌else◌, u32,
}
use minas_flink.Mpi.Sampler.{next_dest}

-- An entry of `slots`, a `char` as its byte, and the id of that of `examples`. A slot is free with 0,
-- in use with the number of a process, and done with that number and `mpiSize` added.
pub record RootSlot : Type 0 where
  pub mark : ℕ
  pub id : ℕ

-- The test of the sampler. A byte of 128 or more is negative, and so not above `mpiSize`.
unfoldable pub is_usable : ℕ → ℕ → RootSlot → Bool
is_usable mpi_size dest s =
    s.mark == 0 || (ltb s.mark 128 && ltb mpi_size s.mark && (s.mark % mpi_size) == dest)

-- The test of the detector.
unfoldable pub is_sent : ℕ → ℕ → RootSlot → Bool
is_sent dest id s = (ltb s.mark 128 && s.mark == dest) && s.id == id

unfoldable pub index_after : Option ℕ → Option ℕ
index_after none = none
index_after (some i) = some (suc i)

-- The loop over the slots, up to the first one that passes the test; `foundSlot` stays -1 if there is
-- none.
unfoldable pub find_slot : (RootSlot → Bool) → List RootSlot → Option ℕ
find_slot test [] = none
find_slot test (s ∷ slots) =
    let rest = index_after (find_slot test slots) in if test s then some 0 else rest

-- An example that has been sent: its process, its id, and the label once that process has answered.
pub record Ticket : Type 0 where
  pub dest : ℕ
  pub id : ℕ
  pub label : Option ℕ

-- Where the sampler stands: before its search, in `sem_wait`, or between its search and `MPI_Send`.
pub data SamplerPhase : Type 0 where
  looking asleep : SamplerPhase
  filling : (slot : ℕ) → SamplerPhase

-- Where the detector stands: in `MPI_Recv`, before its search, in `sem_wait`, or between its search and
-- the `sem_post` that follows.
pub data DetectorPhase : Type 0 where
  receiving : DetectorPhase
  searching stuck : (answer : Ticket) → DetectorPhase
  handling : (slot : ℕ) → (answer : Ticket) → DetectorPhase

-- `rootState`, the variables of the two threads, and the messages on their way. `taken` is the number of
-- the examples that have been sent; the variable `id` of the sampler is that number modulo 2^32.
pub record Root : Type 0 where
  pub slots : List RootSlot
  pub free_signal : ℕ
  pub taken : ℕ
  pub dest : ℕ
  pub sampler : SamplerPhase
  pub detector : DetectorPhase
  pub network : List Ticket

-- The end of a search of the sampler.
unfoldable pub looked : Root → ℕ → Option ℕ → Root
looked s dest none = record s { dest = dest; sampler = asleep }
looked s dest (some i) = record s {
  dest = dest;
  slots = modify s.slots i (λ x. record x { mark = dest % 256 });
  sampler = filling i;
}

-- The example is written to its slot and sent.
unfoldable pub filled : Root → ℕ → Root
filled s i = record s {
  slots = modify s.slots i (λ x. record x { id = u32 s.taken });
  taken = s.taken + 1;
  sampler = looking;
  network = s.network ++ (record { dest = s.dest; id = u32 s.taken; label = none } ∷ []);
}

-- A step of the sampler in its phase, or none while `sem_wait` does not return.
unfoldable pub sample : ℕ → SamplerPhase → Root → Option Root
sample mpi_size looking s =
    let dest = next_dest mpi_size s.dest in
    some (looked s dest (find_slot (is_usable mpi_size dest) s.slots))
sample mpi_size asleep s =
    if s.free_signal == 0
    then none
    else some (record s { free_signal = s.free_signal - 1; sampler = looking })
sample mpi_size (filling i) s = some (filled s i)

-- The end of a search of the detector.
unfoldable pub searched : Root → Ticket → Option ℕ → Root
searched s t none = record s { detector = stuck t }
searched s t (some i) = record s { detector = handling i t }

-- The slot is given back.
unfoldable pub released : ℕ → Root → ℕ → Root
released mpi_size s i = record s {
  slots = modify s.slots i (λ x. record x { mark = (x.mark + mpi_size) % 256 });
  free_signal = s.free_signal + 1;
  detector = receiving;
}

-- A step of the detector in its phase; it receives by a step of its own.
unfoldable pub detect_step : ℕ → DetectorPhase → Root → Option Root
detect_step mpi_size receiving s = none
detect_step mpi_size (searching t) s = some (searched s t (find_slot (is_sent t.dest t.id) s.slots))
detect_step mpi_size (stuck t) s =
    if s.free_signal == 0
    then none
    else some (record s { free_signal = s.free_signal - 1; detector = searching t })
detect_step mpi_size (handling i t) s = some (released mpi_size s i)

-- The states that the threads and the other processes can bring about together. A process answers each
-- of its examples once, in any order, with the id of the example.
pub data Interleaving (mpi_size : ℕ) (s : Root) : Root → Type 0 where
  here : Interleaving mpi_size s s
  sampled :
      {t u : Root}
      → Interleaving mpi_size s t
      → sample mpi_size t.sampler t ≡ some u
      → Interleaving mpi_size s u
  answered :
      {t : Root} (before after : List Ticket) (x : Ticket) (label : ℕ)
      → Interleaving mpi_size s t
      → t.network ≡ before ++ (x ∷ after)
      → Interleaving mpi_size s
          (record t { network = before ++ (record x { label = some label } ∷ after) })
  received :
      {t : Root} (before after : List Ticket) (x : Ticket) (label : ℕ)
      → Interleaving mpi_size s t
      → t.detector ≡ receiving
      → t.network ≡ before ++ (x ∷ after)
      → x.label ≡ some label
      → Interleaving mpi_size s (record t { network = before ++ after; detector = searching x })
  detected :
      {t u : Root}
      → Interleaving mpi_size s t
      → detect_step mpi_size t.detector t ≡ some u
      → Interleaving mpi_size s u

-- The state before the threads start, with `size` free slots.
unfoldable pub fresh_slots : ℕ → List RootSlot
fresh_slots zero = []
fresh_slots (suc size) = record { mark = 0; id = 0 } ∷ fresh_slots size

unfoldable pub begin : ℕ → Root
begin size = record {
  slots = fresh_slots size;
  free_signal = 0;
  taken = 0;
  dest = 0;
  sampler = looking;
  detector = receiving;
  network = [];
}

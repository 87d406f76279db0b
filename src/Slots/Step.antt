-- ===== src/Slots/Step.antt =====
-- What one step of a thread leaves.
use minas_flink.Prelude.{
  ℕ, ◌≤◌, ◌<◌, ◌≡◌, refl, Option, none, some, arith, ◌==◌, inl, inr, Bool-cases, u32_mod,
}
use minas_flink.Mpi.Sampler.{next_dest}
use minas_flink.Mpi.Sampler.Rounds.{next_dest-after, after-lt}
use minas_flink.Slots.{
  is_usable, find_slot, Ticket, SamplerPhase, looking, asleep, filling, DetectorPhase, receiving,
  searching, stuck, handling, Root, looked, filled, released, sample, searched, detect_step,
}
use minas_flink.Slots.Search.{find_slot-is_sent}
use minas_flink.Slots.Held.{IsSoundAt, IsSound}
use minas_flink.Slots.Invariant.{looked-IsSound, woken-IsSound, filled-IsSound, released-IsSound}

-- A step takes back no example.
abbrev pub Grows : Root → Option Root → Type 0
Grows s none = Unit
Grows s (some u) = s.taken ≤ u.taken

looked-Grows : (s : Root) (dest : ℕ) (o : Option ℕ) → Grows s (some (looked s dest o))
unfolding looked
looked-Grows s dest none = omega arith
looked-Grows s dest (some k) = omega arith

pub sample-Grows : (mpi_size : ℕ) (p : SamplerPhase) (s : Root) → Grows s (sample mpi_size p s)
unfolding sample filled
sample-Grows mpi_size looking s = looked-Grows s _ _
sample-Grows mpi_size asleep s = elim (Bool-cases (s.free_signal == 0)) [
  | inl none_left ↦ rw none_left tt
  | inr some_left ↦ rw some_left (omega arith)
]
sample-Grows mpi_size (filling k) s = omega arith

searched-Grows : (s : Root) (t : Ticket) (o : Option ℕ) → Grows s (some (searched s t o))
unfolding searched
searched-Grows s t none = omega arith
searched-Grows s t (some k) = omega arith

pub detect_step-Grows :
    (mpi_size : ℕ) (d : DetectorPhase) (s : Root) → Grows s (detect_step mpi_size d s)
unfolding detect_step released
detect_step-Grows mpi_size receiving s = tt
detect_step-Grows mpi_size (searching t) s = searched-Grows s t _
detect_step-Grows mpi_size (stuck t) s = elim (Bool-cases (s.free_signal == 0)) [
  | inl none_left ↦ rw none_left tt
  | inr some_left ↦ rw some_left (omega arith)
]
detect_step-Grows mpi_size (handling i t) s = omega arith

-- What a step of the sampler leaves, and one of the detector.
abbrev pub Sampled : ℕ → Root → SamplerPhase → Option Root → Type 0
Sampled mpi_size s p none = Unit
Sampled mpi_size s p (some u) =
    u.taken ≤ u32_mod → IsSoundAt mpi_size s p s.detector → IsSound mpi_size u

abbrev pub Detected : ℕ → Root → DetectorPhase → Option Root → Type 0
Detected mpi_size s d none = Unit
Detected mpi_size s d (some u) = IsSoundAt mpi_size s s.sampler d → IsSound mpi_size u

module _ {mpi_size : ℕ} (many : 1 < mpi_size) (few : mpi_size ≤ 64) where
  looked-Sampled :
      (s : Root) (dest : ℕ) (o : Option ℕ)
      → 0 < dest
      → dest < mpi_size
      → find_slot (is_usable mpi_size dest) s.slots ≡ o
      → Sampled mpi_size s looking (some (looked s dest o))
  unfolding looked
  looked-Sampled s dest none some_dest inside found =
      (λ small v. looked-IsSound few s dest s.detector none some_dest inside found v)
  looked-Sampled s dest (some k) some_dest inside found =
      (λ small v. looked-IsSound few s dest s.detector (some k) some_dest inside found v)

  pub sample-Sampled :
      (p : SamplerPhase) (s : Root) → s.dest < mpi_size → Sampled mpi_size s p (sample mpi_size p s)
  unfolding sample filled
  sample-Sampled looking s inside =
      let dest = next_dest mpi_size s.dest in
      let next = next_dest-after mpi_size s.dest many inside in
      let (some_dest, inside') = after-lt mpi_size s.dest many inside in
      looked-Sampled s dest (find_slot (is_usable mpi_size dest) s.slots) (rw next some_dest)
        (rw next inside') refl
  sample-Sampled asleep s inside = elim (Bool-cases (s.free_signal == 0)) [
    | inl none_left ↦ rw none_left tt
    | inr some_left ↦ rw some_left (λ small v. woken-IsSound few s _ s.detector v)
  ]
  sample-Sampled (filling k) s inside =
      (λ small v. filled-IsSound few s k s.detector (omega arith) v)

  pub detect_step-Detected :
      (d : DetectorPhase) (s : Root)
      → IsSoundAt mpi_size s s.sampler d
      → Detected mpi_size s d (detect_step mpi_size d s)
  unfolding detect_step searched released
  detect_step-Detected receiving s v = tt
  detect_step-Detected (searching t) s v =
      let (h, new) = v.in_hand in
      let found =
        find_slot-is_sent t.dest t.id s.slots h.slot h.entry (omega (arith, h.inside)) h.found h.at
          h.mark in
      rw found (λ w. record {
        dest = v.dest;
        held = v.held;
        distinct = v.distinct;
        in_hand = (h, new, h.found);
        past = v.past;
        starts = v.starts;
        fills = v.fills;
      })
  detect_step-Detected (stuck t) s v = absurd v.in_hand
  detect_step-Detected (handling i t) s v = (λ w. released-IsSound few s s.sampler i t w)

-- ===== src/Slots/Tests.antt =====
-- A run of the slot table with two processes and one slot.
use minas_flink.Prelude.{Bool, not, ◌==◌, ℕ, ◌≡◌, refl, arith, some, none, [], ◌∷◌}
use minas_flink.Slots.{
  RootSlot, Ticket, SamplerPhase, looking, DetectorPhase, receiving, handling, Root, sample, looked,
  filled, find_slot, is_usable, is_sent, searched, detect_step, Interleaving, here, sampled,
  answered, received, detected, begin, fresh_slots,
}
use minas_flink.Slots.Unknowns.{Stored, Unknowns, swap_in, pack_unknowns}
use minas_flink.Slots.Unknowns.Shared.{IsShared, pack_unknowns-IsShared}
use minas_flink.Mpi.Sampler.{pick_dest}
use minas_flink.Slots.Safety.{IsRight, Interleaving-IsRight}

abbrev slot_of : ℕ → ℕ → RootSlot
slot_of mark id = record { mark = mark; id = id }

abbrev state : RootSlot → ℕ → ℕ → SamplerPhase → DetectorPhase → Root
state x taken dest p d = record {
  slots = x ∷ [];
  free_signal = 0;
  taken = taken;
  dest = dest;
  sampler = p;
  detector = d;
  network = [];
}

-- The answer of process 1 to the first example.
abbrev answer : Ticket
answer = record { dest = 1; id = 0; label = some 97 }

abbrev sent : Root
sent = record (state (slot_of 1 0) 1 1 looking receiving) {
  network = record { dest = 1; id = 0; label = none } ∷ [];
}

begin_one : begin 1 ≡ state (slot_of 0 0) 0 0 looking receiving
unfolding begin fresh_slots
begin_one = refl

sent-Interleaving : Interleaving 2 (state (slot_of 0 0) 0 0 looking receiving) sent
unfolding sample looked filled find_slot is_usable pick_dest
sent-Interleaving = sampled (sampled here refl) refl

handling-Interleaving :
    Interleaving 2
      (state (slot_of 0 0) 0 0 looking receiving)
      (state (slot_of 1 0) 1 1 looking (handling 0 answer))
unfolding detect_step searched find_slot is_sent
handling-Interleaving =
    detected (received [] [] answer 97 (answered [] [] _ 97 sent-Interleaving refl) refl refl refl)
      refl

handling-begin : Interleaving 2 (begin 1) (state (slot_of 1 0) 1 1 looking (handling 0 answer))
handling-begin = rw begin_one handling-Interleaving

Interleaving-IsRight_example : IsRight (slot_of 1 0 ∷ []) (handling 0 answer)
Interleaving-IsRight_example =
    Interleaving-IsRight (omega arith) (omega arith) 1
      (state (slot_of 1 0) 1 1 looking (handling 0 answer)) (omega arith) handling-begin
      (omega arith)

-- Four entries, three of them in use, of which the tests take out the first one, with the id 40.
abbrev is_kept : Stored → Bool
is_kept e = not (e.id == 40)

pack_unknowns-IsShared_example :
    (u : Unknowns) × (slot' : Stored) × (swap_in
        (pack_unknowns is_kept (record {
          entries =
              record { id = 40; val = 0 }
              ∷ record { id = 41; val = 1 }
              ∷ record { id = 42; val = 2 }
              ∷ record { id = 0; val = 3 }
              ∷ [];
          used = 3;
        }))
        (record { id = 43; val = 9 })
      ≡ some (u, slot'))
    × IsShared u slot'
pack_unknowns-IsShared_example =
    pack_unknowns-IsShared is_kept [] (record { id = 40; val = 0 }) (record { id = 41; val = 1 })
      (record { id = 42; val = 2 } ∷ []) (record { id = 0; val = 3 } ∷ [])
      (record { id = 43; val = 9 }) tt refl refl (refl, tt) (omega arith)

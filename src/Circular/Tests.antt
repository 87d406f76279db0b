-- ===== src/Circular/Tests.antt =====
-- Runs of the ring, and instances of the theorems.
use minas_flink.Prelude.{ℕ, ◌<◌, ◌≡◌, refl, List, [], ◌∷◌, ◌++◌, length, arith}
use minas_flink.Circular.{buffer_length, init, try_enqueue, try_dequeue}
use minas_flink.Circular.Contents.{contents}
use minas_flink.Circular.Fifo.{Call, enqueue, dequeue, attempt, run, start, run-order}
use minas_flink.Circular.Threads.{
  telling, System, step_producer, Reach, here, produced, begin, CanStep, Reach-CanStep,
}

abbrev fresh : List ℕ
fresh = 0 ∷ 1 ∷ 2 ∷ []

-- The third pointer finds the ring full.
abbrev calls : List (Call ℕ)
calls = enqueue 7 ∷ enqueue 8 ∷ enqueue 9 ∷ dequeue 5 ∷ []

takes_first : (run (start fresh) calls).received ≡ 7 ∷ []
unfolding run attempt init try_enqueue try_dequeue
takes_first = refl

-- The macro takes an empty ring for a full one.
empty_length : buffer_length (init fresh) ≡ 3
unfolding buffer_length init
empty_length = refl

run-order_example :
    let s = run (start fresh) calls in
    (s.received ++ contents s.ring ≡ s.sent) × (length (contents s.ring) < s.ring.size)
run-order_example = run-order fresh calls (omega arith)

abbrev after_one : System ℕ
after_one = record (begin fresh) {
  ring = record { slots = 7 ∷ 1 ∷ 2 ∷ []; size = 3; head = 1; tail = 0 };
  producer = telling;
}

reached : Reach (begin fresh) after_one
unfolding init step_producer try_enqueue
reached = produced 7 here refl

Reach-CanStep_example : CanStep after_one 8
Reach-CanStep_example = Reach-CanStep fresh after_one 8 (omega arith) reached

-- ===== src/Circular.antt =====
-- src/reboot/CircularExampleBuffer.c of the old code: a ring of pointers between two threads. A round
-- of the loops of `CEB_enqueue` and `CEB_dequeue` holds the mutex from its test to the end of its
-- change, so that the model makes it one step.
pub mod Contents
pub mod Fifo
pub mod Threads
mod Tests
use minas_flink.Prelude.{
  ℕ, zero, suc, ◌+◌, ◌-◌, ◌%◌, Bool, List, [], ◌∷◌, Option, none, some, get_elem?, modify, ltb,
  ◌==◌, if◌then◌else◌,
}

pub record Ring (A : Type 0) : Type 0 where
  pub slots : List A
  pub size : ℕ
  pub head : ℕ
  pub tail : ℕ

abbrev pub next_index : ℕ → ℕ → ℕ
next_index size i = (i + 1) % size

module _ {A : Type 0} where
  abbrev pub is_buffer_full : Ring A → Bool
  is_buffer_full r = next_index r.size r.head == r.tail

  abbrev pub is_buffer_empty : Ring A → Bool
  is_buffer_empty r = r.head == r.tail

  unfoldable pub buffer_length : Ring A → ℕ
  buffer_length r = if ltb r.tail r.head then r.head - r.tail else r.head + r.size - r.tail

  -- What a round leaves behind: the ring and the pointer that is handed back, if it was not blocked.
  unfoldable pub try_enqueue : Ring A → A → Option (Ring A × Option A)
  try_enqueue r x =
      if is_buffer_full r
      then none
      else some (
        record r { slots = modify r.slots r.head (λ _. x); head = next_index r.size r.head },
        get_elem? r.slots r.head,
      )

  unfoldable pub try_dequeue : Ring A → A → Option (Ring A × Option A)
  try_dequeue r x =
      if is_buffer_empty r
      then none
      else some (
        record r { slots = modify r.slots r.tail (λ _. x); tail = next_index r.size r.tail },
        get_elem? r.slots r.tail,
      )

  -- `CEB_init`, with the pointers that it allocates.
  unfoldable pub init : List A → Ring A
  init fresh = record { slots = fresh; size = minas_flink.Prelude.length fresh; head = 0; tail = 0 }

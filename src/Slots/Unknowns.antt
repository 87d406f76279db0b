-- ===== src/Slots/Unknowns.antt =====
-- old-code/src/reboot/threaded-mpi.c: the buffer of unknown examples of the thread `detector`, which
-- shares blocks of doubles with the table of slots.
pub mod Shared
use minas_flink.Prelude.{
  ℕ, zero, suc, ◌+◌, ◌-◌, Option, none, some, Bool, List, [], ◌∷◌, modify, get_elem?, length, ltb,
  if◌then◌else◌,
}

-- An `Example` of the buffer or of a slot: its id, and the block that `val` points to.
pub record Stored : Type 0 where
  pub id : ℕ
  pub val : ℕ

-- `unknowns` and `unknownsSize`.
pub record Unknowns : Type 0 where
  pub entries : List Stored
  pub used : ℕ

-- The example of a slot is copied behind the last one, and the slot gets the block that was there: the
-- buffer, and the example of the slot. Without an entry there the code writes past the end, and an
-- assertion fails if the buffer has no further entry.
unfoldable pub swap_in : Unknowns → Stored → Option (Unknowns × Stored)
swap_in u e = elim (get_elem? u.entries u.used) [
  | none ↦ none
  | some old ↦
      if ltb (u.used + 1) (length u.entries)
      then some (
        record { entries = modify u.entries u.used (λ _. e); used = u.used + 1 },
        record e { val = old.val },
      )
      else none
]

-- The loop that compresses the buffer, with `left` entries to go from `ex`, of which `gone` have been taken
-- out; `kept` is whether none of its tests takes an example out.
unfoldable pub pack : (Stored → Bool) → ℕ → ℕ → ℕ → List Stored → List Stored × ℕ
pack kept zero ex gone entries = (entries, gone)
pack kept (suc left) ex gone entries = elim (get_elem? entries ex) [
  | none ↦ (entries, gone)
  | some e ↦
      pack kept left (ex + 1) (if kept e then gone else gone + 1)
        (modify entries (ex - gone) (λ _. e))
]

unfoldable pub pack_unknowns : (Stored → Bool) → Unknowns → Unknowns
pack_unknowns kept u =
    let packed = pack kept u.used 0 0 u.entries in
    record { entries = packed.0; used = u.used - packed.1 }

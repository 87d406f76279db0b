-- ===== src/Slots/Held/Steps.antt =====
-- How the steps keep a slot of an example on its way.
use minas_flink.Prelude.{
  get_elem?-lt, ℕ, ◌+◌, ◌%◌, ◌≤◌, ◌<◌, ◌≡◌, ◌≢◌, refl, ap, sym, ◌∙◌, some, false, List, modify,
  get_elem?, get_elem?-modify, get_elem?-modify_ne, arith, ◌==◌, inl, inr, Bool-cases, All,
  All-mono, u32, u32_mod,
}
use mathlib.Core.Option.{some-injective}
use minas_flink.Slots.{RootSlot, is_usable, find_slot, Ticket, SamplerPhase, looking, filling}
use minas_flink.Slots.Search.{
  has_id, find_slot-passes, find_slot-modify, find_slot-other, find_slot-put, find_slot-first,
  is_usable-used,
}
use minas_flink.Slots.Held.{IsHeld, Held, Fills, IsPast, true_ne_false, IsHeld-slot}

module _ {mpi_size : ℕ} (few : mpi_size ≤ 64) where
  -- The search of the sampler ends at a slot whose example is not on its way.
  pub marked-IsHeld :
      (slots : List RootSlot) (p : SamplerPhase) (taken dest k : ℕ) (t : Ticket)
      → find_slot (is_usable mpi_size dest) slots ≡ some k
      → Held mpi_size slots p taken t
      → Held mpi_size (modify slots k (λ x. record x { mark = dest % 256 })) (filling k) taken t
  marked-IsHeld slots p taken dest k t found h =
      let (x, at, usable) = find_slot-passes (is_usable mpi_size dest) slots k found in
      let used : is_usable mpi_size dest h.entry ≡ false =
        is_usable-used mpi_size dest h.entry (omega (arith, h.mark, h.some_dest))
          (omega (arith, h.mark, h.inside)) in
      let ne : h.slot ≢ k = λ e.
        true_ne_false
          (sym (ap (is_usable mpi_size dest) (IsHeld-slot k x h at e) ∙ usable) ∙ used) in
      record {
        slot = h.slot;
        entry = h.entry;
        found =
            find_slot-modify (has_id t.id) (λ y. record y { mark = dest % 256 }) slots k (λ y. refl)
            ∙ h.found;
        at =
            get_elem?-modify_ne slots k h.slot (λ y. record y { mark = dest % 256 })
              (λ e. ne (sym e))
            ∙ h.at;
        mark = h.mark;
        spared = ne;
        some_dest = h.some_dest;
        inside = h.inside;
        past = h.past;
      }

  -- The sampler writes the next example to its slot.
  pub written-IsHeld :
      (slots : List RootSlot) (taken k : ℕ) (t : Ticket)
      → taken < u32_mod
      → Held mpi_size slots (filling k) taken t
      → Held mpi_size (modify slots k (λ x. record x { id = u32 taken })) looking (taken + 1) t
  written-IsHeld slots taken k t small h = record {
    slot = h.slot;
    entry = h.entry;
    found =
        find_slot-other (has_id t.id) (λ y. record y { id = u32 taken }) slots k h.slot
          (λ y. ground (arith, h.past)) h.found h.spared;
    at =
        get_elem?-modify_ne slots k h.slot (λ y. record y { id = u32 taken })
          (λ e. h.spared (sym e))
        ∙ h.at;
    mark = h.mark;
    spared = tt;
    some_dest = h.some_dest;
    inside = h.inside;
    past = omega (arith, h.past);
  }

  -- The example that is sent.
  pub sent-IsHeld :
      (slots : List RootSlot) (taken dest k : ℕ)
      → taken < u32_mod
      → dest < mpi_size
      → All (IsPast taken) slots
      → (taken ≡ 0 → k ≡ 0)
      → Fills slots dest (filling k)
      → IsHeld mpi_size
          (modify slots k (λ x. record x { id = u32 taken }))
          looking
          (taken + 1)
          dest
          (u32 taken)
  sent-IsHeld slots taken dest k small inside past starts (x, at, mark, some_dest) = record {
    slot = k;
    entry = record x { id = u32 taken };
    found = elim (Bool-cases (taken == 0)) [
      | inl none_sent ↦
          find_slot-first (has_id (u32 taken)) (λ y. record y { id = u32 taken }) slots k
            (λ y. ground arith) (starts (ground arith)) (get_elem?-lt slots k at)
      | inr some_sent ↦
          find_slot-put (has_id (u32 taken)) (λ y. record y { id = u32 taken }) slots k
            (λ y. ground arith)
            (All-mono (IsPast taken) (λ y. has_id (u32 taken) y ≡ false) slots
              (λ y q. ground (arith, q, some_sent)) past)
            (get_elem?-lt slots k at)
    ];
    at = get_elem?-modify slots k (λ y. record y { id = u32 taken }) at;
    mark = mark;
    spared = tt;
    some_dest = some_dest;
    inside = inside;
    past = omega arith;
  }

  -- The detector gives a slot back whose example has another id.
  pub freed-IsHeld :
      (slots : List RootSlot) (p : SamplerPhase) (taken i id : ℕ) (t : Ticket)
      → find_slot (has_id id) slots ≡ some i
      → id ≢ t.id
      → Held mpi_size slots p taken t
      → Held mpi_size
          (modify slots i (λ x. record x { mark = (x.mark + mpi_size) % 256 }))
          p
          taken
          t
  freed-IsHeld slots p taken i id t found new h =
      let (x, at, same) = find_slot-passes (has_id id) slots i found in
      let (y, at', same') = find_slot-passes (has_id t.id) slots h.slot h.found in
      let ne : h.slot ≢ i = λ e.
        let one : x ≡ y = some-injective _ _ (sym at ∙ ap (get_elem? slots) (sym e) ∙ at') in
        let id_x : x.id ≡ id = ground (arith, same) in
        let id_y : y.id ≡ t.id = ground (arith, same') in
        new (sym id_x ∙ ap (λ z. z.id) one ∙ id_y) in
      record {
        slot = h.slot;
        entry = h.entry;
        found =
            find_slot-modify (has_id t.id) (λ y. record y { mark = (y.mark + mpi_size) % 256 })
              slots i (λ y. refl)
            ∙ h.found;
        at =
            get_elem?-modify_ne slots i h.slot (λ y. record y { mark = (y.mark + mpi_size) % 256 })
              (λ e. ne (sym e))
            ∙ h.at;
        mark = h.mark;
        spared = h.spared;
        some_dest = h.some_dest;
        inside = h.inside;
        past = h.past;
      }

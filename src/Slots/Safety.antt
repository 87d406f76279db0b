-- ===== src/Slots/Safety.antt =====
-- The detector always finds the example that a process has answered.
use mathlib.Core.Option.{some-injective}
use minas_flink.Prelude.{
  ℕ, zero, suc, ◌≤◌, ◌<◌, ◌≡◌, refl, ap, sym, ◌∙◌, subst, some, List, ◌∷◌, ◌++◌, get_elem?, arith,
  All, All-split, inl, u32_mod,
}
use minas_flink.Mpi.Sampler.Rounds.{after}
use minas_flink.Slots.{
  RootSlot, is_sent, find_slot, DetectorPhase, receiving, searching, stuck, handling, Root,
  Interleaving, here, sampled, answered, received, detected, begin, fresh_slots,
}
use minas_flink.Slots.Search.{has_id, find_slot-passes, find_slot-is_sent}
use minas_flink.Slots.Held.{Held, IsNew, Distinct, IsPast, IsSoundAt, IsSound}
use minas_flink.Slots.Invariant.{Distinct-split, InHand-network}
use minas_flink.Slots.Step.{
  Grows, sample-Grows, detect_step-Grows, Sampled, sample-Sampled, Detected, detect_step-Detected,
}

-- The detector does not wait in its search, and the slot that it has found has the process and the id of
-- the answer.
abbrev pub IsRight : List RootSlot → DetectorPhase → Type 0
IsRight slots receiving = Unit
IsRight slots (searching t) = (i : ℕ) × (find_slot (is_sent t.dest t.id) slots ≡ some i)
IsRight slots (stuck t) = ⊥
IsRight slots (handling i t) =
    (x : RootSlot) × (get_elem? slots i ≡ some x) × (x.mark ≡ t.dest) × (x.id ≡ t.id)

module _ {mpi_size : ℕ} (many : 1 < mpi_size) (few : mpi_size ≤ 64) where
  Interleaving-IsSound :
      {s t : Root}
      → IsSound mpi_size s
      → Interleaving mpi_size s t
      → t.taken ≤ u32_mod
      → IsSound mpi_size t
  Interleaving-IsSound v here small = v
  Interleaving-IsSound v (sampled {t} {u} r run) small =
      let up = subst (Grows t) run (sample-Grows mpi_size t.sampler t) in
      let w = Interleaving-IsSound v r (omega arith) in
      subst (Sampled mpi_size t t.sampler) run (sample-Sampled many few t.sampler t w.dest) small w
  Interleaving-IsSound v (answered {t} before after x label r net) small =
      let w = Interleaving-IsSound v r small in
      let network' = before ++ (record x { label = some label } ∷ after) in
      let (h, rest, put) =
        All-split (Held mpi_size t.slots t.sampler t.taken) before x after
          (subst (All (Held mpi_size t.slots t.sampler t.taken)) net w.held) in
      let (new, distinct, put_d) = Distinct-split before x after (subst Distinct net w.distinct) in
      let relabel : (id : ℕ) → All (IsNew id) t.network → All (IsNew id) network' = λ id news.
        let (one, others, put_n) =
          All-split (IsNew id) before x after (subst (All (IsNew id)) net news) in
        put_n (record x { label = some label }) one in
      record {
        dest = w.dest;
        held = put (record x { label = some label }) h;
        distinct = put_d (record x { label = some label }) refl;
        in_hand =
            InHand-network mpi_size t.slots t.sampler t.taken t.network network' t.detector relabel
              w.in_hand;
        past = w.past;
        starts = w.starts;
        fills = w.fills;
      }
  Interleaving-IsSound v (received {t} before after x label r phase net known) small =
      let w = Interleaving-IsSound v r small in
      let (h, rest, put) =
        All-split (Held mpi_size t.slots t.sampler t.taken) before x after
          (subst (All (Held mpi_size t.slots t.sampler t.taken)) net w.held) in
      let (new, distinct, put_d) = Distinct-split before x after (subst Distinct net w.distinct) in
      record {
        dest = w.dest;
        held = rest;
        distinct = distinct;
        in_hand = (h, new);
        past = w.past;
        starts = w.starts;
        fills = w.fills;
      }
  Interleaving-IsSound v (detected {t} {u} r run) small =
      let up = subst (Grows t) run (detect_step-Grows mpi_size t.detector t) in
      let w = Interleaving-IsSound v r (omega arith) in
      subst (Detected mpi_size t t.detector) run (detect_step-Detected many few t.detector t w) w

  fresh-IsPast : (size : ℕ) → All (IsPast 0) (fresh_slots size)
  unfolding fresh_slots
  fresh-IsPast zero = tt
  fresh-IsPast (suc size) = (inl refl, fresh-IsPast size)

  begin-IsSound : (size : ℕ) → 0 < size → IsSound mpi_size (begin size)
  unfolding begin fresh_slots
  begin-IsSound zero some_slot = absurd (omega arith)
  begin-IsSound (suc size) some_slot = record {
    dest = omega arith;
    held = tt;
    distinct = tt;
    in_hand = tt;
    past = (inl refl, fresh-IsPast size);
    starts = λ none_sent. (record { mark = 0; id = 0 }, refl, refl);
    fills = tt;
  }

  IsSound-IsRight :
      (d : DetectorPhase) (s : Root) → IsSoundAt mpi_size s s.sampler d → IsRight s.slots d
  IsSound-IsRight receiving s v = tt
  IsSound-IsRight (searching t) s v =
      let (h, new) = v.in_hand in
      (
        h.slot,
        find_slot-is_sent t.dest t.id s.slots h.slot h.entry (omega (arith, h.inside)) h.found h.at
            h.mark,
      )
  IsSound-IsRight (stuck t) s v = v.in_hand
  IsSound-IsRight (handling i t) s v =
      let (h, new, found) = v.in_hand in
      let (x, at, same) = find_slot-passes (has_id t.id) s.slots i found in
      let slot_is_i : h.slot ≡ i = some-injective _ _ (sym h.found ∙ found) in
      let entry_is_x : h.entry ≡ x =
        some-injective _ _ (sym h.at ∙ ap (get_elem? s.slots) slot_is_i ∙ at) in
      (x, at, ap (λ y. y.mark) (sym entry_is_x) ∙ h.mark, ground (arith, same))

  -- With at least 2 and at most 64 processes, at least one slot, and at most 2^32 examples sent, in
  -- every state that the threads reach, however their steps and the answers interleave: the search of
  -- the detector for the example of an answer ends at a slot, so that it never waits, and the slot is
  -- marked with the process that has answered and holds the example with the id of the answer.
  pub Interleaving-IsRight :
      (size : ℕ) (s : Root)
      → 0 < size
      → Interleaving mpi_size (begin size) s
      → s.taken ≤ u32_mod
      → IsRight s.slots s.detector
  Interleaving-IsRight size s some_slot r small =
      IsSound-IsRight s.detector s (Interleaving-IsSound (begin-IsSound size some_slot) r small)

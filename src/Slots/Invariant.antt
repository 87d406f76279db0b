-- ===== src/Slots/Invariant.antt =====
-- What holds in every state that the threads reach.
use minas_flink.Prelude.{
  ℕ, ◌+◌, ◌%◌, ◌≤◌, ◌<◌, ◌≡◌, ◌≢◌, refl, sym, ◌∙◌, subst, Option, none, some, List, [], ◌∷◌, ◌++◌,
  modify, get_elem?-modify, arith, inr, All, All-append, All-mono, All-mono₂, All-modify, All-split,
  u32, u32_mod,
}
use mathlib.Core.Option.{some-injective}
use minas_flink.Slots.{
  RootSlot, is_usable, find_slot, Ticket, SamplerPhase, looking, asleep, filling, DetectorPhase,
  receiving, searching, stuck, handling, Root, looked, filled, released,
}
use minas_flink.Slots.Search.{
  has_id, find_slot-passes, find_slot-modify, find_slot-other, find_slot-head,
}
use minas_flink.Slots.Held.{
  Held, IsNew, Distinct, InHand, IsPast, IsSoundAt, later_IsPast, free_usable, InHand-mono,
  phase-IsHeld, Distinct-append, InHand-append, freed-Fills,
}
use minas_flink.Slots.Held.Steps.{marked-IsHeld, written-IsHeld, sent-IsHeld, freed-IsHeld}

module _ {mpi_size : ℕ} (few : mpi_size ≤ 64) where
  pub looked-IsSound :
      (s : Root) (dest : ℕ) (d : DetectorPhase) (o : Option ℕ)
      → 0 < dest
      → dest < mpi_size
      → find_slot (is_usable mpi_size dest) s.slots ≡ o
      → IsSoundAt mpi_size s looking d
      → IsSoundAt mpi_size (looked s dest o) (looked s dest o).sampler d
  unfolding looked
  looked-IsSound s dest d none some_dest inside found v = record {
    dest = inside;
    held =
        All-mono _ _ s.network (λ t. phase-IsHeld s.slots looking asleep s.taken t (λ i. tt))
          v.held;
    distinct = v.distinct;
    in_hand =
        InHand-mono s.network d (λ t. phase-IsHeld s.slots looking asleep s.taken t (λ i. tt))
          (λ t i h e. e) v.in_hand;
    past = v.past;
    starts = v.starts;
    fills = tt;
  }
  looked-IsSound s dest d (some k) some_dest inside found v =
      let mark = λ (x : RootSlot). record x { mark = dest % 256 } in
      let (x, at, usable) = find_slot-passes (is_usable mpi_size dest) s.slots k found in
      record {
        dest = inside;
        held =
            All-mono _ _ s.network (λ t. marked-IsHeld few s.slots looking s.taken dest k t found)
              v.held;
        distinct = v.distinct;
        in_hand =
            InHand-mono s.network d (λ t. marked-IsHeld few s.slots looking s.taken dest k t found)
              (λ t i h e. find_slot-modify (has_id t.id) mark s.slots k (λ y. refl) ∙ e) v.in_hand;
        past = All-modify (IsPast s.taken) s.slots k mark (λ y q. q) v.past;
        starts = λ none_sent.
            let (x₀, at₀, free) = v.starts none_sent in
            let first =
              find_slot-head (is_usable mpi_size dest) s.slots x₀ at₀
                (free_usable mpi_size dest x₀ free) in
            some-injective _ _ (sym found ∙ first);
        fills = (_, get_elem?-modify s.slots k mark at, omega arith, some_dest);
      }

  pub woken-IsSound :
      (s : Root) (n : ℕ) (d : DetectorPhase)
      → IsSoundAt mpi_size s asleep d
      → IsSoundAt mpi_size (record s { free_signal = n; sampler = looking }) looking d
  woken-IsSound s n d v =
      let move = λ (t : Ticket). phase-IsHeld s.slots asleep looking s.taken t (λ i. tt) in
      record {
        dest = v.dest;
        held = All-mono _ _ s.network move v.held;
        distinct = v.distinct;
        in_hand = InHand-mono s.network d move (λ t i h e. e) v.in_hand;
        past = v.past;
        starts = v.starts;
        fills = tt;
      }

  pub filled-IsSound :
      (s : Root) (k : ℕ) (d : DetectorPhase)
      → s.taken < u32_mod
      → IsSoundAt mpi_size s (filling k) d
      → IsSoundAt mpi_size (filled s k) looking d
  unfolding filled
  filled-IsSound s k d small v =
      let put = λ (x : RootSlot). record x { id = u32 s.taken } in
      let sent = sent-IsHeld few s.slots s.taken s.dest k small v.dest v.past v.starts v.fills in
      let older : (t : Ticket) → t.id < s.taken → t.id ≢ u32 s.taken = λ t h e. omega arith in
      let move = λ (t : Ticket). written-IsHeld few s.slots s.taken k t small in
      record {
        dest = v.dest;
        held =
            All-append (Held mpi_size (modify s.slots k put) looking (s.taken + 1)) s.network _
              (All-mono _ _ s.network move v.held) (sent, tt);
        distinct =
            Distinct-append s.network _ v.distinct
              (All-mono _ _ s.network (λ t h. older t h.past) v.held);
        in_hand =
            InHand-mono (s.network ++ (_ ∷ [])) d move
              (λ t i h e.
                find_slot-other (has_id t.id) put s.slots k h.slot (λ y. ground (arith, h.past))
                  h.found h.spared
                ∙ (sym h.found ∙ e))
              (InHand-append s.network (record { dest = s.dest; id = u32 s.taken; label = none }) d
                (λ t h. older t h.past) v.in_hand);
        past =
            All-modify (IsPast (s.taken + 1)) s.slots k put (λ y q. inr (omega arith))
              (All-mono (IsPast s.taken) (IsPast (s.taken + 1)) s.slots
                (λ y q. later_IsPast s.taken y q) v.past);
        starts = λ none_sent. absurd (omega arith);
        fills = tt;
      }

  pub released-IsSound :
      (s : Root) (p : SamplerPhase) (i : ℕ) (t : Ticket)
      → IsSoundAt mpi_size s p (handling i t)
      → IsSoundAt mpi_size (released mpi_size s i) p receiving
  unfolding released
  released-IsSound s p i t v =
      let (h, new, found) = v.in_hand in
      let free = λ (x : RootSlot). record x { mark = (x.mark + mpi_size) % 256 } in
      record {
        dest = v.dest;
        held =
            All-mono₂ _ _ _ s.network
              (λ x new_x h_x. freed-IsHeld few s.slots p s.taken i t.id x found new_x h_x) new
              v.held;
        distinct = v.distinct;
        in_hand = tt;
        past = All-modify (IsPast s.taken) s.slots i free (λ y q. q) v.past;
        starts = λ none_sent. absurd (omega (arith, h.past));
        fills =
            freed-Fills s.slots free s.dest i h.slot p h.spared
              (some-injective _ _ (sym h.found ∙ found)) v.fills;
      }

-- The parts of a network around one of its tickets, which may be relabelled.
pub Distinct-split :
    (xs : List Ticket) (y : Ticket) (ys : List Ticket)
    → Distinct (xs ++ (y ∷ ys))
    → All (IsNew y.id) (xs ++ ys)
      × Distinct (xs ++ ys)
      × ((z : Ticket) → z.id ≡ y.id → Distinct (xs ++ (z ∷ ys)))
Distinct-split [] y ys (new, rest) =
    (new, rest, λ z e. (subst (λ n. All (IsNew n) ys) (sym e) new, rest))
Distinct-split (x ∷ xs) y ys (new, rest) =
    let (new_y, rest', put) = Distinct-split xs y ys rest in
    let (x_y, new', put') = All-split (IsNew x.id) xs y ys new in
    ((λ e. x_y (sym e), new_y), (new', rest'), λ z e. (put' z (λ q. x_y (q ∙ e)), put z e))

pub InHand-network :
    (m : ℕ) (slots : List RootSlot) (p : SamplerPhase) (taken : ℕ) (network network' : List Ticket)
    (d : DetectorPhase)
    → ((id : ℕ) → All (IsNew id) network → All (IsNew id) network')
    → InHand m slots p taken network d
    → InHand m slots p taken network' d
InHand-network m slots p taken network network' receiving h v = tt
InHand-network m slots p taken network network' (searching t) h (held, new) = (held, h t.id new)
InHand-network m slots p taken network network' (stuck t) h v = absurd v
InHand-network m slots p taken network network' (handling i t) h (held, new, found) =
    (held, h t.id new, found)

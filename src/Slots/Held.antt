-- ===== src/Slots/Held.antt =====
-- What a slot is to an example on its way.
pub mod Steps
use minas_flink.Prelude.{
  ℕ, zero, suc, ◌+◌, ◌%◌, ◌≤◌, ◌<◌, ◌≡◌, ◌≢◌, ◌⊎◌, refl, ap, sym, ◌∙◌, some, true, false, List, [],
  ◌∷◌, ◌++◌, modify, get_elem?, get_elem?-modify, get_elem?-modify_ne, arith, length, ◌==◌, inl,
  inr, Bool-cases, All, All-append, All-mono, u32, u32_mod,
}
use mathlib.Core.Option.{some-injective}
use minas_flink.Slots.{
  RootSlot, is_usable, find_slot, Ticket, SamplerPhase, looking, asleep, filling, DetectorPhase,
  receiving, searching, stuck, handling, Root,
}
use minas_flink.Slots.Search.{
  has_id, find_slot-passes, find_slot-modify, find_slot-other, find_slot-put, find_slot-first,
  is_usable-used,
}

-- The sampler is not filling this slot.
abbrev pub Spares : SamplerPhase → ℕ → Type 0
Spares (filling k) i = i ≢ k
Spares _ i = Unit

-- The example with an id that was sent to a process is in the first slot with that id, the slot has the
-- mark of the process, and the sampler leaves it alone.
pub record IsHeld (mpi_size : ℕ) (slots : List RootSlot) (sampler : SamplerPhase)
    (taken dest id : ℕ) : Type 0 where
  pub slot : ℕ
  pub entry : RootSlot
  pub found : find_slot (has_id id) slots ≡ some slot
  pub at : get_elem? slots slot ≡ some entry
  pub mark : entry.mark ≡ dest
  pub spared : Spares sampler slot
  pub some_dest : 0 < dest
  pub inside : dest < mpi_size
  pub past : id < taken

abbrev pub Held : ℕ → List RootSlot → SamplerPhase → ℕ → Ticket → Type 0
Held mpi_size slots sampler taken t = IsHeld mpi_size slots sampler taken t.dest t.id

-- The tickets have different ids.
abbrev pub IsNew : ℕ → Ticket → Type 0
IsNew id t = id ≢ t.id

abbrev pub Distinct : List Ticket → Type 0
Distinct [] = Unit
Distinct (t ∷ ts) = All (IsNew t.id) ts × Distinct ts

-- The ticket that the detector has taken, whose slot it always finds at once.
abbrev pub InHand : ℕ → List RootSlot → SamplerPhase → ℕ → List Ticket → DetectorPhase → Type 0
InHand mpi_size slots sampler taken network receiving = Unit
InHand mpi_size slots sampler taken network (searching t) =
    Held mpi_size slots sampler taken t × All (IsNew t.id) network
InHand mpi_size slots sampler taken network (stuck t) = ⊥
InHand mpi_size slots sampler taken network (handling i t) =
    Held mpi_size slots sampler taken t
    × All (IsNew t.id) network
    × (find_slot (has_id t.id) slots ≡ some i)

-- Until the first example is sent, the first slot is free, or the sampler fills it.
abbrev pub Starts : List RootSlot → SamplerPhase → Type 0
Starts slots (filling k) = k ≡ 0
Starts slots _ = (x : RootSlot) × (get_elem? slots 0 ≡ some x) × (x.mark ≡ 0)

-- The slot that the sampler fills.
abbrev pub Fills : List RootSlot → ℕ → SamplerPhase → Type 0
Fills slots dest (filling k) =
    (x : RootSlot) × (get_elem? slots k ≡ some x) × (x.mark ≡ dest) × (0 < dest)
Fills slots dest _ = Unit

-- The id of a slot is that of an example that has been sent, or still 0.
abbrev pub IsPast : ℕ → RootSlot → Type 0
IsPast taken x = (x.id ≡ 0) ⊎ (x.id < taken)

-- The invariant, for the phases of the two threads.
pub record IsSoundAt (mpi_size : ℕ) (s : Root) (p : SamplerPhase) (d : DetectorPhase) : Type 0 where
  pub dest : s.dest < mpi_size
  pub held : All (Held mpi_size s.slots p s.taken) s.network
  pub distinct : Distinct s.network
  pub in_hand : InHand mpi_size s.slots p s.taken s.network d
  pub past : All (IsPast s.taken) s.slots
  pub starts : s.taken ≡ 0 → Starts s.slots p
  pub fills : Fills s.slots s.dest p

abbrev pub IsSound : ℕ → Root → Type 0
IsSound mpi_size s = IsSoundAt mpi_size s s.sampler s.detector

pub true_ne_false : true ≡ false → ⊥
true_ne_false e = cc e

pub later_IsPast : (taken : ℕ) (x : RootSlot) → IsPast taken x → IsPast (taken + 1) x
later_IsPast taken x (inl e) = inl e
later_IsPast taken x (inr lt) = inr (omega arith)

pub free_usable : (m dest : ℕ) (x : RootSlot) → x.mark ≡ 0 → is_usable m dest x ≡ true
unfolding is_usable
free_usable m dest x free = ground (arith, free)

-- What is in hand when all that is held stays held.
pub InHand-mono :
    {m : ℕ} {slots slots' : List RootSlot} {p p' : SamplerPhase} {taken taken' : ℕ}
    (network : List Ticket) (d : DetectorPhase)
    → ((t : Ticket) → Held m slots p taken t → Held m slots' p' taken' t)
    → ((t : Ticket) (i : ℕ)
        → Held m slots p taken t
        → find_slot (has_id t.id) slots ≡ some i
        → find_slot (has_id t.id) slots' ≡ some i)
    → InHand m slots p taken network d
    → InHand m slots' p' taken' network d
InHand-mono network receiving h g v = tt
InHand-mono network (searching t) h g (held, new) = (h t held, new)
InHand-mono network (stuck t) h g v = absurd v
InHand-mono network (handling i t) h g (held, new, found) = (h t held, new, g t i held found)

-- The slots of two held examples with different ids.
pub IsHeld-slot :
    {m : ℕ} {slots : List RootSlot} {p : SamplerPhase} {taken dest id : ℕ} (k : ℕ) (y : RootSlot)
    → (h : IsHeld m slots p taken dest id) → get_elem? slots k ≡ some y
    → h.slot ≡ k
    → h.entry ≡ y
IsHeld-slot k y h at e = some-injective _ _ (sym h.at ∙ ap (get_elem? _) e ∙ at)

pub phase-IsHeld :
    {m : ℕ} (slots : List RootSlot) (p p' : SamplerPhase) (taken : ℕ) (t : Ticket)
    → ((i : ℕ) → Spares p' i)
    → Held m slots p taken t
    → Held m slots p' taken t
phase-IsHeld slots p p' taken t spares h = record {
  slot = h.slot;
  entry = h.entry;
  found = h.found;
  at = h.at;
  mark = h.mark;
  spared = spares h.slot;
  some_dest = h.some_dest;
  inside = h.inside;
  past = h.past;
}

pub Distinct-append :
    (ts : List Ticket) (t : Ticket)
    → Distinct ts
    → All (λ u. u.id ≢ t.id) ts
    → Distinct (ts ++ (t ∷ []))
Distinct-append [] t d new = (tt, tt)
Distinct-append (u ∷ ts) t (first, rest) (new, news) =
    (All-append (IsNew u.id) ts (t ∷ []) first (new, tt), Distinct-append ts t rest news)

-- A new ticket on its way.
pub InHand-append :
    {m : ℕ} {slots : List RootSlot} {p : SamplerPhase} {taken : ℕ} (network : List Ticket)
    (x : Ticket) (d : DetectorPhase)
    → ((t : Ticket) → Held m slots p taken t → t.id ≢ x.id)
    → InHand m slots p taken network d
    → InHand m slots p taken (network ++ (x ∷ [])) d
InHand-append network x receiving h v = tt
InHand-append network x (searching t) h (held, new) =
    (held, All-append (IsNew t.id) network (x ∷ []) new (h t held, tt))
InHand-append network x (stuck t) h v = absurd v
InHand-append network x (handling i t) h (held, new, found) =
    (held, All-append (IsNew t.id) network (x ∷ []) new (h t held, tt), found)

pub freed-Fills :
    (slots : List RootSlot) (f : RootSlot → RootSlot) (dest i j : ℕ) (p : SamplerPhase)
    → Spares p j
    → j ≡ i
    → Fills slots dest p
    → Fills (modify slots i f) dest p
freed-Fills slots f dest i j looking spared e v = tt
freed-Fills slots f dest i j asleep spared e v = tt
freed-Fills slots f dest i j (filling k) spared e (x, at, mark, some_dest) =
    (x, get_elem?-modify_ne slots i k f (λ q. spared (e ∙ q)) ∙ at, mark, some_dest)

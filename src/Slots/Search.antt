-- ===== src/Slots/Search.antt =====
-- What the two searches find.
use minas_flink.Prelude.{
  ℕ, zero, suc, ◌<◌, ◌≡◌, ◌≢◌, ◌⊎◌, refl, ap, sym, ◌∙◌, subst, Option, none, some, Bool, true,
  false, List, [], ◌∷◌, modify, get_elem?, arith, length, ◌==◌, inl, inr, Bool-cases, if◌then◌else◌,
  All,
}
use mathlib.Core.Option.{some-injective}
use minas_flink.Slots.{RootSlot, is_usable, is_sent, index_after, find_slot}

-- The first slot with an id.
abbrev pub has_id : ℕ → RootSlot → Bool
has_id id s = s.id == id

-- Whether the search ends at the first slot.
abbrev Ends : Bool → Option ℕ → ℕ → Type 0
Ends true o i = 0 ≡ i
Ends false o i = (j : ℕ) × (suc j ≡ i) × (o ≡ some j)

ends :
    (b : Bool) (o : Option ℕ) (i : ℕ) → (if b then some 0 else index_after o) ≡ some i → Ends b o i
unfolding index_after
ends true o i e = some-injective _ _ e
ends false none i e = cc e
ends false (some j) i e = (j, some-injective _ _ e, refl)

find_slot-cases :
    (test : RootSlot → Bool) (s : RootSlot) (slots : List RootSlot) (i : ℕ)
    → find_slot test (s ∷ slots) ≡ some i
    → ((test s ≡ true) × (0 ≡ i))
      ⊎ ((test s ≡ false) × (j : ℕ) × (suc j ≡ i) × (find_slot test slots ≡ some j))
unfolding find_slot
find_slot-cases test s slots i e =
    let at_end = ends (test s) (find_slot test slots) i e in
    elim (Bool-cases (test s)) [
      | inl yes_here ↦ inl (yes_here, subst (λ b. Ends b (find_slot test slots) i) yes_here at_end)
      | inr no_here ↦
          let (j, later, rest) = subst (λ b. Ends b (find_slot test slots) i) no_here at_end in
          inr (no_here, j, later, rest)
    ]

-- A search ends at a slot that passes the test.
pub find_slot-passes :
    (test : RootSlot → Bool) (slots : List RootSlot) (i : ℕ)
    → find_slot test slots ≡ some i
    → (s : RootSlot) × (get_elem? slots i ≡ some s) × (test s ≡ true)
unfolding find_slot
find_slot-passes test [] i e = cc e
find_slot-passes test (s ∷ slots) i e = elim (find_slot-cases test s slots i e) [
  | inl (yes_here, at_start) ↦
      subst (λ n. (x : RootSlot) × (get_elem? (s ∷ slots) n ≡ some x) × (test x ≡ true)) at_start
        (s, refl, yes_here)
  | inr (no_here, j, later, rest) ↦
      subst (λ n. (x : RootSlot) × (get_elem? (s ∷ slots) n ≡ some x) × (test x ≡ true)) later
        (find_slot-passes test slots j rest)
]

-- A change of one slot that leaves the test alone leaves the search alone.
pub find_slot-modify :
    (test : RootSlot → Bool) (f : RootSlot → RootSlot) (slots : List RootSlot) (k : ℕ)
    → ((s : RootSlot) → test (f s) ≡ test s)
    → find_slot test (modify slots k f) ≡ find_slot test slots
unfolding find_slot
find_slot-modify test f [] k same = refl
find_slot-modify test f (s ∷ slots) zero same = rw (same s) refl
find_slot-modify test f (s ∷ slots) (suc k) same =
    ap (λ o. if test s then some 0 else index_after o) (find_slot-modify test f slots k same)

-- Nor does a change of another slot that then does not pass.
pub find_slot-other :
    (test : RootSlot → Bool) (f : RootSlot → RootSlot) (slots : List RootSlot) (k i : ℕ)
    → ((s : RootSlot) → test (f s) ≡ false)
    → find_slot test slots ≡ some i
    → i ≢ k
    → find_slot test (modify slots k f) ≡ some i
unfolding find_slot index_after
find_slot-other test f [] k i fails e ne = e
find_slot-other test f (s ∷ slots) zero i fails e ne = elim (find_slot-cases test s slots i e) [
  | inl (yes_here, at_start) ↦ absurd (ne (sym at_start))
  | inr (no_here, j, later, rest) ↦ rw (fails s, rest) (ap some later)
]
find_slot-other test f (s ∷ slots) (suc k) i fails e ne = elim (find_slot-cases test s slots i e) [
  | inl (yes_here, at_start) ↦ rw yes_here (ap some at_start)
  | inr (no_here, j, later, rest) ↦
      let ih = find_slot-other test f slots k j fails rest (λ q. ne (sym later ∙ ap suc q)) in
      rw (no_here, ih) (ap some later)
]

-- A slot that is given an id that no other has.
pub find_slot-put :
    (test : RootSlot → Bool) (f : RootSlot → RootSlot) (slots : List RootSlot) (k : ℕ)
    → ((s : RootSlot) → test (f s) ≡ true)
    → All (λ s. test s ≡ false) slots
    → k < length slots
    → find_slot test (modify slots k f) ≡ some k
unfolding find_slot index_after
find_slot-put test f [] k passes others lt = absurd (omega arith)
find_slot-put test f (s ∷ slots) zero passes others lt = rw (passes s) refl
find_slot-put test f (s ∷ slots) (suc k) passes (other, others) lt =
    rw (other, find_slot-put test f slots k passes others (omega arith)) refl

-- The search of the detector finds the first slot with the id, if its mark is that of the process.
pub find_slot-is_sent :
    (dest id : ℕ) (slots : List RootSlot) (i : ℕ) (s : RootSlot)
    → dest < 128
    → find_slot (has_id id) slots ≡ some i
    → get_elem? slots i ≡ some s
    → s.mark ≡ dest
    → find_slot (is_sent dest id) slots ≡ some i
unfolding find_slot index_after is_sent
find_slot-is_sent dest id [] i s small e at mark = cc e
find_slot-is_sent dest id (x ∷ slots) i s small e at mark =
    elim (find_slot-cases (has_id id) x slots i e) [
      | inl (yes_here, at_start) ↦
          let at₀ = subst (λ n. get_elem? (x ∷ slots) n ≡ some s) (sym at_start) at in
          let mark₀ : x.mark ≡ dest = ap (λ y. y.mark) (some-injective _ _ at₀) ∙ mark in
          let sent : is_sent dest id x ≡ true = ground (arith, yes_here, mark₀) in
          rw sent (ap some at_start)
      | inr (no_here, j, later, rest) ↦
          let at₁ = subst (λ n. get_elem? (x ∷ slots) n ≡ some s) (sym later) at in
          let sent : is_sent dest id x ≡ false = ground (arith, no_here) in
          rw (sent, find_slot-is_sent dest id slots j s small rest at₁ mark) (ap some later)
    ]

-- A slot in use is not usable.
pub is_usable-used :
    (mpi_size dest : ℕ) (s : RootSlot)
    → 0 < s.mark
    → s.mark < mpi_size
    → is_usable mpi_size dest s ≡ false
unfolding is_usable
is_usable-used mpi_size dest s pos lt = ground arith

pub find_slot-first :
    (test : RootSlot → Bool) (f : RootSlot → RootSlot) (slots : List RootSlot) (k : ℕ)
    → ((s : RootSlot) → test (f s) ≡ true)
    → k ≡ 0
    → k < length slots
    → find_slot test (modify slots k f) ≡ some k
unfolding find_slot
find_slot-first test f [] k passes e lt = absurd (omega arith)
find_slot-first test f (s ∷ slots) zero passes e lt = rw (passes s) refl
find_slot-first test f (s ∷ slots) (suc k) passes e lt = absurd (omega arith)

pub find_slot-head :
    (test : RootSlot → Bool) (slots : List RootSlot) (x : RootSlot)
    → get_elem? slots 0 ≡ some x
    → test x ≡ true
    → find_slot test slots ≡ some 0
unfolding find_slot
find_slot-head test [] x at passes = cc at
find_slot-head test (s ∷ slots) x at passes =
    let same = some-injective _ _ at in
    let here : test s ≡ true = ap test same ∙ passes in rw here refl

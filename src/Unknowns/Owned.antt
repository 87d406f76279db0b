-- ===== src/Unknowns/Owned.antt =====
-- A buffer whose entries each have a block of their own: a write to one entry changes no other.
use minas_flink.Prelude.{
  ℕ, zero, suc, ◌+◌, ◌≤◌, ◌<◌, ◌≡◌, ◌≢◌, refl, ap, ap₂, ◌∙◌, List, [], ◌∷◌, map, some, arith,
  length, get_elem?, get_or, modify, length-modify,
}
use native.Mathlib.Nat.{zero-add}
use minas_flink.Data.{Slot, Buffer}
use minas_flink.Unknowns.{Unknown, deref, contents, block_of, write_block, store, copy}

-- The pointers are the indices from `n` on.
abbrev pub OwnedFrom : ℕ → List Slot → Type 0
OwnedFrom n [] = Unit
OwnedFrom n (s ∷ slots) = (s.val ≡ n) × OwnedFrom (suc n) slots

pub record IsOwned {W : Type 0} (b : Buffer W) : Type 0 where
  pub pointers : OwnedFrom 0 b.slots
  pub allocated : length b.slots ≤ length b.blocks

block_of-owned :
    (n : ℕ) (slots : List Slot) (i : ℕ)
    → OwnedFrom n slots
    → i < length slots
    → block_of slots i ≡ some (n + i)
block_of-owned n [] i o h = absurd (omega arith)
block_of-owned n (s ∷ slots) zero o h = ap some (omega arith)
block_of-owned n (s ∷ slots) (suc i) o h =
    block_of-owned (suc n) slots i o.1 (omega arith) ∙ ap some (omega arith)

OwnedFrom-modify :
    (n : ℕ) (slots : List Slot) (i : ℕ) (id : ℕ)
    → OwnedFrom n slots
    → OwnedFrom n (modify slots i (λ s. record s { id = id }))
OwnedFrom-modify n [] i id o = tt
OwnedFrom-modify n (s ∷ slots) zero id o = o
OwnedFrom-modify n (s ∷ slots) (suc i) id o = (o.0, OwnedFrom-modify (suc n) slots i id o.1)

module _ {W : Type 0} where
  get_or-modify_self :
      (blocks : List (List W)) (i : ℕ) (v : List W)
      → i < length blocks
      → get_or (modify blocks i (λ _. v)) i [] ≡ v
  get_or-modify_self [] i v h = absurd (omega arith)
  get_or-modify_self (b ∷ blocks) zero v h = refl
  get_or-modify_self (b ∷ blocks) (suc i) v h = get_or-modify_self blocks i v (omega arith)

  get_or-modify_ne :
      (blocks : List (List W)) (i j : ℕ) (v : List W)
      → i ≢ j
      → get_or (modify blocks i (λ _. v)) j [] ≡ get_or blocks j []
  get_or-modify_ne [] i j v h = refl
  get_or-modify_ne (b ∷ blocks) zero zero v h = absurd (h refl)
  get_or-modify_ne (b ∷ blocks) zero (suc j) v h = refl
  get_or-modify_ne (b ∷ blocks) (suc i) zero v h = refl
  get_or-modify_ne (b ∷ blocks) (suc i) (suc j) v h =
      get_or-modify_ne blocks i j v (λ e. h (ap suc e))

  abbrev unknown : ℕ → List W → Unknown W
  unknown id val = record { id = id; val = val }

  -- A write to a block before the entries changes none of them.
  map-deref_below :
      (blocks : List (List W)) (n : ℕ) (slots : List Slot) (p : ℕ) (v : List W)
      → OwnedFrom n slots
      → p < n
      → map (deref (modify blocks p (λ _. v))) slots ≡ map (deref blocks) slots
  unfolding deref
  map-deref_below blocks n [] p v o h = refl
  map-deref_below blocks n (s ∷ slots) p v (e, o) h =
      ap₂ ◌∷◌ (ap (unknown s.id) (get_or-modify_ne blocks p s.val v (omega arith)))
        (map-deref_below blocks (suc n) slots p v o (omega arith))

  map-deref-store :
      (blocks : List (List W)) (n : ℕ) (slots : List Slot) (i p id : ℕ) (v : List W)
      → OwnedFrom n slots
      → p ≡ n + i
      → n + length slots ≤ length blocks
      → i < length slots
      → map (deref (modify blocks p (λ _. v))) (modify slots i (λ s. record s { id = id }))
        ≡ modify (map (deref blocks) slots) i (λ _. unknown id v)
  unfolding deref
  map-deref-store blocks n [] i p id v o at room h = absurd (omega arith)
  map-deref-store blocks n (s ∷ slots) zero p id v (e, o) at room h =
      let here : s.val ≡ p = omega arith in
      ap₂ ◌∷◌ (rw here (ap (unknown id) (get_or-modify_self blocks p v (omega arith))))
        (map-deref_below blocks (suc n) slots p v o (omega arith))
  map-deref-store blocks n (s ∷ slots) (suc i) p id v (e, o) at room h =
      ap₂ ◌∷◌ (ap (unknown s.id) (get_or-modify_ne blocks p s.val v (omega arith)))
        (map-deref-store blocks (suc n) slots i p id v o (omega arith) (omega arith) (omega arith))

  copy-eq-store :
      (b : Buffer W) (to from : ℕ) {u : Unknown W}
      → get_elem? (contents b) from ≡ some u
      → copy b to from ≡ store b to u.id u.val
  unfolding copy
  copy-eq-store b to from at = rw (at, copy)

  -- A write to one entry.
  pub store-IsOwned :
      (b : Buffer W) (i id : ℕ) (v : List W)
      → IsOwned b
      → i < length b.slots
      → IsOwned (store b i id v)
        × (contents (store b i id v) ≡ modify (contents b) i (λ _. unknown id v))
        × (length (store b i id v).slots ≡ length b.slots)
  unfolding store contents
  store-IsOwned b i id v o h =
      let slots' = modify b.slots i (λ s. record s { id = id }) in
      let len = length-modify b.slots i (λ s. record s { id = id }) in
      let written = ap (λ q. write_block b.blocks q v) (block_of-owned 0 b.slots i o.pointers h) in
      let fits : length slots' ≤ length (store b i id v).blocks =
        rw (len, written, length-modify) o.allocated in
      (
        record { pointers = OwnedFrom-modify 0 b.slots i id o.pointers; allocated = fits },
        ap (λ blocks. map (deref blocks) slots') written
            ∙ map-deref-store b.blocks 0 b.slots i (0 + i) id v o.pointers refl
                (rw zero-add o.allocated) h,
        len,
      )

  -- A copy of one entry over another.
  pub copy-IsOwned :
      (b : Buffer W) (to from : ℕ) {u : Unknown W}
      → IsOwned b
      → to < length b.slots
      → get_elem? (contents b) from ≡ some u
      → IsOwned (copy b to from)
        × (contents (copy b to from) ≡ modify (contents b) to (λ _. u))
        × (length (copy b to from).slots ≡ length b.slots)
  copy-IsOwned b to from {u} o h at =
      let e : copy b to from ≡ store b to u.id u.val = copy-eq-store b to from at in
      rw e (store-IsOwned b to u.id u.val o h)

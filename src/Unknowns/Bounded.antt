-- ===== src/Unknowns/Bounded.antt =====
-- The whole of `minasHandleUnknown`: it takes in the example, and leaves room for the next one.
use minas_flink.Prelude.{
  lt→ltb, ℕ, zero, suc, ◌+◌, ◌-◌, ◌*◌, ◌≤◌, ◌<◌, ◌≡◌, refl, ap, ap₂, sym, ◌∙◌, subst, Bool, true,
  false, List, [], ◌∷◌, ◌++◌, arith, length, take, take-modify_last, u32_mod, add64, sub64,
  get_elem?, none, some, ltb, leb, leb→le, inl, inr, ◌⊎◌, Bool-cases, if◌then◌else◌, length-modify,
}
use minas_flink.Double.{Double, IsIeee}
use minas_flink.Data.{Example, Cluster, Buffer, MinasParams, MinasState, Model, size, ok}
use minas_flink.Sleep.{restore_sleep}
use minas_flink.Sleep.Frame.{unknowns-restore_sleep}
use minas_flink.Unknowns.{
  contents, copy, store, assign_slot, collect, take_unknown, is_due, collect_garbage,
  handle_unknown,
}
use minas_flink.Unknowns.Owned.{IsOwned, store-IsOwned}
use minas_flink.Unknowns.Compact.{held, length-contents, used-copy}
use minas_flink.Unknowns.Detect.{detect_novelties-IsChecked}

bump-le : (b : Bool) (n : ℕ) → let n' = if b then n + 1 else n in (n ≤ n') × (n' ≤ n + 1)
bump-le b n = ground arith

module _ {W : Type 0} where
  length-store :
      (b : Buffer W) (i id : ℕ) (v : List W) → length (store b i id v).slots ≡ length b.slots
  unfolding store
  length-store b i id v = length-modify b.slots i (λ s. record s { id = id })

  length-copy : (b : Buffer W) (to from : ℕ) → length (copy b to from).slots ≡ length b.slots
  unfolding copy
  length-copy b to from = grind (arith, length-store)

  -- A move of the second loop, which leaves the sizes alone.
  abbrev moved : Buffer W → ℕ → ℕ → Buffer W
  moved b ex n = let b' = if ltb 0 n then copy b (ex - n) ex else b in assign_slot b' (ex - n) ex

  used-moved : (b : Buffer W) (ex n : ℕ) → (moved b ex n).used ≡ b.used
  unfolding assign_slot
  used-moved b ex n = grind (arith, used-copy)

  length-moved : (b : Buffer W) (ex n : ℕ) → length (moved b ex n).slots ≡ length b.slots
  unfolding assign_slot
  length-moved b ex n = grind (arith, length-copy, length-modify)

  -- The second loop counts at most one entry in a round.
  collect-le :
      (last_nd_check left ex : ℕ) (b : Buffer W) (n : ℕ)
      → let (b', n') = collect last_nd_check left ex b n in
        (n ≤ n') × (n' ≤ n + left) × (b'.used ≡ b.used) × (length b'.slots ≡ length b.slots)
  unfolding collect
  collect-le last_nd_check zero ex b n = (omega arith, omega arith, refl, refl)
  collect-le last_nd_check (suc left) ex b n =
      let b' = moved b ex n in
      let id : ℕ = elim (get_elem? b'.slots ex) [ none ↦ 0 | some s ↦ s.id ] in
      let (up, bound, used, slots) =
        collect-le last_nd_check left (ex + 1) b' (if ltb id last_nd_check then n + 1 else n) in
      let (least, most) = bump-le (ltb id last_nd_check) n in
      (omega arith, omega arith, used ∙ used-moved b ex n, slots ∙ length-moved b ex n)

module _ {W : Type 0} ⦃D : Double W⦄ where
  -- The second `if` leaves a buffer that is not full.
  collect_garbage-fits :
      (params : MinasParams W) (s : MinasState W)
      → s.unknowns.used ≤ params.unknowns_max_size
      → 0 < params.unknowns_max_size
      → params.unknowns_max_size < u32_mod
      → let s' = collect_garbage params s in
        (s'.unknowns.used < params.unknowns_max_size)
        × (length s'.unknowns.slots ≡ length s.unknowns.slots)
        × (s'.model ≡ s.model)
  unfolding collect_garbage
  collect_garbage-fits params s h pos small =
      let (up, bound, used, slots) =
        collect-le s.last_nd_check (s.unknowns.used - 1) 1 s.unknowns 1 in
      let (b, n) = collect s.last_nd_check (s.unknowns.used - 1) 1 s.unknowns 1 in
      elim (Bool-cases (leb params.unknowns_max_size s.unknowns.used)) [
        | inl full ↦
            let all = leb→le params.unknowns_max_size s.unknowns.used full in
            let left : sub64 b.used n ≡ s.unknowns.used - n = omega arith in
            rw full (omega arith, slots, refl)
        | inr room ↦ rw room (ground arith, refl, refl)
      ]

  -- The new example is the last one, in an entry that was free.
  take_unknown-held :
      (s : MinasState W) (e : Example W)
      → IsOwned s.unknowns
      → s.unknowns.used < length s.unknowns.slots
      → s.unknowns.used < u32_mod
      → let s' = take_unknown s e in
        IsOwned s'.unknowns
        × (s'.unknowns.used ≡ s.unknowns.used + 1)
        × (length s'.unknowns.slots ≡ length s.unknowns.slots)
        × (held s'.unknowns ≡ held s.unknowns ++ (record { id = e.id; val = e.val } ∷ []))
        × (s'.model ≡ s.model)
  unfolding take_unknown store contents
  take_unknown-held s e o room small =
      let u = s.unknowns in
      let (o', now, slots) = store-IsOwned u u.used e.id e.val o room in
      let used : add64 u.used 1 ≡ suc u.used = omega arith in
      let last =
        take-modify_last (contents u) u.used (record { id = e.id; val = e.val })
          (rw length-contents room) in
      (
        record { pointers = o'.pointers; allocated = o'.allocated },
        omega arith,
        slots,
        ap₂ take used now ∙ last,
        refl,
      )

  -- The parameters and the state that the body relies on.
  pub record IsRoomy (params : MinasParams W) (s : MinasState W) : Type 0 where
    pub owned : IsOwned s.unknowns
    pub fits : s.unknowns.used < params.unknowns_max_size
    pub allocated : params.unknowns_max_size < length s.unknowns.slots
    pub small : params.unknowns_max_size < u32_mod
    pub some_model : 0 < size s.model
    pub some_k : 0 < params.k
    pub enough : params.k ≤ params.novelty_detection_trigger
    pub many : params.k * params.min_examples_per_cluster ≤ params.novelty_detection_trigger
    pub trigger : params.novelty_detection_trigger ≤ params.unknowns_max_size

  is_due-le :
      (params : MinasParams W) (s : MinasState W)
      → params.novelty_detection_trigger ≤ params.unknowns_max_size
      → is_due params s ≡ true
      → params.novelty_detection_trigger ≤ s.unknowns.used
  unfolding is_due
  is_due-le params s h due = ground arith

  collect_garbage_early :
      (params : MinasParams W) (s : MinasState W)
      → s.unknowns.used ≤ params.unknowns_max_size
      → is_due params s ≡ false
      → collect_garbage params s ≡ s
  unfolding is_due collect_garbage
  collect_garbage_early params s h early = ground arith

  early_room :
      (params : MinasParams W) (s : MinasState W)
      → s.unknowns.used ≤ params.unknowns_max_size
      → is_due params s ≡ false
      → s.unknowns.used < params.unknowns_max_size
  unfolding is_due
  early_room params s h early = ground arith

  -- What the body does when no detection is due: the example is the last one of the buffer, and that
  -- is all.
  pub record IsTaken (params : MinasParams W) (s : MinasState W) (e : Example W) (s' : MinasState W)
      (n_new : ℕ) : Type 0 where
    pub early : is_due params (take_unknown s e) ≡ false
    pub taken : s' ≡ take_unknown s e
    pub last : held s'.unknowns ≡ held s.unknowns ++ (record { id = e.id; val = e.val } ∷ [])
    pub none_new : n_new ≡ 0

  -- What it does when one is due.
  pub record IsGrown (params : MinasParams W) (s : MinasState W) (e : Example W) (s' : MinasState W)
      (n_new : ℕ) (new : List (Cluster W)) : Type 0 where
    pub due : is_due params (take_unknown s e) ≡ true
    pub appended : s'.model.clusters ≡ (restore_sleep (take_unknown s e)).model.clusters ++ new
    pub returned : length new ≡ n_new
    pub found : 0 < n_new

module _ {W : Type 0} ⦃D : Double W⦄ (ieee : IsIeee W) (junk : W) where
  -- `minasHandleUnknown` returns, and leaves room in the buffer for the next example, in as many
  -- entries as before, if there is room for this one, the buffer has more entries than
  -- `unknownsMaxSize`, each with a block of its own, `unknownsMaxSize` is below 2^32, the model is
  -- not empty, `k` is not 0, the trigger is at least `k` and at least `k * minExamplesPerCluster`
  -- and at most `unknownsMaxSize`, and the operations on doubles obey the laws of `IsIeee`. If no
  -- detection is due, it only puts the example at the end of the buffer and returns 0. If one is
  -- due, it returns the number of the clusters that it has appended to the model, which is not 0.
  pub handle_unknown-fits :
      (params : MinasParams W) (s : MinasState W) (e : Example W)
      → IsRoomy params s
      → (s' : MinasState W) × (n_new : ℕ) × (new : List (Cluster W)) × (handle_unknown junk params s
            e
          ≡ ok (s', n_new))
        × (s'.unknowns.used < params.unknowns_max_size)
        × (length s'.unknowns.slots ≡ length s.unknowns.slots)
        × (IsTaken params s e s' n_new ⊎ IsGrown params s e s' n_new new)
  unfolding handle_unknown
  handle_unknown-fits params s e h =
      let t = take_unknown s e in
      let room : s.unknowns.used < length s.unknowns.slots = omega (arith, h.fits, h.allocated) in
      let (o, used, slots, last, same) =
        take_unknown-held s e h.owned room (omega (arith, h.fits, h.small)) in
      let fits = lt→ltb s.unknowns.used (length s.unknowns.slots) room in
      elim (Bool-cases (is_due params t)) [
        | inl due ↦
            let at_least = is_due-le params t h.trigger due in
            let (d, n_new, new, run, checked) =
              detect_novelties-IsChecked ieee junk params t o (omega (arith, h.allocated))
                (omega (arith, h.fits, h.small))
                (subst (λ (m : Model W). 0 < size m) (sym same) h.some_model) h.some_k
                (omega (arith, h.enough)) (omega (arith, h.many)) in
            let kept = unknowns-restore_sleep t in
            let fewer = subst (λ (b : Buffer W). d.unknowns.used ≤ b.used) kept checked.fewer in
            let (fits', slots', model') =
              collect_garbage-fits params d (omega (arith, h.fits)) (omega (arith, h.fits))
                h.small in
            (
              collect_garbage params d,
              n_new,
              new,
              rw (fits, due, run) refl,
              fits',
              slots' ∙ checked.slots ∙ ap (λ (b : Buffer W). length b.slots) kept ∙ slots,
              inr record {
                due = due;
                appended = ap (λ (m : Model W). m.clusters) model' ∙ checked.appended;
                returned = checked.returned;
                found = checked.found;
              },
            )
        | inr early ↦
            let stays = collect_garbage_early params t (omega (arith, h.fits)) early in
            (
              t,
              0,
              [],
              rw (fits, early, stays) refl,
              early_room params t (omega (arith, h.fits)) early,
              slots,
              inl record { early = early; taken = refl; last = last; none_new = refl },
            )
      ]

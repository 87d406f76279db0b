-- ===== src/Online/Step.antt =====
-- A line with an example, from the search for its cluster to the buffer and the new clusters.
use minas_flink.Prelude.{
  ℕ, ◌+◌, ◌*◌, ◌≤◌, ◌<◌, ◌≡◌, refl, ap, sym, ◌∙◌, subst, Bool, true, false, List, [], ◌∷◌, ◌++◌,
  arith, length, map, take, drop, ◌⊎◌, inl, inr, Bool-cases, ◌==◌, ltb, u32, add64, length-append,
  length-map, length-modify, take-append-drop, if◌then◌else◌,
}
use minas_flink.Double.{Double, IsIeee}
use minas_flink.Data.{
  Example, Cluster, Match, MinasParams, MinasState, Buffer, minas_unk_label, size, ok,
}
use minas_flink.Nearest.Reference.{distance_to}
use minas_flink.Sleep.{is_stale, handle_sleep, doze, restore_sleep}
use minas_flink.Sleep.Frame.{size-restore_sleep, unknowns-restore_sleep}
use minas_flink.Identify.{note_match, settle}
use minas_flink.Identify.Settle.{identify-settles}
use minas_flink.Unknowns.{take_unknown}
use minas_flink.Unknowns.Compact.{held}
use minas_flink.Unknowns.Owned.{IsOwned}
use minas_flink.Unknowns.Bounded.{IsRoomy, handle_unknown-fits}
use minas_flink.Online.{next_example, show, show_new, take_match, read_example_line}

module _ {W : Type 0} where
  length-doze :
      (limit threshold curr_id counter : ℕ) (cs : List (Cluster W))
      → length (doze limit threshold curr_id counter cs).0 ≡ length cs
  unfolding doze
  length-doze limit threshold curr_id counter [] = refl
  length-doze limit threshold curr_id counter (c ∷ cs) =
      let stale = is_stale threshold curr_id c in
      let counter' = if c.is_sleep then counter else if stale then add64 counter 1 else counter in
      ground (arith, length-doze limit threshold curr_id counter' cs)

  size-handle_sleep :
      (params : MinasParams W) (s : MinasState W)
      → size (handle_sleep params s).model ≡ size s.model
  unfolding handle_sleep
  size-handle_sleep params s = ground (
    arith,
    length-doze (u32 (2 * params.k)) params.threshold_forgetting_past s.curr_id s.sleep_counter
        s.model.clusters,
  )

  unknowns-handle_sleep :
      (params : MinasParams W) (s : MinasState W) → (handle_sleep params s).unknowns ≡ s.unknowns
  unfolding handle_sleep
  unknowns-handle_sleep params s = ground arith

  pub size-show_new :
      (interest : Bool) (n : ℕ) (s : MinasState W)
      → size (show_new interest n s).model ≡ size s.model
  unfolding show_new
  size-show_new interest n s =
      length-append (take n s.model.clusters) (map (show interest) (drop n s.model.clusters))
      ∙ ap (λ i. length (take n s.model.clusters) + i)
          (length-map (show interest) (drop n s.model.clusters))
      ∙ sym (length-append (take n s.model.clusters) (drop n s.model.clusters))
      ∙ ap length (take-append-drop n s.model.clusters)

module _ {W : Type 0} ⦃D : Double W⦄ where
  -- What `identify` settles on leaves the buffer and the number of clusters alone.
  size-settle :
      (s s₀ : MinasState W) (e : Example W) (i : ℕ) (dist : W) (c : Cluster W)
      → (s₀ ≡ s) ⊎ (s₀ ≡ restore_sleep s)
      → let (s', m) = settle s₀ e i dist c in
        (size s'.model ≡ size s.model) × (s'.unknowns ≡ s.unknowns) × (m.point_id ≡ e.id)
  unfolding settle
  size-settle s s₀ e i dist c from =
      let len = length-modify s₀.model.clusters i (note_match e dist) in
      elim from [
        | inl same ↦ (
          len ∙ ap (λ (t : MinasState W). size t.model) same,
          ap (λ (t : MinasState W). t.unknowns) same,
          refl,
        )
        | inr woken ↦ (
          len ∙ ap (λ (t : MinasState W). size t.model) woken ∙ size-restore_sleep s,
          ap (λ (t : MinasState W). t.unknowns) woken ∙ unknowns-restore_sleep s,
          refl,
        )
      ]

  pub size-take_unknown :
      (s : MinasState W) (e : Example W) → size (take_unknown s e).model ≡ size s.model
  unfolding take_unknown
  size-take_unknown s e = refl

  take_match-known :
      (junk : W) (interest : Bool) (params : MinasParams W) (s : MinasState W) (e : Example W)
      (m : Match W)
      → m.label == minas_unk_label ≡ false
      → take_match junk interest params s e m ≡ ok s
  unfolding take_match
  take_match-known junk interest params s e m known = rw known refl

  pub IsRoomy-frame :
      (params : MinasParams W) (s s' : MinasState W)
      → s'.unknowns ≡ s.unknowns
      → size s'.model ≡ size s.model
      → IsRoomy params s
      → IsRoomy params s'
  IsRoomy-frame params s s' same len h = record {
    owned = subst IsOwned (sym same) h.owned;
    fits = subst (λ (b : Buffer W). b.used < params.unknowns_max_size) (sym same) h.fits;
    allocated =
        subst (λ (b : Buffer W). params.unknowns_max_size < length b.slots) (sym same) h.allocated;
    small = h.small;
    some_model = rw len h.some_model;
    some_k = h.some_k;
    enough = h.enough;
    many = h.many;
    trigger = h.trigger;
  }

  -- The three ends of a line with an example: it is known, it is kept in the buffer, or the model has
  -- grown by new clusters.
  abbrev pub IsEnded : MinasState W → List W → MinasState W → Match W → Type 0
  IsEnded s val s' m =
      (m.label == minas_unk_label ≡ false)
        × (s'.unknowns ≡ s.unknowns)
        × (size s'.model ≡ size s.model)
      ⊎ (m.label == minas_unk_label ≡ true)
        × (held s'.unknowns ≡ held s.unknowns ++ (record { id = s.next_id; val = val } ∷ []))
        × (size s'.model ≡ size s.model)
      ⊎ (m.label == minas_unk_label ≡ true) × (size s.model < size s'.model)

module _ {W : Type 0} ⦃D : Double W⦄ (ieee : IsIeee W) (junk : W) (interest : Bool)
    (params : MinasParams W) where
  unknown-ends :
      (s s₁ : MinasState W) (val : List W) (m : Match W)
      → s₁.unknowns ≡ s.unknowns
      → size s₁.model ≡ size s.model
      → IsRoomy params s
      → m.label == minas_unk_label ≡ true
      → let e : Example W = record { id = s.next_id; label = 0; val = val } in
        (s' : MinasState W) × (take_match junk interest params s₁ e m ≡ ok s')
        × (s'.unknowns.used < params.unknowns_max_size)
        × (length s'.unknowns.slots ≡ length s.unknowns.slots)
        × IsEnded s val s' m
  unfolding take_match show_new
  unknown-ends s s₁ val m same len h unknown =
      let e : Example W = record { id = s.next_id; label = m.label; val = val } in
      let last = record { id = s.next_id; val = val } ∷ [] in
      let (t, n_new, new, run, fits, slots, end) =
        handle_unknown-fits ieee junk params s₁ e (IsRoomy-frame params s s₁ same len h) in
      let shown = size-show_new interest (size s₁.model) t in
      (
        show_new interest (size s₁.model) t,
        rw (unknown, run) refl,
        fits,
        slots ∙ ap (λ (b : Buffer W). length b.slots) same,
        elim end [
          | inl taken ↦ inr (
              inl (
                unknown,
                taken.last ∙ ap (λ (b : Buffer W). held b ++ last) same,
                shown
                    ∙ ap (λ (r : MinasState W). size r.model) taken.taken
                    ∙ size-take_unknown s₁ e
                    ∙ len,
              ))
          | inr grown ↦
              let stored = take_unknown s₁ e in
              let sum =
                ap length grown.appended
                ∙ length-append (restore_sleep stored).model.clusters new in
              let woken = size-restore_sleep stored ∙ size-take_unknown s₁ e ∙ len in
              inr (inr (unknown, omega (arith, grown.returned, grown.found)))
        ],
      )

  -- A line with an example goes through if the model is complete and not empty, `k` is not 0, the
  -- buffer has room for one example, has more entries than `unknownsMaxSize`, each with a block of
  -- its own, `unknownsMaxSize` is below 2^32, the trigger is at least `k` and at least `k *
  -- minExamplesPerCluster` and at most `unknownsMaxSize`, and the operations on doubles obey the
  -- laws of `IsIeee`. The match has the id of the example, and the buffer has room for the next
  -- one, in as many entries as before. If the label is not '-', then the buffer and the number of
  -- the clusters stay; if it is, then the example is put at the end of the buffer and the number
  -- of the clusters stays, or that number grows.
  pub read_example_line-fits :
      (s : MinasState W) (val : List W)
      → IsRoomy params s
      → params.k ≤ size s.model
      → (s' : MinasState W) × (m : Match W) × (read_example_line junk interest params s val
          ≡ ok (s', m))
        × (m.point_id ≡ s.next_id)
        × (s'.unknowns.used < params.unknowns_max_size)
        × (length s'.unknowns.slots ≡ length s.unknowns.slots)
        × IsEnded s val s' m
  unfolding read_example_line next_example
  read_example_line-fits s val h complete =
      let s₁ = next_example s in
      let e : Example W = record { id = s.next_id; label = 0; val = val } in
      let (s₀, i, c, from, at, run) = identify-settles ieee junk s₁ e h.some_model in
      let dist = D.sqrt (distance_to e.val c) in
      let (len, same, point) = size-settle s₁ s₀ e i dist c from in
      let (s₂, m) = settle s₀ e i dist c in
      let s₃ = handle_sleep params s₂ in
      let same₃ = unknowns-handle_sleep params s₂ ∙ same in
      let len₃ = size-handle_sleep params s₂ ∙ len in
      let full : ltb (size s.model) params.k ≡ false = ground arith in
      elim (Bool-cases (m.label == minas_unk_label)) [
        | inl unknown ↦
            let (s', run', fits, slots, end) = unknown-ends s s₃ val m same₃ len₃ h unknown in
            (s', m, rw (full, run, run') refl, point, fits, slots, end)
        | inr known ↦ (
          s₃,
          m,
          rw (full, run, take_match-known junk interest params s₃ e m known) refl,
          point,
          subst (λ (b : Buffer W). b.used < params.unknowns_max_size) (sym same₃) h.fits,
          ap (λ (b : Buffer W). length b.slots) same₃,
          inl (known, same₃, len₃),
        )
      ]

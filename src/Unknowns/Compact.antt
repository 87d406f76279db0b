-- ===== src/Unknowns/Compact.antt =====
-- The first loop of `minasHandleUnknown` compacts the buffer in place: it keeps the examples that it
-- does not discard, in order.
use mathlib.Core.List.{append_assoc}
use minas_flink.Prelude.{
  ℕ, ◌+◌, ◌-◌, ◌≤◌, ◌<◌, ◌≡◌, refl, ap, ◌∙◌, sym, subst, Bool, true, false, List, [], ◌∷◌, ◌++◌,
  some, arith, length, get_elem?, modify, filter_if, ltb, if◌then◌else◌, length-append, length-map,
  get_elem?-append, modify-append, get_elem?-modify_ne, take, drop, length-take, take-append,
  take-append-drop, ◌⊎◌, inl, inr,
}
use minas_flink.Data.{Buffer, Result, ok}
use minas_flink.Unknowns.{
  Unknown, contents, store, copy, Verdict, consumed, garbage, kept, Tally, offset, tick, no_tally,
  compact,
}
use minas_flink.Unknowns.Owned.{IsOwned, copy-IsOwned}

abbrev pub is_kept : Verdict → Bool
is_kept kept = true
is_kept _ = false

Verdict-cases :
    (t : Tally) (v : Verdict)
    → (v ≡ kept) ⊎ ((is_kept v ≡ false) × (offset (tick t v) ≡ offset t + 1))
unfolding tick
Verdict-cases t kept = inl refl
Verdict-cases t consumed = inr (refl, omega arith)
Verdict-cases t garbage = inr (refl, omega arith)

module _ {W : Type 0} where
  pub length-contents : (b : Buffer W) → length (contents b) ≡ length b.slots
  unfolding contents
  length-contents b = length-map _ b.slots

  -- The state of the buffer after the copying at the start of a round: the example of the round
  -- stands behind those that are done, with as many entries as before up to the next example.
  pub record IsMoved (b b' : Buffer W) (done : List (Unknown W)) (u : Unknown W) (n : ℕ)
      (after : List (Unknown W)) (ex : ℕ) (mid : List (Unknown W)) : Type 0 where
    pub owned : IsOwned b'
    pub moved : contents b' ≡ done ++ (u ∷ (mid ++ after))
    pub size : length mid ≡ n
    pub here : get_elem? (contents b') ex ≡ some u
    pub used : b'.used ≡ b.used
    pub slots : length b'.slots ≡ length b.slots

  pub used-copy : (b : Buffer W) (to from : ℕ) → (copy b to from).used ≡ b.used
  unfolding copy store
  used-copy b to from = ground arith

  move :
      (b : Buffer W) (t : Tally) (done junk : List (Unknown W)) (u : Unknown W)
      (after : List (Unknown W)) (ex : ℕ)
      → IsOwned b
      → contents b ≡ done ++ (junk ++ (u ∷ after))
      → length junk ≡ offset t
      → ex ≡ length done + length junk
      → (mid : List (Unknown W)) × IsMoved b
          (if ltb 0 (offset t) then copy b (ex - offset t) ex else b)
          done
          u
          (length junk)
          after
          ex
          mid
  move b t done [] u after ex o e len at =
      let here : ltb 0 (offset t) ≡ false = ground arith in
      rw here (
        [],
        record {
          owned = o;
          moved = e;
          size = refl;
          here = ap (λ l. get_elem? l ex) e ∙ get_elem?-append done u after ex (omega arith);
          used = refl;
          slots = refl;
        },
      )
  move b t done (j ∷ js) u after ex o e len at =
      let there : ltb 0 (offset t) ≡ true = ground arith in
      let whole : contents b ≡ (done ++ (j ∷ js)) ++ (u ∷ after) =
        e ∙ sym (append_assoc done (j ∷ js) (u ∷ after)) in
      let from =
        ap (λ l. get_elem? l ex) whole
        ∙ get_elem?-append (done ++ (j ∷ js)) u after ex
            (omega (arith, length-append done (j ∷ js))) in
      let inside : ex - offset t < length b.slots = omega (
        arith,
        ap length e,
        length-contents b,
        length-append done (j ∷ (js ++ (u ∷ after))),
        length-append js (u ∷ after),
      ) in
      let (o', e', slots') = copy-IsOwned b (ex - offset t) ex o inside from in
      rw there (
        js ++ (u ∷ []),
        record {
          owned = o';
          moved =
              e'
              ∙ ap (λ l. modify l (ex - offset t) (λ _. u)) e
              ∙ modify-append done j (js ++ (u ∷ after)) (ex - offset t) (λ _. u) (omega arith)
              ∙ ap (λ l. done ++ (u ∷ l)) (sym (append_assoc js (u ∷ []) after));
          size = length-append js (u ∷ []) ∙ omega arith;
          here =
              ap (λ l. get_elem? l ex) e'
              ∙ get_elem?-modify_ne (contents b) (ex - offset t) ex (λ _. u) (omega arith)
              ∙ from;
          used = used-copy b (ex - offset t) ex;
          slots = slots';
        },
      )

  -- What the loop has done when it ends: `done` and the kept examples of the rest are in front, and
  -- behind them as many entries as were discarded.
  pub record IsCompacted (keep : Unknown W → Bool) (b b' : Buffer W)
      (done rest tail : List (Unknown W)) (t t' : Tally) (junk : List (Unknown W)) : Type 0 where
    pub owned : IsOwned b'
    pub compacted : contents b' ≡ done ++ (filter_if keep rest ++ (junk ++ tail))
    pub size : length junk ≡ offset t'
    pub counted : offset t' + length (filter_if keep rest) ≡ offset t + length rest
    pub used : b'.used ≡ b.used
    pub slots : length b'.slots ≡ length b.slots

  module _ {keep : Unknown W → Bool} (b b₁ : Buffer W) {b' : Buffer W} (done : List (Unknown W))
      (u : Unknown W) (rest tail : List (Unknown W)) (t : Tally) where
    kept_step :
        {t' : Tally} (junk : List (Unknown W))
        → keep u ≡ true
        → b₁.used ≡ b.used
        → length b₁.slots ≡ length b.slots
        → IsCompacted keep b₁ b' (done ++ (u ∷ [])) rest tail t t' junk
        → IsCompacted keep b b' done (u ∷ rest) tail t t' junk
    kept_step junk yes_kept e_used e_slots c = record {
      owned = c.owned;
      compacted =
          rw yes_kept
            (c.compacted ∙ append_assoc done (u ∷ []) (filter_if keep rest ++ (junk ++ tail)));
      size = c.size;
      counted = rw yes_kept (omega (arith, c.counted));
      used = c.used ∙ e_used;
      slots = c.slots ∙ e_slots;
    }

    gone_step :
        (t₁ : Tally) {t' : Tally} (junk : List (Unknown W))
        → keep u ≡ false
        → offset t₁ ≡ offset t + 1
        → b₁.used ≡ b.used
        → length b₁.slots ≡ length b.slots
        → IsCompacted keep b₁ b' done rest tail t₁ t' junk
        → IsCompacted keep b b' done (u ∷ rest) tail t t' junk
    gone_step t₁ junk not_kept e e_used e_slots c = record {
      owned = c.owned;
      compacted = rw not_kept c.compacted;
      size = c.size;
      counted = rw not_kept (omega (arith, c.counted));
      used = c.used ∙ e_used;
      slots = c.slots ∙ e_slots;
    }

  module _ (judge : Unknown W → Result Verdict) (verdict : Unknown W → Verdict)
      (judged : (u : Unknown W) → judge u ≡ ok (verdict u)) where
    abbrev pub keeps : Unknown W → Bool
    keeps u = is_kept (verdict u)

    pub compact_lem :
        (rest : List (Unknown W)) (b : Buffer W) (t : Tally) (done junk tail : List (Unknown W))
        (ex : ℕ)
        → IsOwned b
        → contents b ≡ done ++ (junk ++ (rest ++ tail))
        → length junk ≡ offset t
        → ex ≡ length done + length junk
        → (b' : Buffer W) × (t' : Tally) × (junk' : List (Unknown W)) × (compact judge
              (length rest)
              ex
              b
              t
            ≡ ok (b', t'))
          × IsCompacted keeps b b' done rest tail t t' junk'
    unfolding compact tick
    compact_lem [] b t done junk tail ex o e len at = (
      b,
      t,
      junk,
      refl,
      record { owned = o; compacted = e; size = len; counted = refl; used = refl; slots = refl },
    )
    compact_lem (u ∷ rest) b t done junk tail ex o e len at =
        let (mid, m) = move b t done junk u (rest ++ tail) ex o e len at in
        elim (Verdict-cases t (verdict u)) [
          | inl stays ↦
              let e' = m.moved ∙ sym (append_assoc done (u ∷ []) (mid ++ (rest ++ tail))) in
              let (b', t', junk', run, c) =
                compact_lem rest _ t (done ++ (u ∷ [])) mid tail (ex + 1) m.owned e' (m.size ∙ len)
                  (omega (arith, length-append done (u ∷ []), m.size)) in
              (
                b',
                t',
                junk',
                rw (m.here, compact, judged u, stays) run,
                kept_step b _ done u rest tail t junk' (ap is_kept stays) m.used m.slots c,
              )
          | inr (goes, count) ↦
              let (b', t', junk', run, c) =
                compact_lem rest _ (tick t (verdict u)) done (u ∷ mid) tail (ex + 1) m.owned m.moved
                  (omega (arith, m.size)) (omega (arith, m.size)) in
              (
                b',
                t',
                junk',
                rw (m.here, compact, judged u) run,
                gone_step b _ done u rest tail t (tick t (verdict u)) junk' goes count m.used
                    m.slots c,
              )
        ]

-- The values that the buffer holds in the entries in use.
abbrev pub held : {W : Type 0} → Buffer W → List (Unknown W)
held b = take b.used (contents b)

-- If every entry has a block of its own and the tests never fail, then the loop returns, and what the
-- buffer then holds in front of the discarded entries are the examples that are kept, in order.
pub compact-filter :
    {W : Type 0} (judge : Unknown W → Result Verdict) (verdict : Unknown W → Verdict) (b : Buffer W)
    → ((u : Unknown W) → judge u ≡ ok (verdict u))
    → IsOwned b
    → b.used ≤ length b.slots
    → (b' : Buffer W) × (t : Tally) × (compact judge b.used 0 b no_tally ≡ ok (b', t))
      × IsOwned b'
      × (length b'.slots ≡ length b.slots)
      × (b'.used ≡ b.used)
      × (take (b.used - offset t) (contents b') ≡ filter_if (λ u. is_kept (verdict u)) (held b))
      × (offset t + length (filter_if (λ u. is_kept (verdict u)) (held b)) ≡ b.used)
compact-filter judge verdict b judged o room =
    let n = b.used in
    let tail = drop n (contents b) in
    let len : length (held b) ≡ n = length-take n (contents b) (rw length-contents room) in
    let (b', t, junk, run, c) =
      compact_lem judge verdict judged (held b) b no_tally [] [] tail 0 o
        (sym (take-append-drop n (contents b))) refl refl in
    let kept_all = filter_if (λ u. is_kept (verdict u)) (held b) in
    let count : offset t + length kept_all ≡ n = omega (arith, c.counted) in
    (
      b',
      t,
      subst (λ m. compact judge m 0 b no_tally ≡ ok (b', t)) len run,
      c.owned,
      c.slots,
      c.used,
      ap (take (n - offset t)) c.compacted
          ∙ take-append kept_all (junk ++ tail) (n - offset t) (omega arith),
      count,
    )

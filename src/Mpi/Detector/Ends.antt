-- ===== src/Mpi/Detector/Ends.antt =====
-- What the detector does with an example, and when it ends.
use mathlib.Core.List.{append-nil}
use minas_flink.Prelude.{
  suc, ap, sym, subst, true, ◌++◌, u64_mod, length-append, sum_of, ℕ, ◌+◌, ◌<◌, ◌≡◌, refl, ◌∙◌,
  Bool, false, List, [], ◌∷◌, arith, length, All, ltb, ◌==◌, inl, inr, Bool-cases, if◌then◌else◌,
}
use minas_flink.Double.{Double}
use minas_flink.Data.{Example, MinasParams, MinasState, minas_unk_label, ok}
use minas_flink.Mpi.{mfog_eos_marker}
use minas_flink.Mpi.Detector.{
  Detector, Returned, see_id, detect_known_or_not, detect_example, detect_examples, detect_messages,
}

-- How many streams end with these examples.
abbrev ends : {W : Type 0} → List (Example W) → ℕ
ends [] = 0
ends (e ∷ es) = (if e.label == mfog_eos_marker then 1 else 0) + ends es

abbrev all_ends : {W : Type 0} → List (Returned W) → ℕ
all_ends [] = 0
all_ends (m ∷ ms) = ends m.examples + all_ends ms

-- How many examples the messages hold.
abbrev pub count_examples : {W : Type 0} → List (Returned W) → ℕ
count_examples = sum_of λ m. length m.examples

-- An example with a label other than that of the unknown.
abbrev pub IsKnown : {W : Type 0} → Example W → Type 0
IsKnown e = (e.label == minas_unk_label) ≡ false

pub record IsFull {W : Type 0} (m : Returned W) : Type 0 where
  pub some_example : 0 < length m.examples
  pub known : All IsKnown m.examples

module _ {W : Type 0} ⦃D : Double W⦄ (junk : W) (interest : Bool) (params : MinasParams W) where
  see_id-model : (s : MinasState W) (id : ℕ) → (see_id s id).model ≡ s.model
  unfolding see_id
  see_id-model s id = elim (Bool-cases (ltb s.curr_id id)) [ inl e ↦ rw e refl | inr e ↦ rw e refl ]

  -- What the detector keeps, after `n` more examples of which `k` end a stream.
  record IsTaken (n k : ℕ) (d d' : Detector W) : Type 0 where
    ended : d'.end_of_streams ≡ d.end_of_streams + k
    items : d'.items ≡ d.items + n
    model : d'.state.model ≡ d.state.model
    broadcast : d'.broadcast ≡ d.broadcast

  IsTaken-trans :
      {n k k' : ℕ} {d d₁ d₂ : Detector W}
      → IsTaken 1 k d d₁
      → IsTaken n k' d₁ d₂
      → IsTaken (suc n) (k + k') d d₂
  IsTaken-trans u v = record {
    ended = omega (arith, u.ended, v.ended);
    items = omega (arith, u.items, v.items);
    model = v.model ∙ u.model;
    broadcast = v.broadcast ∙ u.broadcast;
  }

  detect_example-known :
      (d : Detector W) (source : ℕ) (e : Example W)
      → IsKnown e
      → suc d.items < u64_mod
      → (d' : Detector W) × (detect_example junk interest params d source e ≡ ok d')
        × IsTaken 1 (if e.label == mfog_eos_marker then 1 else 0) d d'
  unfolding detect_example detect_known_or_not
  detect_example-known d source e known small =
      let model = see_id-model d.state e.id in
      elim (Bool-cases (e.label == mfog_eos_marker)) [
        | inl eos ↦ rw eos (
          _,
          refl,
          record { ended = omega arith; items = omega arith; model = model; broadcast = refl },
        )
        | inr eos ↦
            rw (eos, known)
              (
                _,
                refl,
                record {
                  ended = omega arith;
                  items = omega arith;
                  model = model;
                  broadcast = refl;
                },
              )
      ]

  detect_examples-ended :
      (streams : ℕ) (d : Detector W) (source : ℕ) (es : List (Example W))
      → d.end_of_streams ≡ streams
      → detect_examples junk interest params streams d source es ≡ ok d
  unfolding detect_examples
  detect_examples-ended streams d source [] ended = refl
  detect_examples-ended streams d source (e ∷ es) ended =
      let stop : ltb d.end_of_streams streams ≡ false = ground (arith, ended) in rw stop refl

  detect_messages-ended :
      (streams : ℕ) (d : Detector W) (ms : List (Returned W))
      → d.end_of_streams ≡ streams
      → detect_messages junk interest params streams d ms ≡ ok d
  unfolding detect_messages
  detect_messages-ended streams d [] ended = refl
  detect_messages-ended streams d (m ∷ ms) ended =
      let stop : ltb d.end_of_streams streams ≡ false = ground (arith, ended) in rw stop refl

  -- Examples in front of others, of which not so many end a stream that the loop would end.
  detect_examples-known :
      (streams : ℕ) (d : Detector W) (source : ℕ) (es rest : List (Example W))
      → All IsKnown es
      → d.end_of_streams + ends es < streams
      → d.items + length es < u64_mod
      → (d' : Detector W) × (detect_examples junk interest params streams d source (es ++ rest)
          ≡ detect_examples junk interest params streams d' source rest)
        × IsTaken (length es) (ends es) d d'
  unfolding detect_examples
  detect_examples-known streams d source [] rest known more small =
      (d, refl, record { ended = omega arith; items = omega arith; model = refl; broadcast = refl })
  detect_examples-known streams d source (e ∷ es) rest (k, ks) more small =
      let (d₁, run₁, taken) = detect_example-known d source e k (omega arith) in
      let (d₂, run₂, all) =
        detect_examples-known streams d₁ source es rest ks (omega (arith, taken.ended))
          (omega (arith, taken.items)) in
      let go : ltb d.end_of_streams streams ≡ true = ground (arith, more) in
      (d₂, rw (go, run₁) run₂, IsTaken-trans taken all)

  -- The end of the last stream, and what comes behind it in the message.
  detect_examples-last :
      (streams : ℕ) (d : Detector W) (source : ℕ) (eos : Example W) (rest : List (Example W))
      → eos.label ≡ mfog_eos_marker
      → d.end_of_streams + 1 ≡ streams
      → suc d.items < u64_mod
      → (d' : Detector W) × (detect_examples junk interest params streams d source (eos ∷ rest)
          ≡ ok d')
        × IsTaken 1 1 d d'
  unfolding detect_examples
  detect_examples-last streams d source eos rest marked last small =
      let marked' : (eos.label == mfog_eos_marker) ≡ true = ground (arith, marked) in
      let known : IsKnown eos = ground (arith, marked) in
      let (d', run, taken) = detect_example-known d source eos known small in
      let taken' : IsTaken 1 1 d d' =
        subst (λ b. IsTaken 1 (if b then 1 else 0) d d') marked' taken in
      let go : ltb d.end_of_streams streams ≡ true = ground (arith, last) in
      let stop = detect_examples-ended streams d' source rest (omega (arith, taken'.ended, last)) in
      (d', rw (go, run) stop, taken')

  -- Messages come, each with at least one example, and all examples are known, up to the example `eos`,
  -- which ends the last of the streams; fewer than 2^64 examples are counted. Whatever comes behind `eos`,
  -- in its message or later, the detector returns there without a failure: it has counted the end of each
  -- stream, and just the examples up to `eos`, and has changed and broadcast no cluster.
  pub detect_messages-known :
      (streams source : ℕ) (d : Detector W) (ms more : List (Returned W))
      (es rest : List (Example W)) (eos : Example W)
      → All IsFull ms
      → All IsKnown es
      → eos.label ≡ mfog_eos_marker
      → d.end_of_streams + all_ends ms + ends es + 1 ≡ streams
      → d.items + count_examples ms + length es + 1 < u64_mod
      → let last : Returned W = record { source = source; examples = es ++ (eos ∷ rest) } in
        (d' : Detector W) × (detect_messages junk interest params streams d (ms ++ (last ∷ more))
          ≡ ok d')
        × (d'.end_of_streams ≡ streams)
        × (d'.items ≡ d.items + count_examples ms + length es + 1)
        × (d'.state.model ≡ d.state.model)
        × (d'.broadcast ≡ d.broadcast)
  unfolding detect_messages detect_examples
  detect_messages-known streams source d [] more es rest eos full known marked last small =
      let (d₁, run₁, taken) =
        detect_examples-known streams d source es (eos ∷ rest) known (omega arith) (omega arith) in
      let (d₂, run₂, ended) =
        detect_examples-last streams d₁ source eos rest marked (omega (arith, taken.ended))
          (omega (arith, taken.items)) in
      let go : ltb d.end_of_streams streams ≡ true = ground arith in
      let some : (length (es ++ (eos ∷ rest)) == 0) ≡ false =
        ground (arith, length-append es (eos ∷ rest)) in
      let at_end : d₂.end_of_streams ≡ streams = omega (arith, taken.ended, ended.ended) in
      let stop = detect_messages-ended streams d₂ more at_end in
      (
        d₂,
        rw (go, some, run₁, run₂) stop,
        at_end,
        omega (arith, taken.items, ended.items),
        ended.model ∙ taken.model,
        ended.broadcast ∙ taken.broadcast,
      )
  detect_messages-known streams source d (m ∷ ms) more es rest eos (f, fs) known marked last small =
      let (d₁, run₁, taken) =
        detect_examples-known streams d m.source m.examples [] f.known (omega arith)
          (omega arith) in
      let run : detect_examples junk interest params streams d m.source m.examples ≡ ok d₁ =
        ap (detect_examples junk interest params streams d m.source) (sym (append-nil m.examples))
        ∙ run₁ in
      let (d₂, run₂, ended, items, model, broadcast) =
        detect_messages-known streams source d₁ ms more es rest eos fs known marked
          (omega (arith, taken.ended)) (omega (arith, taken.items)) in
      let go : ltb d.end_of_streams streams ≡ true = ground arith in
      let some : (length m.examples == 0) ≡ false = ground (arith, f.some_example) in
      (
        d₂,
        rw (go, some, run) run₂,
        ended,
        omega (arith, items, taken.items),
        model ∙ taken.model,
        broadcast ∙ taken.broadcast,
      )

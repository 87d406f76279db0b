-- ===== src/Mpi/Classifier/Overrun.antt =====
-- What becomes of the messages that a classifier receives.
use minas_flink.Prelude.{
  ℕ, suc, ◌+◌, ◌≤◌, ◌<◌, ◌≡◌, refl, sym, ◌∙◌, true, false, Option, some, none, List, [], ◌∷◌, arith,
  length, All, ltb, ◌==◌, inl, inr, Bool-cases, get_elem?, get_elem?-in, get_elem?-past, subst,
}
use minas_flink.Double.{Double, IsIeee}
use minas_flink.Data.{Example, MinasParams, MinasState, size, ok, fail, out_of_bounds}
use minas_flink.Identify.Settle.{identify-settles}
use minas_flink.Mpi.{mfog_eos_marker, pack_size_max}
use minas_flink.Mpi.Classifier.{
  FixedMessage, Classifier, running, receiving, classify, classify_round, classify_sample,
  label_sample, as_example, send_full, go_on,
}

-- That the sample of a message at an index is not the end of a stream.
abbrev IsOpen : {W : Type 0} → Option (Example W) → Type 0
IsOpen none = Unit
IsOpen (some e) = (e.label == mfog_eos_marker) ≡ false

-- The messages have 12 samples each, and the sample of the first one at the index `i`, of the second
-- one at the index `i + 1`, and so on, is not the end of a stream.
abbrev pub Diagonal : {W : Type 0} → ℕ → List (FixedMessage W) → Type 0
Diagonal i [] = Unit
Diagonal i (m ∷ ms) =
    (length m.samples ≡ pack_size_max) × IsOpen (get_elem? m.samples i) × Diagonal (suc i) ms

module _ {W : Type 0} ⦃D : Double W⦄ (ieee : IsIeee W) (junk address : W)
    (params : MinasParams W) where
  -- A model that is complete.
  abbrev pub IsComplete : MinasState W → Type 0
  IsComplete s = params.k ≤ size s.model

  round_open :
      (c : Classifier W) (found : MinasState W) (e : Example W)
      → get_elem? c.msg.samples c.current_packet ≡ some e
      → (e.label == mfog_eos_marker) ≡ false
      → 0 < params.k
      → IsComplete found
      → c.packet_size ≡ 0
      → (c' : Classifier W) × (classify_round junk address params c found ≡ ok (running c'))
        × (c'.packet_size ≡ 0)
        × (c'.current_packet ≡ suc c.current_packet)
        × (c'.sent ≡ c.sent)
  unfolding classify_round classify_sample label_sample as_example send_full
  round_open c found e at open_stream pos complete none_read =
      let (s₀, i, cl, from, at', run) =
        identify-settles ieee junk found (as_example address e) (omega arith) in
      let size_le : ltb (size found.model) params.k ≡ false = ground arith in
      let less : (c.current_packet + 1 == c.packet_size) ≡ false = ground arith in
      rw (at, open_stream, size_le, run, less) (_, refl, none_read, omega arith, refl)

  is_unread : (c : Classifier W) → c.packet_size ≡ 0 → (c.packet_size == 0) ≡ true
  is_unread c none_read = ground arith

  round_past :
      (c : Classifier W) (found : MinasState W)
      → get_elem? c.msg.samples c.current_packet ≡ none
      → classify_round junk address params c found ≡ fail out_of_bounds
  unfolding classify_round classify_sample
  round_past c found past = rw past refl

  -- If each model that is found is complete, `k` is not 0 and no sample on the diagonal of the messages
  -- is the end of a stream, then a classifier that starts with `packetSize` 0 takes the messages, as
  -- many as fit from `currentPacket` to 12, one sample of each, sends nothing back, and waits for one
  -- more, if the operations on doubles obey the laws of `IsIeee`.
  classify-silent :
      (msgs : List (FixedMessage W)) (founds : List (MinasState W)) (c : Classifier W)
      → 0 < params.k
      → c.packet_size ≡ 0
      → All IsComplete founds
      → length msgs < length founds
      → Diagonal c.current_packet msgs
      → c.current_packet + length msgs ≤ pack_size_max
      → (c' : Classifier W) × (classify junk address params founds c msgs ≡ ok (receiving c'))
        × (c'.sent ≡ c.sent)
        × (c'.current_packet ≡ c.current_packet + length msgs)
  unfolding classify go_on
  classify-silent msgs [] c pos none_read complete more open_samples within = absurd (omega arith)
  classify-silent [] (found ∷ founds) c pos none_read complete more open_samples within =
      let unread = is_unread c none_read in rw unread (c, refl, refl, omega arith)
  classify-silent (m ∷ msgs) (found ∷ founds) c pos none_read (full, complete) more
        (len, open_sample, open_samples) within =
      let c₀ : Classifier W = record c { msg = m } in
      let unread = is_unread c none_read in
      let (e, at) = get_elem?-in m.samples c.current_packet (omega (arith, len)) in
      let (c₁, run, none₁, current₁, sent₁) =
        round_open c₀ found e at (subst IsOpen at open_sample) pos full none_read in
      let (c₂, run₂, sent₂, current₂) =
        classify-silent msgs founds c₁ pos none₁ complete (omega arith)
          (subst (λ i. Diagonal i msgs) (sym current₁) open_samples) (omega (arith, current₁)) in
      rw (unread, run) (c₂, run₂, sent₂ ∙ sent₁, omega (arith, current₁, current₂))

  -- If each model that is found is complete, `k` is not 0 and no sample on the diagonal of the messages
  -- is the end of a stream, then a classifier that starts with `packetSize` 0 reads past the end of
  -- `samples` if there are more messages than fit from `currentPacket` to 12.
  classify-overrun :
      (msgs : List (FixedMessage W)) (founds : List (MinasState W)) (c : Classifier W)
      → 0 < params.k
      → c.packet_size ≡ 0
      → All IsComplete founds
      → length msgs < length founds
      → Diagonal c.current_packet msgs
      → c.current_packet ≤ pack_size_max
      → pack_size_max < c.current_packet + length msgs
      → classify junk address params founds c msgs ≡ fail out_of_bounds
  unfolding classify go_on
  classify-overrun msgs [] c pos none_read complete more open_samples start past =
      absurd (omega arith)
  classify-overrun [] (found ∷ founds) c pos none_read complete more open_samples start past =
      absurd (omega arith)
  classify-overrun (m ∷ msgs) (found ∷ founds) c pos none_read (full, complete) more
        (len, open_sample, open_samples) start past =
      let c₀ : Classifier W = record c { msg = m } in
      let unread = is_unread c none_read in
      elim (Bool-cases (ltb c.current_packet pack_size_max)) [
        | inl within ↦
            let below : c.current_packet < length m.samples = ground (arith, len) in
            let (e, at) = get_elem?-in m.samples c.current_packet below in
            let (c₁, run, none₁, current₁, sent₁) =
              round_open c₀ found e at (subst IsOpen at open_sample) pos full none_read in
            let rest =
              classify-overrun msgs founds c₁ pos none₁ complete (omega arith)
                (subst (λ i. Diagonal i msgs) (sym current₁) open_samples)
                (ground (arith, current₁)) (omega (arith, current₁)) in
            rw (unread, run) rest
        | inr out ↦
            let past_end = get_elem?-past m.samples c.current_packet (ground (arith, len)) in
            rw (unread, round_past c₀ found past_end) refl
      ]

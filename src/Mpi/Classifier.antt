-- ===== src/Mpi/Classifier.antt =====
-- `classifier` of src/threaded-mpi.c: takes the messages with examples, and is to send them back with
-- their labels. The lines that read the number of examples of a message are commented out.
pub mod Overrun
pub mod Blind
use minas_flink.Prelude.{
  ℕ, ◌+◌, Option, some, none, List, [], ◌∷◌, ◌++◌, drop, modify, ltb, ◌==◌, if◌then◌else◌, add64,
  get_elem?,
}
use minas_flink.Double.{Double}
use minas_flink.Data.{
  Example, Match, MinasParams, MinasState, size, Result, ok, fail, out_of_bounds, ◌>>=◌,
}
use minas_flink.Identify.{identify}
use minas_flink.Mpi.{mfog_eos_marker}

-- `struct fixedMessage`, an array of `PACK_SIZE_MAX` samples. Its field `size` is never read.
pub record FixedMessage (W : Type 0) : Type 0 where
  pub samples : List (Example W)

-- The variables of the loop, `minasState` as the last round has left it, and the messages that have
-- been sent.
pub record Classifier (W : Type 0) : Type 0 where
  pub state : MinasState W
  pub msg : FixedMessage W
  pub packet_size : ℕ
  pub current_packet : ℕ
  pub items : ℕ
  pub sends : ℕ
  pub sent : List (FixedMessage W)

-- How the loop stands: it goes on, waits for a message, waits for `modelReadySemaphore` as the model
-- is not complete, or has been left.
pub data Progress (W : Type 0) : Type 0 where
  running receiving not_ready left : Classifier W → Progress W

-- What follows a round.
unfoldable pub go_on :
    {W : Type 0} → (Classifier W → Result (Progress W)) → Progress W → Result (Progress W)
go_on next (running c) = next c
go_on next (receiving c) = ok (receiving c)
go_on next (not_ready c) = ok (not_ready c)
go_on next (left c) = ok (left c)

unfoldable pub put_sample : {W : Type 0} → FixedMessage W → ℕ → Example W → FixedMessage W
put_sample m i e = record { samples = modify m.samples i (λ old. e) }

unfoldable pub send_back : {W : Type 0} → Classifier W → Classifier W
send_back c = record c { sent = c.sent ++ (c.msg ∷ []) }

-- The end of a round, once the example has its label.
unfoldable pub send_full : {W : Type 0} → Classifier W → Classifier W
send_full c =
    if c.current_packet == c.packet_size
    then record (send_back c) { sends = add64 c.sends 1; packet_size = 0 }
    else c

-- A sample is used as an `Example`, whose pointer `val` has the place of the first value of the sample:
-- the address that is stored there, read as a double, replaces that value.
unfoldable pub as_example : {W : Type 0} → W → Example W → Example W
as_example address e = record e { val = address ∷ drop 1 e.val }

module _ {W : Type 0} ⦃D : Double W⦄ (junk address : W) (params : MinasParams W) where
  unfoldable pub label_sample : Classifier W → MinasState W → ℕ → Example W → Result (Progress W)
  label_sample c found i e = identify junk found e >>= λ (out : MinasState W × Match W). ok (
      running (
        send_full (record c {
          state = out.0;
          items = add64 c.items 1;
          msg = put_sample c.msg i (record e { label = (out.1).label });
        })))

  -- The rest of a round, for the sample with the index `currentPacket`.
  unfoldable pub classify_sample :
      Classifier W → MinasState W → Option (Example W) → Result (Progress W)
  classify_sample c found none = fail out_of_bounds
  classify_sample c found (some sample) =
      let e = as_example address sample in
      let i = c.current_packet in
      let c' : Classifier W = record c { msg = put_sample c.msg i e; current_packet = i + 1 } in
      let labelled = label_sample c' found i e in
      if e.label == mfog_eos_marker
      then ok (left (send_back c'))
      else if ltb (size found.model) params.k
      then ok (not_ready c')
      else labelled

  -- A round of the loop, once there is a message. The other threads change `minasState` in the meantime:
  -- `found` is the one that the round reads.
  unfoldable pub classify_round : Classifier W → MinasState W → Result (Progress W)
  classify_round c found = classify_sample c found (get_elem? c.msg.samples c.current_packet)

  -- The loop, for as many rounds as there are states to find, on the messages that arrive.
  unfoldable pub classify :
      List (MinasState W) → Classifier W → List (FixedMessage W) → Result (Progress W)
  classify [] c msgs = ok (running c)
  classify (found ∷ founds) c [] =
      let again = classify_round c found >>= go_on (λ (c' : Classifier W). classify founds c' []) in
      if c.packet_size == 0 then ok (receiving c) else again
  classify (found ∷ founds) c (msg ∷ msgs) =
      let again =
        classify_round c found >>= go_on (λ (c' : Classifier W). classify founds c' (msg ∷ msgs)) in
      let next =
        classify_round (record c { msg = msg }) found
        >>= go_on (λ (c' : Classifier W). classify founds c' msgs) in
      if c.packet_size == 0 then next else again

-- ===== src/Mpi/Detector.antt =====
-- `detector` of src/threaded-mpi.c: takes the examples that come back from the classifiers, finds new
-- clusters among the unknown ones, and broadcasts them. The output and the timers are left out.
pub mod Ends
pub mod Unknown
use minas_flink.Prelude.{
  ℕ, ◌+◌, Bool, List, [], ◌∷◌, ◌++◌, drop, modify, ltb, ◌==◌, if◌then◌else◌, add64,
}
use minas_flink.Double.{Double}
use minas_flink.Data.{
  Example, Cluster, MinasParams, MinasState, minas_unk_label, size, Result, ok, fail, out_of_bounds,
  ◌>>=◌,
}
use minas_flink.Unknowns.{handle_unknown}
use minas_flink.Online.{show_new}
use minas_flink.Mpi.{mfog_eos_marker}

-- The variables of the loop, `minasState`, and the clusters that have been broadcast.
pub record Detector (W : Type 0) : Type 0 where
  pub state : MinasState W
  pub end_of_streams : ℕ
  pub items : ℕ
  pub items_where : List ℕ
  pub broadcast : List (Cluster W)

-- A message with the tag `MFOG_TAG_UNKNOWN`: its process, and the examples packed into it.
pub record Returned (W : Type 0) : Type 0 where
  pub source : ℕ
  pub examples : List (Example W)

module _ {W : Type 0} where
  -- `currId` is the greatest id so far.
  unfoldable pub see_id : MinasState W → ℕ → MinasState W
  see_id s id = if ltb s.curr_id id then record s { curr_id = id } else s

  -- The loop that broadcasts the clusters from the index `prev_size` on.
  unfoldable pub broadcast_new : ℕ → Detector W → MinasState W → Detector W
  broadcast_new prev_size d s = record d {
    state = s;
    broadcast = d.broadcast ++ drop prev_size s.model.clusters;
  }

module _ {W : Type 0} ⦃D : Double W⦄ (junk : W) (interest : Bool) (params : MinasParams W) where
  -- An example that is not the end of a stream.
  unfoldable pub detect_known_or_not : Detector W → Example W → Result (Detector W)
  detect_known_or_not d e =
      let n = size d.state.model in
      let unknown = handle_unknown junk params d.state e >>= λ (out : MinasState W × ℕ).
      ok (broadcast_new n d (show_new interest n (out.0))) in
      if e.label == minas_unk_label then unknown else ok d

  -- The body of the loop, once the example is unpacked.
  unfoldable pub detect_example : Detector W → ℕ → Example W → Result (Detector W)
  detect_example d source e =
      let seen : Detector W = record d { state = see_id d.state e.id; items = add64 d.items 1 } in
      let counted : Detector W = record seen {
        items_where = modify d.items_where source (λ n. add64 n 1);
      } in
      if e.label == mfog_eos_marker
      then ok (record seen { end_of_streams = d.end_of_streams + 1 })
      else detect_known_or_not counted e

  -- The rounds of the loop for one message, which end early with the last stream.
  unfoldable pub detect_examples : ℕ → Detector W → ℕ → List (Example W) → Result (Detector W)
  detect_examples streams d source [] = ok d
  detect_examples streams d source (e ∷ es) =
      let rest =
        detect_example d source e >>= λ (d' : Detector W). detect_examples streams d' source es in
      if ltb d.end_of_streams streams then rest else ok d

  -- The loop, on the messages in the order in which they come. `MPI_Unpack` fails on a message with no
  -- example.
  unfoldable pub detect_messages : ℕ → Detector W → List (Returned W) → Result (Detector W)
  detect_messages streams d [] = ok d
  detect_messages streams d (m ∷ ms) =
      let rest = detect_examples streams d m.source m.examples >>= λ (d' : Detector W).
      detect_messages streams d' ms in
      if ltb d.end_of_streams streams
      then if minas_flink.Prelude.length m.examples == 0 then fail out_of_bounds else rest
      else ok d

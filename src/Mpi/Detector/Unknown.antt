-- ===== src/Mpi/Detector/Unknown.antt =====
-- What the detector does with an unknown example.
use minas_flink.Prelude.{
  ℕ, ◌+◌, ◌<◌, ◌≡◌, refl, subst, ap, sym, ◌∙◌, Bool, true, false, List, ◌++◌, drop, take, arith,
  length, length-drop, length-append, take-append-drop, ◌==◌, inl, inr, ◌⊎◌, ltb, Bool-cases,
}
use minas_flink.Double.{Double, IsIeee}
use minas_flink.Data.{Example, Cluster, MinasParams, MinasState, minas_unk_label, size, ok}
use minas_flink.Sleep.{restore_sleep}
use minas_flink.Sleep.Frame.{size-restore_sleep}
use minas_flink.Unknowns.{take_unknown}
use minas_flink.Unknowns.Bounded.{IsRoomy, IsTaken, IsGrown, handle_unknown-fits}
use minas_flink.Online.{show_new}
use minas_flink.Online.Step.{IsRoomy-frame, size-show_new, size-take_unknown}
use minas_flink.Mpi.{mfog_eos_marker}
use minas_flink.Mpi.Detector.{Detector, see_id, broadcast_new, detect_known_or_not, detect_example}

module _ {W : Type 0} where
  see_id-same :
      (s : MinasState W) (id : ℕ)
      → ((see_id s id).unknowns ≡ s.unknowns) × (size (see_id s id).model ≡ size s.model)
  unfolding see_id
  see_id-same s id = elim (Bool-cases (ltb s.curr_id id)) [
    | inl e ↦ rw e (refl, refl)
    | inr e ↦ rw e (refl, refl)
  ]

  unknowns-show_new :
      (interest : Bool) (n : ℕ) (s : MinasState W) → (show_new interest n s).unknowns ≡ s.unknowns
  unfolding show_new
  unknowns-show_new interest n s = refl

module _ {W : Type 0} ⦃D : Double W⦄ where
  size_end :
      (params : MinasParams W) (s s' : MinasState W) (e : Example W) (n_new : ℕ)
      (new : List (Cluster W))
      → IsTaken params s e s' n_new ⊎ IsGrown params s e s' n_new new
      → size s'.model ≡ size s.model + n_new
  size_end params s s' e n_new new (inl taken) =
      let same = ap (λ (r : MinasState W). size r.model) taken.taken ∙ size-take_unknown s e in
      omega (arith, taken.none_new)
  size_end params s s' e n_new new (inr grown) =
      let sum =
        ap length grown.appended
        ∙ length-append (restore_sleep (take_unknown s e)).model.clusters new in
      let woken = size-restore_sleep (take_unknown s e) ∙ size-take_unknown s e in
      omega (arith, grown.returned)

module _ {W : Type 0} ⦃D : Double W⦄ (ieee : IsIeee W) (junk : W) (interest : Bool)
    (params : MinasParams W) where
  -- If the label of an example is that of the unknown, and the state before it is one that
  -- `minasHandleUnknown` relies on (there is room in the buffer, whose entries have blocks of their
  -- own, the model is not empty, and the parameters fit each other), then the round of the detector
  -- ends without a failure, there is room for one more example, no stream has ended, and what has been
  -- broadcast is exactly the end of the new model, from the old size on: as many clusters as the model has
  -- grown by, if the operations on doubles obey the laws of `IsIeee`.
  pub detect_example-unknown :
      (d : Detector W) (source : ℕ) (e : Example W)
      → (e.label == minas_unk_label) ≡ true
      → IsRoomy params d.state
      → (d' : Detector W) × (sent : List (Cluster W)) × (detect_example junk interest params d
            source e
          ≡ ok d')
        × (d'.broadcast ≡ d.broadcast ++ sent)
        × (d'.state.model.clusters ≡ take (size d.state.model) d'.state.model.clusters ++ sent)
        × (size d'.state.model ≡ size d.state.model + length sent)
        × (d'.state.unknowns.used < params.unknowns_max_size)
        × (d'.end_of_streams ≡ d.end_of_streams)
  unfolding detect_example detect_known_or_not broadcast_new
  detect_example-unknown d source e unknown h =
      let s = see_id d.state e.id in
      let (same, len) = see_id-same d.state e.id in
      let open_stream : (e.label == mfog_eos_marker) ≡ false = ground (arith, unknown) in
      let (t, n_new, new, run, fits, slots, end) =
        handle_unknown-fits ieee junk params s e (IsRoomy-frame params d.state s same len h) in
      let shown = show_new interest (size s.model) t in
      let sent = drop (size s.model) shown.model.clusters in
      let grown = size-show_new interest (size s.model) t ∙ size_end params s t e n_new new end in
      let n_sent = length-drop (size s.model) shown.model.clusters in
      let split : shown.model.clusters ≡ take (size d.state.model) shown.model.clusters ++ sent =
        subst (λ n. shown.model.clusters ≡ take n shown.model.clusters ++ sent) len
          (sym (take-append-drop (size s.model) shown.model.clusters)) in
      rw (open_stream, unknown, run)
        (
          _,
          sent,
          refl,
          refl,
          split,
          omega (arith, grown, n_sent, len),
          rw (unknowns-show_new interest (size s.model) t) fits,
          refl,
        )

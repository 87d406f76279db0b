-- ===== src/Online.antt =====
-- The loop of `main` in src/online-nd.c over the lines of the input: what a line with an example does
-- to the state of the classifier. The output and the timers are left out, and so is the label that
-- `sample` has from the example before, which nothing reads.
pub mod Step
mod Tests
use minas_flink.Prelude.{ℕ, ◌+◌, Bool, List, [], ◌∷◌, map, ltb, ◌==◌, if◌then◌else◌, add64}
use minas_flink.Prelude.{length, take, drop, ◌++◌}
use minas_flink.Double.{Double}
use minas_flink.Data.{
  Example, Cluster, Match, MinasParams, MinasState, minas_unk_label, size, Result, ok, fail,
  incomplete_model, ◌>>=◌,
}
use minas_flink.Sleep.{with_clusters, handle_sleep}
use minas_flink.Identify.{identify}
use minas_flink.Unknowns.{handle_unknown}

module _ {W : Type 0} where
  -- The ids: `sample.id = nextId`, `currId = sample.id` and `nextId++`.
  unfoldable pub next_example : MinasState W → MinasState W
  next_example s = record s { curr_id = s.next_id; next_id = add64 s.next_id 1 }

  abbrev pub show : Bool → Cluster W → Cluster W
  show interest c = record c { is_intrest = interest }

  -- The loop that sets `isIntrest` of the clusters from the index `prev_size` on.
  unfoldable pub show_new : Bool → ℕ → MinasState W → MinasState W
  show_new interest prev_size s = record s {
    model =
        with_clusters s.model (
          take prev_size s.model.clusters ++ map (show interest) (drop prev_size s.model.clusters));
  }

module _ {W : Type 0} ⦃D : Double W⦄ where
  -- What follows `identify` and `minasHandleSleep`: an unknown example goes to the buffer.
  unfoldable pub take_match :
      W → Bool → MinasParams W → MinasState W → Example W → Match W → Result (MinasState W)
  take_match junk interest params s e match_of =
      let unknown =
        handle_unknown junk params s (record e { label = match_of.label })
        >>= λ (out : MinasState W × ℕ). ok (show_new interest (size s.model) (out.0)) in
      if match_of.label == minas_unk_label then unknown else ok s

  -- A line 'E', with the values of the example; the match is what is printed. The assertion on the
  -- size of the model comes after the ids are set.
  unfoldable pub read_example_line :
      W → Bool → MinasParams W → MinasState W → List W → Result (MinasState W × Match W)
  read_example_line junk interest params state val =
      let s = next_example state in
      let e : Example W = record { id = state.next_id; label = 0; val = val } in
      let identified = identify junk s e in
      if ltb (size s.model) params.k then fail incomplete_model else do
        (s', m) ← identified
        s'' ← take_match junk interest params (handle_sleep params s') e m
        ok (s'', m)

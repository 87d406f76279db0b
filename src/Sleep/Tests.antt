-- ===== src/Sleep/Tests.antt =====
-- Runs of `minasHandleSleep` and `restoreSleep`, and instances of the theorems about them.
use minas_flink.Prelude.{◌<◌, ◌≡◌, refl, true, false, List, [], ◌∷◌, map, arith, Bool}
use minas_flink.Prelude.Int.{ℤ}
use minas_flink.Data.{MinasState, size}
use minas_flink.Sleep.{wake, restore_sleep, doze, handle_sleep}
use minas_flink.Sleep.Counter.{sleeping, IsCounted, handle_sleep-IsCounted}
use minas_flink.Sleep.Effect.{AreDozed, handle_sleep-AreDozed}
use minas_flink.Samples.{cluster_at, params, state}

abbrev flags : MinasState ℤ → List Bool
flags s = map (λ c. c.is_sleep) s.model.clusters

-- Four clusters, the first three awake; all last matched at id 2.
abbrev drowsy : MinasState ℤ
drowsy = record state {
  model = record {
    clusters =
        cluster_at 0 10 false
        ∷ cluster_at 1 20 false
        ∷ cluster_at 2 30 false
        ∷ cluster_at 3 40 true
        ∷ [];
    room = 4;
  };
}

-- The loop stops at the limit of two sleeping clusters.
stops_at_limit : flags (handle_sleep params drowsy) ≡ true ∷ false ∷ false ∷ true ∷ []
unfolding handle_sleep doze
stops_at_limit = refl

wakes : flags (restore_sleep drowsy) ≡ false ∷ false ∷ false ∷ false ∷ []
unfolding restore_sleep wake
wakes = refl

handle_sleep-IsCounted_example :
    let s = handle_sleep params drowsy in
    IsCounted s × (size s.model ≡ 4) × (sleeping s.model.clusters < size s.model)
handle_sleep-IsCounted_example =
    handle_sleep-IsCounted params drowsy (omega arith) (omega arith) (omega arith) (omega arith)

handle_sleep-AreDozed_example :
    AreDozed 10 41 drowsy.model.clusters (handle_sleep params drowsy).model.clusters
handle_sleep-AreDozed_example = handle_sleep-AreDozed params drowsy

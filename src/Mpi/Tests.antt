-- ===== src/Mpi/Tests.antt =====
-- Runs of the threads, and instances of the theorems.
use minas_flink.Prelude.{
  ℕ, ◌+◌, ◌<◌, ◌≡◌, refl, true, List, [], ◌∷◌, ◌++◌, take, All, length, arith,
}
use minas_flink.Prelude.Int.{ℤ, pos}
use minas_flink.Double.Whole.{whole_double, Whole-IsIeee}
use minas_flink.Data.{Example, Cluster, MinasState, minas_unk_label, size, ok}
use minas_flink.Mpi.{mfog_eos_marker}
use minas_flink.Mpi.Sampler.{repeat, take_clusters, take_samples, flush}
use minas_flink.Mpi.Sampler.Rounds.{unpacked, samples, IsPacket, Rounds}
use minas_flink.Mpi.Sampler.Packets.{first_sampler, flush-IsSampling}
use minas_flink.Growth.Room.{IsStepped}
use minas_flink.Mpi.Sampler.Clusters.{take_clusters-receive}
use minas_flink.Mpi.Receiver.{Leaf, receive}
use minas_flink.Mpi.Detector.{Detector, Returned, detect_example, detect_messages}
use minas_flink.Mpi.Detector.Ends.{detect_messages-known}
use minas_flink.Mpi.Detector.Unknown.{detect_example-unknown}
use minas_flink.Mpi.Classifier.{FixedMessage, Classifier, put_sample, classify_round}
use minas_flink.Mpi.Classifier.Blind.{classify_round-blind}
use minas_flink.Mpi.Gather.{add_counts}
use minas_flink.Mpi.Gather.Totals.{with_sums, add_counts-totals}
use minas_flink.Label.{is_letter}
use minas_flink.Samples.{example_at, params, state, three_clusters, roomy}

abbrev values : List (List ℤ)
values = (pos 1 ∷ []) ∷ (pos 2 ∷ []) ∷ (pos 3 ∷ []) ∷ []

flush-IsSampling_example :
    let s = flush 3 (take_samples 7 2 3 (first_sampler 7 2 3 (0 ∷ 0 ∷ 0 ∷ [])) values) in
    (unpacked s.sent ≡ samples 7 0 values) × All (IsPacket 2 3) s.sent × Rounds 3 0 s.sent s.dest
flush-IsSampling_example =
    flush-IsSampling 7 2 3 values (0 ∷ 0 ∷ 0 ∷ []) (omega arith) (omega arith) (omega arith)

abbrev leaf : Leaf ℤ
leaf = record { state = record state { model = record { clusters = []; room = 1 } }; ready = 0 }

abbrev fresh : MinasState ℤ
fresh = record state { model = record { clusters = []; room = 1 } }

room_left : IsStepped 1 fresh.model
room_left = record { stepped = refl; started = omega arith; fits = omega arith }

take_clusters-receive_example :
    (s : MinasState ℤ) × (sent : List (Cluster ℤ)) × (leaf' : Leaf ℤ) × (take_clusters is_letter
        true params
        (fresh, [])
        three_clusters
      ≡ ok (s, sent))
    × (receive is_letter 2 params leaf sent ≡ ok leaf')
    × (leaf'.state.model.clusters ≡ s.model.clusters)
    × (size s.model ≡ 3)
    × IsStepped 1 s.model
    × IsStepped 1 leaf'.state.model
    × (leaf'.ready ≡ 2)
take_clusters-receive_example =
    take_clusters-receive is_letter true params 2 three_clusters fresh leaf refl (omega arith)
      (omega arith) (refl, refl, (refl, refl, (refl, refl, tt))) room_left room_left

abbrev detector_at : Detector ℤ
detector_at = record {
  state = state;
  end_of_streams = 0;
  items = 0;
  items_where = 0 ∷ 0 ∷ [];
  broadcast = [];
}

abbrev known : Example ℤ
known = record (example_at 43 10) { label = b'N' }

abbrev marker : Example ℤ
marker = record (example_at 44 10) { label = mfog_eos_marker }

abbrev returned : List (Returned ℤ)
returned = record { source = 1; examples = known ∷ marker ∷ [] } ∷ []

-- An example and a message come behind the end of the last of two streams.
detect_messages-known_example :
    (d : Detector ℤ) × (detect_messages
        (pos 7)
        true
        params
        2
        detector_at
        (returned ++ (record { source = 2; examples = known ∷ marker ∷ known ∷ [] } ∷ returned))
      ≡ ok d)
    × (d.end_of_streams ≡ 2)
    × (d.items ≡ 4)
    × (d.state.model ≡ state.model)
    × (d.broadcast ≡ [])
detect_messages-known_example =
    detect_messages-known (pos 7) true params 2 2 detector_at returned returned (known ∷ [])
      (known ∷ []) marker (record { some_example = omega arith; known = (refl, (refl, tt)) }, tt)
      (refl, tt) refl refl (omega arith)

abbrev unknown : Example ℤ
unknown = record (example_at 43 71) { label = minas_unk_label }

detect_example-unknown_example :
    (d : Detector ℤ) × (sent : List (Cluster ℤ)) × (detect_example
        (pos 7)
        true
        params
        detector_at
        1
        unknown
      ≡ ok d)
    × (d.broadcast ≡ sent)
    × (d.state.model.clusters ≡ take 3 d.state.model.clusters ++ sent)
    × (size d.state.model ≡ 3 + length sent)
    × (d.state.unknowns.used < 4)
    × (d.end_of_streams ≡ 0)
detect_example-unknown_example =
    detect_example-unknown Whole-IsIeee (pos 7) true params detector_at 1 unknown refl roomy

abbrev message : FixedMessage ℤ
message = record { samples = repeat 12 (example_at 50 11) }

abbrev classifier_at : ℕ → Classifier ℤ
classifier_at current = record {
  state = state;
  msg = message;
  packet_size = 0;
  current_packet = current;
  items = 0;
  sends = 0;
  sent = [];
}

classify_round-blind_example :
    classify_round
      (pos 7)
      (pos 0)
      params
      (record (classifier_at 2) { msg = put_sample message 2 (example_at 50 99) })
      state
    ≡ classify_round (pos 7) (pos 0) params (classifier_at 2) state
classify_round-blind_example =
    classify_round-blind (pos 7) (pos 0) params (classifier_at 2) state (example_at 50 11)
      (example_at 50 99) refl (record { id = refl; label = refl; val = refl })

add_counts-totals_example :
    (add_counts
      ((1 ∷ 2 ∷ 3 ∷ []) ∷ (4 ∷ 5 ∷ 6 ∷ []) ∷ [])
      ((0 ∷ 1 ∷ 0 ∷ []) ∷ (1 ∷ 1 ∷ 1 ∷ []) ∷ [])
      state.model).clusters
    ≡ with_sums 0
        ((1 ∷ 2 ∷ 3 ∷ []) ∷ (4 ∷ 5 ∷ 6 ∷ []) ∷ [])
        ((0 ∷ 1 ∷ 0 ∷ []) ∷ (1 ∷ 1 ∷ 1 ∷ []) ∷ [])
        three_clusters
add_counts-totals_example =
    add_counts-totals ((1 ∷ 2 ∷ 3 ∷ []) ∷ (4 ∷ 5 ∷ 6 ∷ []) ∷ [])
      ((0 ∷ 1 ∷ 0 ∷ []) ∷ (1 ∷ 1 ∷ 1 ∷ []) ∷ []) state.model refl (refl, (refl, tt))
      (refl, (refl, tt))

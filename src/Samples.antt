-- ===== src/Samples.antt =====
-- Small inputs over the integers, for the tests: examples and clusters with one dimension.
use minas_flink.Prelude.{refl, arith, ℕ, Bool, false, true, List, [], ◌∷◌}
use minas_flink.Prelude.Int.{ℤ, pos}
use minas_flink.Double.Whole.{whole_double}
use minas_flink.Data.{Example, Cluster, MinasParams, MinasState, Buffer}
use minas_flink.Unknowns.Bounded.{IsRoomy}

abbrev pub example_at : ℕ → ℕ → Example ℤ
example_at id x = record { id = id; label = 0; val = pos x ∷ [] }

abbrev pub cluster_at : ℕ → ℕ → Bool → Cluster ℤ
cluster_at id x is_sleep = record {
  id = id;
  label = b'N';
  n_matches = 3;
  n_misses = 1;
  latest_match_id = 2;
  extension_of = 0;
  is_intrest = false;
  is_sleep = is_sleep;
  center = pos x ∷ [];
  ls_val_linear_sum = pos 0 ∷ [];
  ss_val_square_sum = pos 0 ∷ [];
  distance_linear_sum = pos 0;
  distance_square_sum = pos 0;
  distance_max = pos 2;
  distance_avg = pos 1;
  distance_std_dev = pos 1;
  radius = pos 2;
}

abbrev pub params : MinasParams ℤ
params = record {
  k = 1;
  dim = 1;
  precision = pos 0;
  radius_f = pos 1;
  min_examples_per_cluster = 2;
  novelty_f = pos 2;
  threshold_forgetting_past = 10;
  novelty_detection_trigger = 2;
  unknowns_max_size = 4;
}

-- Three clusters, of which the last sleeps.
abbrev pub three_clusters : List (Cluster ℤ)
three_clusters = cluster_at 0 10 false ∷ cluster_at 1 20 false ∷ cluster_at 2 30 true ∷ []

-- Five entries, of which two are in use.
abbrev pub buffer : Buffer ℤ
buffer = record {
  slots =
      record { id = 40; val = 0 }
      ∷ record { id = 41; val = 1 }
      ∷ record { id = 0; val = 2 }
      ∷ record { id = 0; val = 3 }
      ∷ record { id = 0; val = 4 }
      ∷ [];
  blocks = (pos 70 ∷ []) ∷ (pos 72 ∷ []) ∷ (pos 0 ∷ []) ∷ (pos 0 ∷ []) ∷ (pos 0 ∷ []) ∷ [];
  used = 2;
}

abbrev pub state : MinasState ℤ
state = record {
  model = record { clusters = three_clusters; room = 3 };
  unknowns = buffer;
  last_nd_check = 30;
  last_forget_check = 0;
  curr_id = 41;
  sleep_counter = 1;
  next_label = 0;
  next_id = 42;
}

-- There is room for an example in the buffer.
pub roomy : IsRoomy params state
roomy = record {
  owned = record { pointers = (refl, (refl, (refl, (refl, (refl, tt))))); allocated = omega arith };
  fits = omega arith;
  allocated = omega arith;
  small = omega arith;
  some_model = omega arith;
  some_k = omega arith;
  enough = omega arith;
  many = omega arith;
  trigger = omega arith;
}

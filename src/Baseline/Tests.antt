-- ===== src/Baseline/Tests.antt =====
-- Runs of the program of old-code/src/base, over the integers.
use minas_flink.Prelude.{ℕ, ◌≡◌, refl, true, some, List, [], ◌∷◌, modify, get_elem?, arith, All}
use minas_flink.Prelude.Int.{ℤ, pos, ◌+ℤ◌, ◌-ℤ◌, ◌*ℤ◌, leb_ℤ}
use minas_flink.Double.Whole.{whole_double, Whole-IsIeee, sqrt_ℤ}
use minas_flink.Double.Whole.Root.{Whole-HasRoot}
use minas_flink.Data.{Example, ok}
use minas_flink.Nearest.{square_distance}
use minas_flink.Nearest.Reference.{distance_sum}
use minas_flink.KMeans.{add_values, add_squares}
use minas_flink.Samples.{example_at}
use minas_flink.Baseline.{
  BaseParams, BaseCluster, sqr_distance_from, euclidean_sqr_distance, euclidean_distance, visit_val,
  scan_val, nearest_val_std, nearest_val,
}
use minas_flink.Baseline.KMeans.{
  blank_cluster, init_clusters, base_init, base_take_in, base_assign, base_recenter,
  base_k_means_loop, base_k_means,
}
use minas_flink.Baseline.KMeans.Total.{base_ids}
use minas_flink.Baseline.Clustream.{
  fill_radius, start_cluster, start_micro, absorb, consume_one, clu_stream,
}
use minas_flink.Baseline.Clustream.Halved.{halves, AreFinite, AreApart, consume_one-halves}
use minas_flink.Baseline.Clustream.Stream.{ids_from, clu_stream-ok}
use minas_flink.Baseline.Searches.{squared, AreSquares, nearest_val_std-nearest_val}

abbrev base_params : BaseParams ℤ
base_params = record {
  k = 1;
  dim = 1;
  min_examples_per_cluster = 2;
  precision = pos 0;
  radius_f = pos 1;
  novelty_f = pos 2;
  use_clu_stream = true;
  max_micro_clusters = 2;
  time_threshold = pos 1;
  use_reclassification = true;
}

abbrev training : List (Example ℤ)
training = example_at 0 10 ∷ example_at 1 50 ∷ example_at 2 12 ∷ []

-- A micro cluster at the start.
abbrev micro_at : ℕ → ℕ → BaseCluster ℤ
micro_at id x = record {
  id = id;
  n_matches = 1;
  label = 0;
  center = pos x ∷ [];
  ls_val_linear_sum = pos 0 ∷ [];
  ss_val_square_sum = pos 0 ∷ [];
  distance_linear_sum = pos 0;
  distance_square_sum = pos 0;
  distance_max = pos 0;
  time_linear_sum = pos 1;
  time_square_sum = pos 1;
  distance_avg = pos 0;
  distance_std_dev = pos 0;
  radius = pos 0;
  time_mu = pos 0;
  time_sigma = pos 0;
}

abbrev two_micro : List (BaseCluster ℤ)
two_micro = micro_at 7 30 ∷ micro_at 8 100 ∷ []

start_two : start_micro (pos 99) base_params training 7 ≡ ok two_micro
unfolding start_micro base_init init_clusters blank_cluster base_k_means base_k_means_loop
    base_assign base_take_in base_recenter nearest_val scan_val visit_val square_distance add_values
    add_squares start_cluster fill_radius euclidean_distance euclidean_sqr_distance
    sqr_distance_from ◌+ℤ◌ ◌-ℤ◌ ◌*ℤ◌ sqrt_ℤ
start_two = refl

-- An example at 14 brings a micro cluster at 30 to 7.
halves_seven : halves (pos 14 ∷ []) ≡ pos 7 ∷ []
unfolding ◌+ℤ◌
halves_seven = refl

two_finite : AreFinite two_micro
unfolding euclidean_distance euclidean_sqr_distance sqr_distance_from ◌+ℤ◌ ◌-ℤ◌ ◌*ℤ◌ sqrt_ℤ
two_finite = (refl, (refl, tt))

two_apart : AreApart (pos 14 ∷ []) two_micro
unfolding euclidean_distance euclidean_sqr_distance sqr_distance_from ◌+ℤ◌ ◌-ℤ◌ ◌*ℤ◌ sqrt_ℤ
two_apart = (refl, (refl, tt))

consume_one-halves_example :
    (j : ℕ) × (c : BaseCluster ℤ) × (get_elem? two_micro j ≡ some c)
    × (consume_one base_params 0 (pos 14 ∷ []) (record { clusters = two_micro; next_id = 2 })
        ≡ ok (record {
          clusters = modify two_micro j (absorb (pos 1) 0 (pos 14 ∷ []));
          next_id = 2;
        }))
    × ((absorb (pos 1) 0 (pos 14 ∷ []) c).center ≡ halves (pos 14 ∷ []))
consume_one-halves_example =
    consume_one-halves (pos 99) base_params training 7 2 0 (pos 14 ∷ []) two_micro (omega arith)
      (omega arith) (omega arith) (refl, (refl, (refl, tt))) refl start_two refl two_finite
      two_apart

clu_stream-ok_example :
    (cs : List (BaseCluster ℤ)) × (clu_stream (pos 99) base_params training 7 ≡ ok cs)
    × (base_ids cs ≡ ids_from 1 7)
clu_stream-ok_example =
    clu_stream-ok (pos 99) base_params training 7 (omega arith) (omega arith) (omega arith)
      (omega arith) (omega arith) (refl, (refl, (refl, tt)))

two_squares : AreSquares (pos 14 ∷ []) two_micro
unfolding distance_sum ◌+ℤ◌ ◌-ℤ◌ ◌*ℤ◌
two_squares = (refl, (refl, tt))

nearest_val_std-nearest_val_example :
    (i j : ℕ) × (c d : BaseCluster ℤ) × (get_elem? two_micro i ≡ some c)
    × (get_elem? two_micro j ≡ some d)
    × (nearest_val_std (pos 3) two_micro (pos 14 ∷ []) ≡ (some i, sqrt_ℤ (squared (pos 14 ∷ []) c)))
    × (nearest_val (pos 4) two_micro (pos 14 ∷ []) ≡ (some j, sqrt_ℤ (squared (pos 14 ∷ []) d)))
    × (leb_ℤ (sqrt_ℤ (squared (pos 14 ∷ []) c)) (sqrt_ℤ (squared (pos 14 ∷ []) d)) ≡ true)
    × (leb_ℤ (sqrt_ℤ (squared (pos 14 ∷ []) d)) (sqrt_ℤ (squared (pos 14 ∷ []) c)) ≡ true)
    × All (λ x. leb_ℤ (squared (pos 14 ∷ []) d) (squared (pos 14 ∷ []) x) ≡ true) two_micro
nearest_val_std-nearest_val_example =
    nearest_val_std-nearest_val Whole-IsIeee Whole-HasRoot (pos 14 ∷ []) (pos 3) (pos 4) two_micro
      (omega arith) two_squares

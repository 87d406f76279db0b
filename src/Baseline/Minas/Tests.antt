-- ===== src/Baseline/Minas/Tests.antt =====
-- Runs of `minasOnline` of old-code/src/base/minas.c, over the integers.
use minas_flink.Prelude.{◌≡◌, refl, true, false, List, [], ◌∷◌, arith}
use minas_flink.Prelude.Int.{ℤ, pos, ◌+ℤ◌, ◌-ℤ◌, ◌*ℤ◌}
use minas_flink.Double.Whole.{whole_double, sqrt_ℤ}
use minas_flink.Data.{ok, fail, no_nearest_cluster}
use minas_flink.Nearest.{square_distance}
use minas_flink.KMeans.{add_values, add_squares}
use minas_flink.Clustering.{deviation}
use minas_flink.Samples.{example_at}
use minas_flink.Baseline.{BaseParams, BaseCluster, visit_val, scan_val, nearest_val}
use minas_flink.Baseline.KMeans.{
  blank_cluster, init_clusters, base_init, base_take_in, base_assign, base_recenter,
  base_k_means_loop, base_k_means,
}
use minas_flink.Baseline.Minas.{
  BaseModel, base_reset, base_measure_in, base_measure, base_finish, base_finish_all,
  first_clustering, base_clustering,
}
use minas_flink.Baseline.Minas.Online.{OnlineState, start_online, online_all, flush_online}
use minas_flink.Baseline.Minas.Online.Flush.{flush_online-fails}
use minas_flink.Baseline.Minas.Online.Kept.{IsPlain}
use minas_flink.Baseline.Minas.Online.Total.{Prints, online_all-Prints}

abbrev plain_params : BaseParams ℤ
plain_params = record {
  k = 1;
  dim = 1;
  min_examples_per_cluster = 3;
  precision = pos 0;
  radius_f = pos 1;
  novelty_f = pos 2;
  use_clu_stream = false;
  max_micro_clusters = 2;
  time_threshold = pos 1;
  use_reclassification = true;
}

plain : IsPlain plain_params
plain = record { plain = refl; some_k = omega arith; some_min = omega arith; small = omega arith }

abbrev known : BaseCluster ℤ
known = record {
  id = 0;
  n_matches = 3;
  label = b'N';
  center = pos 10 ∷ [];
  ls_val_linear_sum = pos 30 ∷ [];
  ss_val_square_sum = pos 300 ∷ [];
  distance_linear_sum = pos 3;
  distance_square_sum = pos 3;
  distance_max = pos 2;
  time_linear_sum = pos 0;
  time_square_sum = pos 0;
  distance_avg = pos 1;
  distance_std_dev = pos 1;
  radius = pos 2;
  time_mu = pos 0;
  time_sigma = pos 0;
}

abbrev one_cluster : BaseModel ℤ
one_cluster = record { clusters = known ∷ []; next_label = 0 }

abbrev lines_of : List (List ℤ)
lines_of = (pos 11 ∷ []) ∷ (pos 70 ∷ []) ∷ (pos 72 ∷ []) ∷ []

online_all-Prints_example :
    (s' : OnlineState ℤ) × (new : List (BaseCluster ℤ)) × (online_all
        (pos 9)
        plain_params
        lines_of
        (start_online plain_params one_cluster)
      ≡ ok s')
    × (s'.model.clusters ≡ known ∷ new)
    × Prints 0 lines_of s'.output
online_all-Prints_example =
    online_all-Prints (pos 9) plain_params one_cluster lines_of plain (omega arith)
      (refl, (refl, (refl, tt))) (omega arith)

-- The first example is known; the two others are left in the buffer.
abbrev at_the_end : OnlineState ℤ
at_the_end = record {
  model = one_cluster;
  unknowns = example_at 1 70 ∷ example_at 2 72 ∷ [];
  max_size = 3;
  last_nd_check = 0;
  id = 3;
  output =
      record { point_id = 0; label = b'N' }
      ∷ record { point_id = 1; label = b'-' }
      ∷ record { point_id = 2; label = b'-' }
      ∷ [];
}

abbrev pair_cluster : BaseCluster ℤ
pair_cluster = record {
  id = 1;
  n_matches = 2;
  label = 0;
  center = pos 71 ∷ [];
  ls_val_linear_sum = pos 142 ∷ [];
  ss_val_square_sum = pos 10084 ∷ [];
  distance_linear_sum = pos 2;
  distance_square_sum = pos 2;
  distance_max = pos 1;
  time_linear_sum = pos 0;
  time_square_sum = pos 0;
  distance_avg = pos 1;
  distance_std_dev = pos 0;
  radius = pos 0;
  time_mu = pos 0;
  time_sigma = pos 0;
}

pair_clustering :
    base_clustering (pos 9) plain_params at_the_end.unknowns 1 ≡ ok (pair_cluster ∷ [])
unfolding base_clustering first_clustering base_reset base_measure_in base_measure base_finish
    base_finish_all deviation base_init init_clusters blank_cluster base_k_means base_k_means_loop
    base_assign base_take_in base_recenter nearest_val scan_val visit_val square_distance add_values
    add_squares ◌+ℤ◌ ◌-ℤ◌ ◌*ℤ◌ sqrt_ℤ
pair_clustering = refl

flush_online-fails_example : flush_online (pos 9) plain_params at_the_end ≡ fail no_nearest_cluster
flush_online-fails_example =
    flush_online-fails (pos 9) plain_params at_the_end (pair_cluster ∷ []) (omega arith)
      pair_clustering (refl, tt)

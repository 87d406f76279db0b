-- ===== src/Statistics/Tests.antt =====
-- Statistics of a model whose clusters share a label, and of one whose clusters do not.
use minas_flink.Prelude.{◌≡◌, refl, false, [], ◌∷◌, take}
use minas_flink.Prelude.Int.{ℤ}
use minas_flink.Data.{Model, ok, fail, out_of_bounds}
use minas_flink.Statistics.{
  count_clusters, count_cluster, row_of, is_free, print_rows, no_statistics, label_match_statistics,
}
use minas_flink.Statistics.Rows.{lookup}
use minas_flink.Statistics.Totals.{label_match_statistics-totals}
use minas_flink.Samples.{cluster_at, three_clusters}

abbrev three : Model ℤ
three = record { clusters = three_clusters; room = 3 }

label_match_statistics-totals_example :
    let s = count_clusters (no_statistics three) three_clusters in
    (s.n_labels ≡ 1)
    × (label_match_statistics three ≡ ok (s, take 1 s.rows))
    × (lookup b'N' s.rows ≡ 9)
    × (s.n_matches ≡ 9)
    × (s.n_misses ≡ 3)
label_match_statistics-totals_example =
    label_match_statistics-totals three b'N' (refl, (refl, (refl, tt))) refl

-- With one cluster, there is a label for each.
one_label :
    label_match_statistics (record { clusters = cluster_at 0 10 false ∷ []; room = 1 })
    ≡ fail out_of_bounds
unfolding label_match_statistics count_clusters count_cluster row_of is_free print_rows
    no_statistics
one_label = refl

-- ===== src/Online/Tests.antt =====
-- An instance of the theorem about a line with an example.
use minas_flink.Prelude.{◌<◌, ◌≡◌, refl, true, List, [], ◌∷◌, length, arith}
use minas_flink.Prelude.Int.{ℤ, pos}
use minas_flink.Double.Whole.{whole_double, Whole-IsIeee}
use minas_flink.Data.{Match, MinasState, ok}
use minas_flink.Online.{read_example_line}
use minas_flink.Online.Step.{IsEnded, read_example_line-fits}
use minas_flink.Samples.{params, state}

abbrev val : List ℤ
val = pos 71 ∷ []

read_example_line-fits_example :
    (s : MinasState ℤ) × (m : Match ℤ) × (read_example_line (pos 7) true params state val
      ≡ ok (s, m))
    × (m.point_id ≡ 42)
    × (s.unknowns.used < 4)
    × (length s.unknowns.slots ≡ 5)
    × IsEnded state val s m
read_example_line-fits_example =
    read_example_line-fits Whole-IsIeee (pos 7) true params state val
      (record {
        owned = record {
          pointers = (refl, (refl, (refl, (refl, (refl, tt)))));
          allocated = omega arith;
        };
        fits = omega arith;
        allocated = omega arith;
        small = omega arith;
        some_model = omega arith;
        some_k = omega arith;
        enough = omega arith;
        many = omega arith;
        trigger = omega arith;
      })
      (omega arith)

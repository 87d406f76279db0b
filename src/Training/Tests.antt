-- ===== src/Training/Tests.antt =====
-- Instances of the theorems about training.
use minas_flink.Prelude.{
  ℕ, ◌*◌, ◌≡◌, refl, List, [], ◌∷◌, length, filter_if, ltb, ◌==◌, if◌then◌else◌, arith,
}
use minas_flink.Prelude.Int.{ℤ, pos}
use minas_flink.Double.Whole.{whole_double, Whole-IsIeee}
use minas_flink.Data.{Model, size, ok, fail, too_many_classes}
use minas_flink.Clustering.Count.{matches}
use minas_flink.Training.{Class, add_to_class, read_training, training}
use minas_flink.Training.Classes.{examples_of, numbered, grouped, read_training-classes}
use minas_flink.Training.Total.{AreTrained, total, training-ok}
use minas_flink.Samples.{params}

abbrev lines : List (List ℤ × ℕ)
lines = (pos 10 ∷ [], b'N') ∷ (pos 50 ∷ [], b'A') ∷ (pos 12 ∷ [], b'N') ∷ []

two_classes : length (grouped 0 lines []) ≡ 2
unfolding add_to_class
two_classes = refl

read_training-classes_example :
    (cs : List (Class ℤ)) × (read_training 0 lines []
      ≡ (if ltb (length cs) 254 then ok cs else fail too_many_classes))
    × ((name : ℕ) → examples_of name cs ≡ filter_if (λ e. e.label == name) (numbered 0 lines))
read_training-classes_example = read_training-classes lines (omega arith)

training-ok_example :
    (m : Model ℤ) × (training (pos 7) params lines ≡ ok m)
    × AreTrained 1 (grouped 0 lines []) m.clusters
    × (size m ≡ length (grouped 0 lines []) * 1)
    × (matches m.clusters ≡ total (grouped 0 lines []))
unfolding add_to_class
training-ok_example =
    training-ok Whole-IsIeee (pos 7) params lines (omega arith) (omega arith) (omega arith)
      (omega arith) ((omega arith, omega arith), ((omega arith, omega arith), tt))

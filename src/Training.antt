-- ===== src/Training.antt =====
-- `training` of src/base.c: the examples are grouped by class, and each class is clustered. The lines
-- that `scanf` reads are the values and the class of one example each; a class is a
-- character of the ASCII table, which the `char` of the source holds as it is, and is not NUL.
pub mod Classes
pub mod Total
mod Tests
use minas_flink.Prelude.{
  ℕ, ◌+◌, List, [], ◌∷◌, ◌++◌, map, take, length, ltb, ◌==◌, if◌then◌else◌, u32, add32,
}
use minas_flink.Double.{Double}
use minas_flink.Data.{
  Example, Cluster, Model, MinasParams, size, Result, ok, fail, not_enough_examples,
  too_many_classes, ◌>>=◌,
}
use minas_flink.Clustering.{clustering}

-- An entry of `classes` and of `trainingSetByClass`.
pub record Class (W : Type 0) : Type 0 where
  pub name : ℕ
  pub examples : List (Example W)

module _ {W : Type 0} where
  -- The search for the class of an example, and its place behind the examples of the class.
  unfoldable pub add_to_class : List (Class W) → Example W → List (Class W)
  add_to_class [] e = record { name = e.label; examples = e ∷ [] } ∷ []
  add_to_class (c ∷ cs) e =
      let rest = add_to_class cs e in
      if c.name == e.label then record c { examples = c.examples ++ (e ∷ []) } ∷ cs else c ∷ rest

  abbrev pub example_of : ℕ → List W × ℕ → Example W
  example_of id (val, class) = record { id = id; label = class; val = val }

  abbrev pub with_label : ℕ → Cluster W → Cluster W
  with_label label c = record c { label = label }

  -- The loop over the lines; `id` is the number of the line.
  unfoldable pub read_training : ℕ → List (List W × ℕ) → List (Class W) → Result (List (Class W))
  read_training id [] cs = ok cs
  read_training id (line ∷ lines) cs =
      let cs' = add_to_class cs (example_of id line) in
      let rest = read_training (add32 id 1) lines cs' in
      if ltb (length cs') 254 then rest else fail too_many_classes

module _ {W : Type 0} ⦃D : Double W⦄ where
  -- One round of the loop over the classes.
  unfoldable pub train_class : W → MinasParams W → Model W → Class W → Result (Model W)
  train_class junk params m c = do
    clusters ← clustering junk params c.examples (size m)
    ok (record {
      clusters = m.clusters ++ map (with_label c.name) (take params.k clusters);
      room = add32 (size m) params.k;
    })

  unfoldable pub train_classes : W → MinasParams W → Model W → List (Class W) → Result (Model W)
  train_classes junk params m [] = ok m
  train_classes junk params m (c ∷ cs) = do
    m' ← train_class junk params m c
    train_classes junk params m' cs

  unfoldable pub training : W → MinasParams W → List (List W × ℕ) → Result (Model W)
  training junk params lines =
      let trained = λ (cs : List (Class W)).
        train_classes junk params (record { clusters = []; room = 1 }) cs in
      read_training 0 lines [] >>= λ (cs : List (Class W)).
      if ltb (u32 (length lines)) params.k then fail not_enough_examples else trained cs

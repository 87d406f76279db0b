-- ===== src/Training/Classes.antt =====
-- The grouping of the training set by class.
use minas_flink.Prelude.{
  ℕ, suc, ◌+◌, ◌≤◌, ◌<◌, ◌≡◌, refl, ap, ◌∙◌, sym, true, false, List, [], ◌∷◌, ◌++◌, arith, length,
  filter_if, ltb, ◌==◌, inl, inr, Bool-cases, lt→ltb, ltb→lt, if◌then◌else◌, u32_mod, add32,
}
use mathlib.Core.List.{append-nil, append_assoc}
use minas_flink.Data.{Example, ok, fail, too_many_classes}
use minas_flink.Training.{Class, add_to_class, example_of, read_training}

module _ {W : Type 0} where
  -- The examples of a class.
  abbrev pub examples_of : ℕ → List (Class W) → List (Example W)
  examples_of name [] = []
  examples_of name (c ∷ cs) = if c.name == name then c.examples else examples_of name cs

  -- The examples of the lines, numbered from `id` on.
  abbrev pub numbered : ℕ → List (List W × ℕ) → List (Example W)
  numbered id [] = []
  numbered id (line ∷ lines) = example_of id line ∷ numbered (suc id) lines

  examples_of-add_to_class :
      (name : ℕ) (cs : List (Class W)) (e : Example W)
      → examples_of name (add_to_class cs e)
        ≡ examples_of name cs ++ (if e.label == name then e ∷ [] else [])
  unfolding add_to_class
  examples_of-add_to_class name [] e = refl
  examples_of-add_to_class name (c ∷ cs) e =
      let rest = examples_of-add_to_class name cs e in
      elim (Bool-cases (c.name == e.label)) [
        | inl here ↦
            let same : c.name ≡ e.label = ground arith in
            elim (Bool-cases (c.name == name)) [
              | inl yes_name ↦
                  let other : e.label == name ≡ true = ground arith in
                  rw (here, yes_name, other) refl
              | inr no_name ↦
                  let other : e.label == name ≡ false = ground arith in
                  rw (here, no_name, other) (sym (append-nil (examples_of name cs)))
            ]
        | inr there ↦ elim (Bool-cases (c.name == name)) [
          | inl yes_name ↦
              let other : e.label == name ≡ false = ground arith in
              rw (there, yes_name, other) (sym (append-nil c.examples))
          | inr no_name ↦ rw (there, no_name) rest
        ]
      ]

  -- The classes of all lines, whatever their number.
  abbrev pub grouped : ℕ → List (List W × ℕ) → List (Class W) → List (Class W)
  grouped id [] cs = cs
  grouped id (line ∷ lines) cs = grouped (suc id) lines (add_to_class cs (example_of id line))

  add_to_class-le : (cs : List (Class W)) (e : Example W) → length cs ≤ length (add_to_class cs e)
  unfolding add_to_class
  add_to_class-le [] e = omega arith
  add_to_class-le (c ∷ cs) e = ground (arith, add_to_class-le cs e)

  grouped-le :
      (id : ℕ) (lines : List (List W × ℕ)) (cs : List (Class W))
      → length cs ≤ length (grouped id lines cs)
  grouped-le id [] cs = omega arith
  grouped-le id (line ∷ lines) cs =
      let e = example_of id line in
      omega (arith, add_to_class-le cs e, grouped-le (suc id) lines (add_to_class cs e))

  examples_of-grouped :
      (name id : ℕ) (lines : List (List W × ℕ)) (cs : List (Class W))
      → examples_of name (grouped id lines cs)
        ≡ examples_of name cs ++ filter_if (λ e. e.label == name) (numbered id lines)
  examples_of-grouped name id [] cs = sym (append-nil (examples_of name cs))
  examples_of-grouped name id (line ∷ lines) cs =
      let e = example_of id line in
      let rest = filter_if (λ (x : Example W). x.label == name) (numbered (suc id) lines) in
      examples_of-grouped name (suc id) lines (add_to_class cs e)
      ∙ ap (λ l. l ++ rest) (examples_of-add_to_class name cs e)
      ∙ append_assoc (examples_of name cs) (if e.label == name then e ∷ [] else []) rest
      ∙ ap (λ l. examples_of name cs ++ l)
          (elim (Bool-cases (e.label == name)) [
            | inl yes_name ↦ rw yes_name refl
            | inr no_name ↦ rw no_name refl
          ])

  pub read_training-grouped :
      (id : ℕ) (lines : List (List W × ℕ)) (cs : List (Class W))
      → id + length lines < u32_mod
      → length cs < 254
      → let cs' = grouped id lines cs in
        read_training id lines cs ≡ (if ltb (length cs') 254 then ok cs' else fail too_many_classes)
  unfolding read_training
  read_training-grouped id [] cs small few = rw (lt→ltb (length cs) 254 few) refl
  read_training-grouped id (line ∷ lines) cs small few =
      let cs₁ = add_to_class cs (example_of id line) in
      let next : add32 id 1 ≡ suc id = omega arith in
      elim (Bool-cases (ltb (length cs₁) 254)) [
        | inl still ↦
            rw (next, still)
              (read_training-grouped (suc id) lines cs₁ (omega arith)
                (ltb→lt (length cs₁) 254 still))
        | inr many ↦
            let all : ltb (length (grouped (suc id) lines cs₁)) 254 ≡ false =
              ground (arith, grouped-le (suc id) lines cs₁) in
            rw (many, all) refl
      ]

  -- The loop over the lines of the training set, with fewer than 2^32 lines, ends with its classes,
  -- or with a failed assertion if those are 254 or more. The examples of each class are those of its
  -- lines, in order, and their ids are the numbers of the lines.
  pub read_training-classes :
      (lines : List (List W × ℕ))
      → length lines < u32_mod
      → (cs : List (Class W)) × (read_training 0 lines []
          ≡ (if ltb (length cs) 254 then ok cs else fail too_many_classes))
        × ((name : ℕ) → examples_of name cs ≡ filter_if (λ e. e.label == name) (numbered 0 lines))
  read_training-classes lines small = (
    grouped 0 lines [],
    read_training-grouped 0 lines [] (omega arith) (omega arith),
    λ name. examples_of-grouped name 0 lines [],
  )

-- ===== src/Mpi/Classifier/Blind.antt =====
-- What of an example the label of a classifier depends on.
use minas_flink.Prelude.{
  ℕ, zero, suc, modify, some, [], get_elem?, get_elem?-modify, ◌≡◌, ap, List, ◌∷◌, drop, refl,
}
use minas_flink.Double.{Double}
use minas_flink.Data.{Example, MinasParams, MinasState}
use minas_flink.Mpi.Classifier.{
  FixedMessage, put_sample, classify_round, Classifier, classify_sample, as_example,
}

modify-twice :
    {A : Type 0} (xs : List A) (i : ℕ) (f : A → A) (x : A)
    → modify (modify xs i f) i (λ _. x) ≡ modify xs i (λ _. x)
modify-twice [] i f x = refl
modify-twice (y ∷ xs) zero f x = refl
modify-twice (y ∷ xs) (suc i) f x = ap (λ l. y ∷ l) (modify-twice xs i f x)

-- Two samples that differ in no more than the first value.
pub record IsSameButFirst {W : Type 0} (e e' : Example W) : Type 0 where
  pub id : e'.id ≡ e.id
  pub label : e'.label ≡ e.label
  pub val : drop 1 e'.val ≡ drop 1 e.val

module _ {W : Type 0} ⦃D : Double W⦄ (junk address : W) (params : MinasParams W) where
  as_example-blind :
      (e e' : Example W) → IsSameButFirst e e' → as_example address e' ≡ as_example address e
  unfolding as_example
  as_example-blind e e' same = rw (same.id, same.label, same.val) refl

  put_sample-twice :
      (m : FixedMessage W) (i : ℕ) (e e' : Example W)
      → put_sample (put_sample m i e') i e ≡ put_sample m i e
  unfolding put_sample
  put_sample-twice m i e e' =
      ap (λ l. record { samples = l }) (modify-twice m.samples i (λ _. e') e)

  sample-put :
      (m : FixedMessage W) (i : ℕ) (e e' : Example W)
      → get_elem? m.samples i ≡ some e
      → get_elem? (put_sample m i e').samples i ≡ some e'
  unfolding put_sample
  sample-put m i e e' at = get_elem?-modify m.samples i (λ _. e') at

  -- The first value of a sample has no influence: whatever it is, the round ends in the same way, with
  -- the same match, in the same state and with the same messages.
  pub classify_round-blind :
      (c : Classifier W) (found : MinasState W) (e e' : Example W)
      → get_elem? c.msg.samples c.current_packet ≡ some e
      → IsSameButFirst e e'
      → classify_round junk address params
          (record c { msg = put_sample c.msg c.current_packet e' })
          found
        ≡ classify_round junk address params c found
  unfolding classify_round classify_sample
  classify_round-blind c found e e' at same =
      rw
        (
          at,
          sample-put c.msg c.current_packet e e' at,
          as_example-blind e e' same,
          put_sample-twice c.msg c.current_packet (as_example address e) e',
        )
        refl

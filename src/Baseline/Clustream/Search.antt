-- ===== src/Baseline/Clustream/Search.antt =====
-- The searches of CluStream for a least value.
use minas_flink.Prelude.{
  ℕ, suc, ◌+◌, ◌<◌, ◌≡◌, refl, ap, ◌∙◌, ◌⊎◌, inl, inr, some, none, List, [], ◌∷◌, arith, length,
  get_elem?, Bool-cases,
}
use minas_flink.Double.{Double}
use minas_flink.Data.{ok}
use minas_flink.Baseline.{BaseCluster}
use minas_flink.Baseline.Clustream.{Least, lesser, first_least, pick}

pub pick-at :
    {W : Type 0} ⦃D : Double W⦄ (cs : List (BaseCluster W)) (i : ℕ) (v : W) {c : BaseCluster W}
    → get_elem? cs i ≡ some c
    → pick cs (some (i, v)) ≡ ok (i, v, c)
unfolding pick
pick-at cs i v at = rw (pick, at) refl

module _ {W : Type 0} ⦃D : Double W⦄ (value : BaseCluster W → W) where
  -- The search has found one of the clusters, with its value.
  abbrev Found : List (BaseCluster W) → Least W → Type 0
  Found cs s = (i : ℕ) × (c : BaseCluster W) × (get_elem? cs i ≡ some c) × (s ≡ some (i, value c))

  first_least-Found_from :
      (k : ℕ) (cs : List (BaseCluster W)) (j : ℕ) (m : W)
      → ((first_least value k cs (some (j, m))) ≡ some (j, m))
        ⊎ ((i : ℕ) × (c : BaseCluster W) × (get_elem? cs i ≡ some c)
            × (first_least value k cs (some (j, m)) ≡ some (k + i, value c)))
  unfolding first_least lesser
  first_least-Found_from k [] j m = inl refl
  first_least-Found_from k (c ∷ cs) j m = elim (Bool-cases (D.lt (value c) m)) [
    | inl closer ↦ rw closer (elim (first_least-Found_from (k + 1) cs k (value c)) [
      | inl same ↦ inr (0, c, refl, same ∙ ap (λ n. some (n, value c)) (omega arith))
      | inr (i, x, at, e) ↦ inr (suc i, x, at, e ∙ ap (λ n. some (n, value x)) (omega arith))
    ])
    | inr farther ↦ rw farther (elim (first_least-Found_from (k + 1) cs j m) [
      | inl same ↦ inl same
      | inr (i, x, at, e) ↦ inr (suc i, x, at, e ∙ ap (λ n. some (n, value x)) (omega arith))
    ])
  ]

  first_least-Found :
      (cs : List (BaseCluster W)) → 0 < length cs → Found cs (first_least value 0 cs none)
  unfolding first_least lesser
  first_least-Found [] h = absurd (omega arith)
  first_least-Found (c ∷ cs) h = elim (first_least-Found_from 1 cs 0 (value c)) [
    | inl same ↦ (0, c, refl, same)
    | inr (i, x, at, e) ↦ (suc i, x, at, e ∙ ap (λ n. some (n, value x)) (omega arith))
  ]

  -- With at least one cluster the search ends at one of them.
  pub pick-first_least :
      (cs : List (BaseCluster W))
      → 0 < length cs
      → (i : ℕ) × (c : BaseCluster W) × (get_elem? cs i ≡ some c)
        × (pick cs (first_least value 0 cs none) ≡ ok (i, value c, c))
  pick-first_least cs h =
      let (i, c, at, e) = first_least-Found cs h in
      (i, c, at, ap (pick cs) e ∙ pick-at cs i (value c) at)

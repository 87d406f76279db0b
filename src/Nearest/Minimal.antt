-- ===== src/Nearest/Minimal.antt =====
-- What `nearestClusterVal` finds.
use minas_flink.Prelude.{
  ℕ, suc, ◌+◌, ◌<◌, ◌≡◌, refl, sym, ap, subst, ◌∙◌, ◌⊎◌, inl, inr, Bool, true, not, ◌&&◌, List, [],
  ◌∷◌, Option, false, length, some, none, arith, get_elem?, All,
}
use mathlib.Core.Path.{ap₂}
use minas_flink.Double.{Double, IsIeee, IsNumber}
use minas_flink.Data.{Cluster}
use minas_flink.Nearest.{Scan, nearest_cluster_val}
use minas_flink.Nearest.Reference.{
  distance_to, plain_visit, plain_scan, plain_nearest, nearest-eq-plain_nearest,
}

-- The search looks at all the clusters, or at those that are awake.
abbrev pub is_considered : {W : Type 0} → Bool → Cluster W → Bool
is_considered skip_sleep c = not (skip_sleep && c.is_sleep)

module _ {W : Type 0} ⦃D : Double W⦄ where
  -- No considered cluster is nearer to the point than the distance `d`.
  abbrev pub IsLeast : List W → Bool → W → List (Cluster W) → Type 0
  IsLeast val skip d = All λ c. is_considered skip c ≡ true → D.le d (distance_to val c) ≡ true

  -- The squared distances to all the clusters are numbers.
  abbrev pub AreNumbers : List W → List (Cluster W) → Type 0
  AreNumbers val = All λ c. IsNumber (distance_to val c)

  -- The search ended at the considered cluster `j` of the list, or where it began.
  Chosen : List W → Bool → ℕ → List (Cluster W) → Scan W → Scan W → Type 0
  Chosen val skip k cs s s' =
      (s' ≡ s)
      ⊎ ((j : ℕ) × (c : Cluster W) × (get_elem? cs j ≡ some c)
          × (is_considered skip c ≡ true)
          × (s'.nearest ≡ some (k + j))
          × (s'.min_dist ≡ distance_to val c))

module _ {W : Type 0} ⦃D : Double W⦄ (ieee : IsIeee W) (val : List W) (skip : Bool) where
  -- One round after the first: the distance does not grow, and does not exceed that of the cluster.
  plain_visit_least :
      (k : ℕ) (c : Cluster W) (s : Scan W)
      → 0 < k
      → IsNumber (distance_to val c)
      → IsNumber s.min_dist
      → let m = (plain_visit val skip k c s).min_dist in
        (D.le m s.min_dist ≡ true)
        × (is_considered skip c ≡ true → D.le m (distance_to val c) ≡ true)
  unfolding plain_visit
  plain_visit_least k c s h hc hs =
      ground (arith, ieee.le_of_not-le (distance_to val c) s.min_dist hc hs)

  plain_scan-IsLeast :
      (k : ℕ) (cs : List (Cluster W)) (s : Scan W)
      → 0 < k
      → AreNumbers val cs
      → IsNumber s.min_dist
      → let m = (plain_scan val skip k cs s).min_dist in
        (D.le m s.min_dist ≡ true) × IsLeast val skip m cs
  unfolding plain_scan
  plain_scan-IsLeast k [] s h hc hs = (hs, tt)
  plain_scan-IsLeast k (c ∷ cs) s h (hc, hcs) hs =
      let s' = plain_visit val skip k c s in
      let (down, least) = plain_visit_least k c s h hc hs in
      let (down', rest) =
        plain_scan-IsLeast (k + 1) cs s' (omega arith) hcs (ieee.number_of_le _ _ down).0 in
      (ieee.le_trans _ _ _ down' down, (λ e. ieee.le_trans _ _ _ down' (least e), rest))

  plain_visit-cases :
      (k : ℕ) (c : Cluster W) (s : Scan W)
      → let found : Scan W = record { min_dist = distance_to val c; nearest = some k } in
        (plain_visit val skip k c s ≡ s)
        ⊎ ((is_considered skip c ≡ true) × (plain_visit val skip k c s ≡ found))
  unfolding plain_visit
  plain_visit-cases k c s = ground arith

  plain_scan-Chosen :
      (k : ℕ) (cs : List (Cluster W)) (s : Scan W)
      → Chosen val skip k cs s (plain_scan val skip k cs s)
  unfolding plain_scan Chosen
  plain_scan-Chosen k [] s = inl refl
  plain_scan-Chosen k (c ∷ cs) s =
      elim (plain_scan-Chosen (k + 1) cs (plain_visit val skip k c s)) [
        | inr (j, c', e, on, p, q) ↦ inr (suc j, c', e, on, p ∙ ap some (omega arith), q)
        | inl e ↦ elim (plain_visit-cases k c s) [
          | inl e' ↦ inl (e ∙ e')
          | inr (on, e') ↦ inr (
            0,
            c,
            refl,
            on,
            ap (λ t. t.nearest) (e ∙ e') ∙ ap some (omega arith),
            ap (λ t. t.min_dist) (e ∙ e'),
          )
        ]
      ]

  plain_visit_first :
      (c : Cluster W) (s : Scan W)
      → is_considered skip c ≡ true
      → plain_visit val skip 0 c s ≡ record { min_dist = distance_to val c; nearest = some 0 }
  unfolding plain_visit
  plain_visit_first c s on = ground arith

  -- The whole search, where the first cluster is considered.
  plain_scan_found :
      (first : Cluster W) (others : List (Cluster W)) (s : Scan W)
      → is_considered skip first ≡ true
      → let s' = plain_scan val skip 0 (first ∷ others) s in
        (i : ℕ) × (c : Cluster W) × (s'.nearest ≡ some i)
        × (get_elem? (first ∷ others) i ≡ some c)
        × (is_considered skip c ≡ true)
        × (s'.min_dist ≡ distance_to val c)
  unfolding plain_scan Chosen
  plain_scan_found first others s on =
      let s₁ = plain_visit val skip 0 first s in
      let e₁ = plain_visit_first first s on in
      elim (plain_scan-Chosen 1 others s₁) [
        | inl e ↦ (0, first, ap (λ t. t.nearest) (e ∙ e₁), refl, on, ap (λ t. t.min_dist) (e ∙ e₁))
        | inr (j, c, e, on', p, q) ↦ (suc j, c, p ∙ ap some (omega arith), e, on', q)
      ]

-- The search from a first cluster that it considers, with both parts of the result.
pub nearest-found :
    {W : Type 0} ⦃D : Double W⦄ (ieee : IsIeee W) (junk : W) (first : Cluster W)
    (others : List (Cluster W)) (val : List W) (skip_sleep : Bool)
    → is_considered skip_sleep first ≡ true
    → (i : ℕ) × (c : Cluster W) × (nearest_cluster_val junk (first ∷ others) val skip_sleep
        ≡ (some i, D.sqrt (distance_to val c)))
      × (get_elem? (first ∷ others) i ≡ some c)
      × (is_considered skip_sleep c ≡ true)
      × (AreNumbers val (first ∷ others)
          → IsLeast val skip_sleep (distance_to val c) (first ∷ others))
unfolding plain_nearest plain_scan
nearest-found ⦃D⦄ ieee junk first others val skip on =
    let s : Scan _ = record { min_dist = junk; nearest = none } in
    let s₁ = plain_visit val skip 0 first s in
    let e₁ = ap (λ t. t.min_dist) (plain_visit_first ieee val skip first s on) in
    let (i, c, p, e, on', q) = plain_scan_found ieee val skip first others s on in
    (
      i,
      c,
      nearest-eq-plain_nearest ieee junk (first ∷ others) val skip ∙ ap₂ (λ n m. (n, D.sqrt m)) p q,
      e,
      on',
      λ (n, ns).
          let (down, least) =
            plain_scan-IsLeast ieee val skip 1 others s₁ (omega arith) ns
              (subst IsNumber (sym e₁) n) in
          (λ _. rw (← q, ← e₁) down, subst (λ m. IsLeast val skip m others) q least),
    )

-- If the first cluster is one that the search considers, and no distance is NaN, then
-- `nearestClusterVal` points to a considered cluster that is nearest to the point among all the
-- considered ones and returns the square root of its squared distance. What the uninitialised
-- `minDist` holds does not matter.
pub nearest-IsLeast :
    {W : Type 0} ⦃D : Double W⦄ (ieee : IsIeee W) (junk : W) (first : Cluster W)
    (others : List (Cluster W)) (val : List W) (skip_sleep : Bool)
    → is_considered skip_sleep first ≡ true
    → AreNumbers val (first ∷ others)
    → (i : ℕ) × (c : Cluster W) × (nearest_cluster_val junk (first ∷ others) val skip_sleep
        ≡ (some i, D.sqrt (distance_to val c)))
      × (get_elem? (first ∷ others) i ≡ some c)
      × (is_considered skip_sleep c ≡ true)
      × IsLeast val skip_sleep (distance_to val c) (first ∷ others)
nearest-IsLeast ieee junk first others val skip on n =
    let (i, c, p, e, on', least) = nearest-found ieee junk first others val skip on in
    (i, c, p, e, on', least n)

-- Whatever `minDist` holds at the start, the search finds nothing, or a considered cluster, whose
-- distance it returns.
pub nearest-cases :
    {W : Type 0} ⦃D : Double W⦄ (ieee : IsIeee W) (junk : W) (clusters : List (Cluster W))
    (val : List W) (skip_sleep : Bool)
    → ((nearest_cluster_val junk clusters val skip_sleep).0 ≡ none)
      ⊎ ((i : ℕ) × (c : Cluster W) × (nearest_cluster_val junk clusters val skip_sleep
            ≡ (some i, D.sqrt (distance_to val c)))
          × (get_elem? clusters i ≡ some c)
          × (is_considered skip_sleep c ≡ true))
unfolding plain_nearest Chosen
nearest-cases ⦃D⦄ ieee junk clusters val skip =
    let e = nearest-eq-plain_nearest ieee junk clusters val skip in
    elim (plain_scan-Chosen ieee val skip 0 clusters (record { min_dist = junk; nearest = none })) [
      | inl same ↦ inl (ap (λ (r : Option ℕ × _). r.0) e ∙ ap (λ s. s.nearest) same)
      | inr (j, c, at, on, p, q) ↦
          inr (j, c, e ∙ ap₂ (λ n m. (n, D.sqrt m)) (p ∙ ap some (omega arith)) q, at, on)
    ]

-- A search of all the clusters finds one, if there are any.
pub nearest-found_all :
    {W : Type 0} ⦃D : Double W⦄ (ieee : IsIeee W) (junk : W) (clusters : List (Cluster W))
    (val : List W)
    → 0 < length clusters
    → (i : ℕ) × (c : Cluster W) × (nearest_cluster_val junk clusters val false
        ≡ (some i, D.sqrt (distance_to val c)))
      × (get_elem? clusters i ≡ some c)
      × (AreNumbers val clusters → IsLeast val false (distance_to val c) clusters)
nearest-found_all ieee junk [] val h = absurd (omega arith)
nearest-found_all ieee junk (first ∷ others) val h =
    let (i, c, e, at, on, least) = nearest-found ieee junk first others val false refl in
    (i, c, e, at, least)

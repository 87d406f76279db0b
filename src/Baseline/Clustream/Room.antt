-- ===== src/Baseline/Clustream/Room.antt =====
-- A micro cluster makes room for a new one.
use minas_flink.Prelude.{
  ℕ, ◌+◌, ◌≤◌, ◌<◌, ◌≡◌, refl, ◌∙◌, inl, inr, some, none, List, [], ◌∷◌, arith, length, modify,
  Bool-cases, length-modify, get_elem?-in, get_elem?-lt, All, All-modify, u32, add64,
}
use minas_flink.Double.{Double}
use minas_flink.Data.{ok}
use minas_flink.Baseline.{BaseParams, BaseCluster, euclidean_distance}
use minas_flink.Baseline.KMeans.Total.{length-add_values, HasDim}
use minas_flink.Baseline.Clustream.{
  Pair, Micro, settle_micro, absorb, merge_in, closer_pair, closest_to, closest_pair, replaced,
  merge_pair, make_room, add_pattern,
}
use minas_flink.Baseline.Clustream.Search.{pick-first_least, pick-at}

module _ {W : Type 0} ⦃D : Double W⦄ (dim : ℕ) where
  -- As many micro clusters as before, with sums of the same dimension.
  pub record IsMicro (q : ℕ) (cs : List (BaseCluster W)) : Type 0 where
    pub len : length cs ≡ q
    pub dims : All (HasDim dim) cs

  -- The second of the pair is one of the clusters.
  abbrev IsPairBelow : ℕ → Pair W → Type 0
  IsPairBelow n none = Unit
  IsPairBelow n (some (a, b, least)) = b < n

  closer_pair-IsPairBelow :
      (n a b : ℕ) (dist : W) (s : Pair W)
      → b < n
      → IsPairBelow n s
      → IsPairBelow n (closer_pair a b dist s)
  unfolding closer_pair
  closer_pair-IsPairBelow n a b dist none lt h = lt
  closer_pair-IsPairBelow n a b dist (some (a', b', least)) lt h =
      elim (Bool-cases (D.lt dist least)) [ inl closer ↦ rw closer lt | inr farther ↦ rw farther h ]

  closest_to-IsPairBelow :
      (n a : ℕ) (x : BaseCluster W) (b : ℕ) (ys : List (BaseCluster W)) (s : Pair W)
      → b + length ys ≤ n
      → IsPairBelow n s
      → IsPairBelow n (closest_to a x b ys s)
  unfolding closest_to
  closest_to-IsPairBelow n a x b [] s le h = h
  closest_to-IsPairBelow n a x b (y ∷ ys) s le h =
      closest_to-IsPairBelow n a x (b + 1) ys _ (omega arith)
        (closer_pair-IsPairBelow n a b (euclidean_distance x.center y.center) s (omega arith) h)

  closest_pair-IsPairBelow :
      (n a : ℕ) (xs : List (BaseCluster W)) (s : Pair W)
      → a + length xs ≤ n
      → IsPairBelow n s
      → IsPairBelow n (closest_pair a xs s)
  unfolding closest_pair
  closest_pair-IsPairBelow n a [] s le h = h
  closest_pair-IsPairBelow n a (x ∷ xs) s le h =
      closest_pair-IsPairBelow n (a + 1) xs _ (omega arith)
        (closest_to-IsPairBelow n a x (a + 1) xs s (omega arith) h)

  -- A pair, once there is one, is replaced by others.
  abbrev IsPair : Pair W → Type 0
  IsPair none = ⊥
  IsPair (some p) = Unit

  closer_pair-IsPair : (a b : ℕ) (dist : W) (s : Pair W) → IsPair (closer_pair a b dist s)
  unfolding closer_pair
  closer_pair-IsPair a b dist none = tt
  closer_pair-IsPair a b dist (some (a', b', least)) = elim (Bool-cases (D.lt dist least)) [
    | inl closer ↦ rw closer tt
    | inr farther ↦ rw farther tt
  ]

  closest_to-IsPair :
      (a : ℕ) (x : BaseCluster W) (b : ℕ) (ys : List (BaseCluster W)) (s : Pair W)
      → IsPair s
      → IsPair (closest_to a x b ys s)
  unfolding closest_to
  closest_to-IsPair a x b [] s h = h
  closest_to-IsPair a x b (y ∷ ys) s h =
      closest_to-IsPair a x (b + 1) ys _ (closer_pair-IsPair a b _ s)

  closest_pair-IsPair :
      (a : ℕ) (xs : List (BaseCluster W)) (s : Pair W) → IsPair s → IsPair (closest_pair a xs s)
  unfolding closest_pair
  closest_pair-IsPair a [] s h = h
  closest_pair-IsPair a (x ∷ xs) s h =
      closest_pair-IsPair (a + 1) xs _ (closest_to-IsPair a x (a + 1) xs s h)

  closest_pair-some : (cs : List (BaseCluster W)) → 1 < length cs → IsPair (closest_pair 0 cs none)
  unfolding closest_pair closest_to
  closest_pair-some [] h = absurd (omega arith)
  closest_pair-some (x ∷ []) h = absurd (omega arith)
  closest_pair-some (x ∷ y ∷ cs) h = closest_pair-IsPair 1 (y ∷ cs) _ (
      closest_to-IsPair 0 x 2 cs _
        (closer_pair-IsPair 0 1 (euclidean_distance x.center y.center) none))

  merge_in-HasDim :
      (radius_f : W) (b a : BaseCluster W) → HasDim dim a → HasDim dim (merge_in radius_f b a)
  unfolding merge_in settle_micro
  merge_in-HasDim radius_f b a h = length-add_values a.ls_val_linear_sum b.ls_val_linear_sum ∙ h

  pub absorb-HasDim :
      (radius_f : W) (i : ℕ) (val : List W) (c : BaseCluster W)
      → HasDim dim c
      → HasDim dim (absorb radius_f i val c)
  unfolding absorb settle_micro
  absorb-HasDim radius_f i val c h = length-add_values c.ls_val_linear_sum val ∙ h

  replaced-HasDim :
      (id : ℕ) (d : W) (val : List W) (c : BaseCluster W)
      → length val ≡ dim
      → HasDim dim c
      → HasDim dim (replaced id d val c)
  unfolding replaced
  replaced-HasDim id d [] c len h = h
  replaced-HasDim id d (x ∷ val) c len h = len

  merge_pair-ok :
      (radius_f : W) (q : ℕ) (cs : List (BaseCluster W)) (p : Pair W)
      → IsMicro q cs
      → IsPair p
      → IsPairBelow q p
      → (cs' : List (BaseCluster W)) × (b : ℕ) × (merge_pair radius_f cs p ≡ ok (cs', b))
        × IsMicro q cs'
  unfolding merge_pair
  merge_pair-ok radius_f q cs none v is_pair below = absurd is_pair
  merge_pair-ok radius_f q cs (some (a, b, least)) v is_pair below =
      let (y, at) = get_elem?-in cs b (omega (arith, v.len)) in
      (
        modify cs a (merge_in radius_f y),
        b,
        rw (merge_pair, at) refl,
        record {
          len = length-modify cs a (merge_in radius_f y) ∙ v.len;
          dims =
              All-modify (HasDim dim) cs a (merge_in radius_f y) (λ x. merge_in-HasDim radius_f y x)
                v.dims;
        },
      )

  make_room-ok :
      (params : BaseParams W) (q : ℕ) (cs : List (BaseCluster W)) (i : ℕ) (oldest : BaseCluster W)
      → 1 < q
      → IsMicro q cs
      → (cs' : List (BaseCluster W)) × (b : ℕ) × (make_room params cs i oldest ≡ ok (cs', b))
        × IsMicro q cs'
  unfolding make_room
  make_room-ok params q cs i oldest many v =
      elim (Bool-cases (D.lt oldest.time_mu params.time_threshold)) [
        | inl old ↦ (cs, i, rw old refl, v)
        | inr recent ↦
            let (cs', b, run, v') =
              merge_pair-ok params.radius_f q cs (closest_pair 0 cs none) v
                (closest_pair-some cs (omega (arith, v.len)))
                (closest_pair-IsPairBelow q 0 cs none (omega (arith, v.len)) tt) in
            (cs', b, rw (recent, run) refl, v')
      ]

  pub add_pattern-ok :
      (params : BaseParams W) (q : ℕ) (val : List W) (m : Micro W)
      → 1 < q
      → length val ≡ dim
      → IsMicro q m.clusters
      → (m' : Micro W) × (add_pattern params val m ≡ ok m') × IsMicro q m'.clusters
  unfolding add_pattern
  add_pattern-ok params q val m many len v =
      let (i, oldest, at, picked) =
        pick-first_least (λ c. c.time_mu) m.clusters (omega (arith, v.len)) in
      let (cs, b, run, v') = make_room-ok params q m.clusters i oldest many v in
      let (oldest', at') =
        get_elem?-in cs i (omega (arith, get_elem?-lt m.clusters i at, v.len, v'.len)) in
      let (j, near, at'', picked') =
        pick-first_least (λ c. euclidean_distance c.center oldest'.center) cs
          (omega (arith, v'.len)) in
      let min_dist = euclidean_distance near.center oldest'.center in
      let f = replaced (u32 m.next_id) min_dist val in
      (
        record { clusters = modify cs b f; next_id = add64 m.next_id 1 },
        rw (picked, run, pick-at cs i D.nought at', picked') refl,
        record {
          len = length-modify cs b f ∙ v'.len;
          dims =
              All-modify (HasDim dim) cs b f
                (λ x. replaced-HasDim (u32 m.next_id) min_dist val x len) v'.dims;
        },
      )

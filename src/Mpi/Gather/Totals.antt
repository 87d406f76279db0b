-- ===== src/Mpi/Gather/Totals.antt =====
-- The sums that process 0 ends with.
use mathlib.Core.List.{append_assoc}
use minas_flink.Prelude.{
  ℕ, zero, suc, ◌+◌, ◌*◌, ◌%◌, ◌≤◌, ◌<◌, ◌≡◌, refl, ap, ap₂, sym, ◌∙◌, List, [], ◌∷◌, ◌++◌, map,
  get_or, arith, length, length-append, length-map, All, sum_of, u32_mod, add32,
}
use minas_flink.Data.{Cluster, Model, size}
use minas_flink.Mpi.Gather.{gather, clear_counts, add_node, add_nodes, add_counts}

-- What the processes have counted for the cluster `i`.
abbrev pub column : ℕ → List (List ℕ) → ℕ
column i rows = sum_of (λ row. get_or row i 0) rows

-- Arrays of `n` counts.
abbrev pub AreWide : ℕ → List (List ℕ) → Type 0
AreWide n rows = All (λ row. length row ≡ n) rows

get_or-left : (xs ys : List ℕ) (i : ℕ) → i < length xs → get_or (xs ++ ys) i 0 ≡ get_or xs i 0
get_or-left [] ys i h = absurd (omega arith)
get_or-left (x ∷ xs) ys zero h = refl
get_or-left (x ∷ xs) ys (suc i) h = get_or-left xs ys i (omega arith)

get_or-right : (xs ys : List ℕ) (i : ℕ) → get_or (xs ++ ys) (length xs + i) 0 ≡ get_or ys i 0
get_or-right [] ys i = ap (λ n. get_or ys n 0) (omega arith)
get_or-right (x ∷ xs) ys i =
    let next : suc (length xs) + i ≡ suc (length xs + i) = omega arith in
    rw next (get_or-right xs ys i)

-- An array that is gathered is where the loop looks for it.
get_or-gather :
    (n j : ℕ) (before row : List ℕ) (rows : List (List ℕ))
    → length before ≡ j * n
    → length row ≡ n
    → (x : ℕ) → x < n
    → get_or (before ++ (row ++ gather rows)) (j * n + x) 0 ≡ get_or row x 0
get_or-gather n j before row rows at wide x h =
    ap (λ i. get_or (before ++ (row ++ gather rows)) (i + x) 0) (sym at)
    ∙ get_or-right before (row ++ gather rows) x
    ∙ get_or-left row (gather rows) x (omega (arith, wide))

next_start : (n j a b : ℕ) → a ≡ j * n → b ≡ n → a + b ≡ (j + 1) * n
next_start n j a b e e' = omega arith

add_mod : (a b c : ℕ) → (add32 a b + c) % u32_mod ≡ (a + (b + c)) % u32_mod
add_mod a b c = omega arith

add_zero : (n : ℕ) → 0 + n ≡ n
add_zero n = omega arith

module _ {W : Type 0} where
  -- The clusters from the index `i` on, with the sums added to their counts.
  abbrev with_totals : ℕ → List (List ℕ) → List (List ℕ) → List (Cluster W) → List (Cluster W)
  with_totals i matches misses [] = []
  with_totals i matches misses (c ∷ cs) =
      record c {
        n_matches = (c.n_matches + column i matches) % u32_mod;
        n_misses = (c.n_misses + column i misses) % u32_mod;
      }
      ∷ with_totals (suc i) matches misses cs

  abbrev IsWord : Cluster W → Type 0
  IsWord c = (c.n_matches < u32_mod) × (c.n_misses < u32_mod)

  with_totals-nil : (i : ℕ) (cs : List (Cluster W)) → All IsWord cs → with_totals i [] [] cs ≡ cs
  with_totals-nil i [] h = refl
  with_totals-nil i (c ∷ cs) ((a, b), hs) =
      let p : (c.n_matches + 0) % u32_mod ≡ c.n_matches = omega arith in
      let q : (c.n_misses + 0) % u32_mod ≡ c.n_misses = omega arith in
      rw (p, q, with_totals-nil (suc i) cs hs) refl

  -- The counts of one process, added.
  add_row : ℕ → List ℕ → List ℕ → List (Cluster W) → List (Cluster W)
  add_row i m s [] = []
  add_row i m s (c ∷ cs) =
      record c {
        n_matches = add32 c.n_matches (get_or m i 0);
        n_misses = add32 c.n_misses (get_or s i 0);
      }
      ∷ add_row (suc i) m s cs

  add_node-row :
      (n j i : ℕ) (a b m s : List ℕ) (cs : List (Cluster W))
      → i + length cs ≤ n
      → ((x : ℕ) → x < n → get_or a (j * n + x) 0 ≡ get_or m x 0)
      → ((x : ℕ) → x < n → get_or b (j * n + x) 0 ≡ get_or s x 0)
      → add_node n a b j i cs ≡ add_row i m s cs
  unfolding add_node add_row
  add_node-row n j i a b m s [] h at at' = refl
  add_node-row n j i a b m s (c ∷ cs) h at at' =
      let next : i + 1 ≡ suc i = omega arith in
      rw (at i (omega arith), at' i (omega arith), next)
        (ap
          (λ l.
            record c {
              n_matches = add32 c.n_matches (get_or m i 0);
              n_misses = add32 c.n_misses (get_or s i 0);
            }
            ∷ l)
          (add_node-row n j (suc i) a b m s cs (omega arith) at at'))

  with_totals-row :
      (i : ℕ) (m s : List ℕ) (ms ss : List (List ℕ)) (cs : List (Cluster W))
      → with_totals i ms ss (add_row i m s cs) ≡ with_totals i (m ∷ ms) (s ∷ ss) cs
  unfolding add_row
  with_totals-row i m s ms ss [] = refl
  with_totals-row i m s ms ss (c ∷ cs) =
      rw
        (
          add_mod c.n_matches (get_or m i 0) (column i ms),
          add_mod c.n_misses (get_or s i 0) (column i ss),
          with_totals-row (suc i) m s ms ss cs,
        )
        refl

  add_row-IsWord :
      (i : ℕ) (m s : List ℕ) (cs : List (Cluster W))
      → All IsWord (add_row i m s cs) × (length (add_row i m s cs) ≡ length cs)
  unfolding add_row
  add_row-IsWord i m s [] = (record {}, refl)
  add_row-IsWord i m s (c ∷ cs) =
      let (words, len) = add_row-IsWord (suc i) m s cs in
      (((omega arith, omega arith), words), ap suc len)

  add_nodes-totals :
      (n j : ℕ) (before before' : List ℕ) (ms ss : List (List ℕ)) (cs : List (Cluster W))
      → length cs ≡ n
      → length before ≡ j * n
      → length before' ≡ j * n
      → length ms ≡ length ss
      → AreWide n ms
      → AreWide n ss
      → All IsWord cs
      → add_nodes n (before ++ gather ms) (before' ++ gather ss) (length ms) j cs
        ≡ with_totals 0 ms ss cs
  unfolding add_nodes gather
  add_nodes-totals n j before before' [] [] cs len at at' same wide wide' words =
      sym (with_totals-nil 0 cs words)
  add_nodes-totals n j before before' [] (s ∷ ss) cs len at at' same wide wide' words =
      absurd (omega arith)
  add_nodes-totals n j before before' (m ∷ ms) [] cs len at at' same wide wide' words =
      absurd (omega arith)
  add_nodes-totals n j before before' (m ∷ ms) (s ∷ ss) cs len at at' same (w, ws) (w', ws') words =
      let row = add_row 0 m s cs in
      let (words', len') = add_row-IsWord 0 m s cs in
      let one =
        add_node-row n j 0 (before ++ (m ++ gather ms)) (before' ++ (s ++ gather ss)) m s cs
          (omega arith) (get_or-gather n j before m ms at w)
          (get_or-gather n j before' s ss at' w') in
      let rest =
        add_nodes-totals n (j + 1) (before ++ m) (before' ++ s) ms ss row (len' ∙ len)
          (length-append before m ∙ next_start n j (length before) (length m) at w)
          (length-append before' s ∙ next_start n j (length before') (length s) at' w')
          (omega arith) ws ws' words' in
      let moved =
        ap₂ (λ a b. add_nodes n a b (length ms) (j + 1) row)
          (sym (append_assoc before m (gather ms))) (sym (append_assoc before' s (gather ss))) in
      ap
        (add_nodes n (before ++ (m ++ gather ms)) (before' ++ (s ++ gather ss)) (length ms) (j + 1))
        one
      ∙ moved
      ∙ rest
      ∙ with_totals-row 0 m s ms ss cs

  -- The clusters from the index `i` on, with the sums as their counts, whatever these were before.
  abbrev pub with_sums : ℕ → List (List ℕ) → List (List ℕ) → List (Cluster W) → List (Cluster W)
  with_sums i matches misses [] = []
  with_sums i matches misses (c ∷ cs) =
      record c { n_matches = column i matches % u32_mod; n_misses = column i misses % u32_mod }
      ∷ with_sums (suc i) matches misses cs

  with_totals-cleared :
      (i : ℕ) (matches misses : List (List ℕ)) (cs : List (Cluster W))
      → with_totals i matches misses (map clear_counts cs) ≡ with_sums i matches misses cs
  unfolding clear_counts
  with_totals-cleared i matches misses [] = refl
  with_totals-cleared i matches misses (c ∷ cs) =
      rw
        (
          add_zero (column i matches),
          add_zero (column i misses),
          with_totals-cleared (suc i) matches misses cs,
        )
        refl

  cleared : (cs : List (Cluster W)) → All IsWord (map clear_counts cs)
  unfolding clear_counts
  cleared [] = record {}
  cleared (c ∷ cs) = ((omega arith, omega arith), cleared cs)

  -- If each process gathers as many matches and misses as the model of process 0 has clusters, and there
  -- are as many arrays of the one as of the other, then process 0 ends with its clusters unchanged but
  -- for the counts: those of a cluster, whatever they were, become the sums of what the processes have
  -- counted for it, modulo 2^32.
  pub add_counts-totals :
      (matches misses : List (List ℕ)) (m : Model W)
      → length matches ≡ length misses
      → AreWide (size m) matches
      → AreWide (size m) misses
      → (add_counts matches misses m).clusters ≡ with_sums 0 matches misses m.clusters
  unfolding add_counts
  add_counts-totals matches misses m same wide wide' =
      add_nodes-totals (size m) 0 [] [] matches misses (map clear_counts m.clusters)
        (length-map clear_counts m.clusters) (omega arith) (omega arith) same wide wide'
        (cleared m.clusters)
      ∙ with_totals-cleared 0 matches misses m.clusters

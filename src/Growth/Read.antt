-- ===== src/Growth/Read.antt =====
-- The clusters that are read into the model, with room for each and a next label above theirs.
use minas_flink.Prelude.{
  ltb, ℕ, suc, ◌+◌, ◌%◌, ◌≤◌, ◌-◌, ◌<◌, ◌≡◌, refl, ap, sym, ◌∙◌, Bool, true, false, List, [], ◌∷◌,
  ◌++◌, arith, length, take, All, All-append, leb, u32_mod, inl, inr, subst, ap₂, length-append,
  if◌then◌else◌,
}
use mathlib.Core.List.{append-nil, append_assoc}
use minas_flink.Data.{Cluster, MinasParams, MinasState, size, ok}
use minas_flink.Label.{is_letter, isalpha}
use minas_flink.Growth.{mark, label_after, read_model}
use minas_flink.Growth.Room.{IsStepped, grow-IsStepped, read_line-cases}

-- Every label that is no letter is below the next one.
abbrev pub IsNumbered : {W : Type 0} → ℕ → Cluster W → Type 0
IsNumbered next_label c = is_letter c.label ≡ false → c.label < next_label

label_after-le :
    (beyond : ℕ → Bool) (next_label label : ℕ)
    → label < u32_mod - 1
    → next_label ≤ label_after beyond next_label label
unfolding label_after
label_after-le beyond next_label label h = ground arith

label_after-lt :
    (beyond : ℕ → Bool) (next_label label : ℕ)
    → label < 256
    → is_letter label ≡ false
    → label < label_after beyond next_label label
unfolding label_after isalpha
label_after-lt beyond next_label label h other =
    let small : ltb label 256 ≡ true = ground arith in rw (small, other) (ground arith)

module _ {W : Type 0} (interest : Bool) (params : MinasParams W) where
  -- The clusters that are read into a model of `n` clusters, as they are stored.
  abbrev pub as_read : ℕ → Cluster W → Cluster W
  as_read curr_id c = mark interest curr_id (record c { center = take params.dim c.center })

  abbrev pub all_read : ℕ → ℕ → List (Cluster W) → List (Cluster W)
  all_read curr_id n [] = []
  all_read curr_id n (c ∷ cs) =
      if leb n c.id then as_read curr_id c ∷ all_read curr_id (suc n) cs else all_read curr_id n cs

  module _ (curr_id : ℕ) where
    all_read_skip :
        (n : ℕ) (c : Cluster W) (cs : List (Cluster W))
        → leb n c.id ≡ false
        → all_read curr_id n (c ∷ cs) ≡ all_read curr_id n cs
    all_read_skip n c cs h = rw h refl

    all_read_add :
        (n : ℕ) (c : Cluster W) (cs : List (Cluster W))
        → leb n c.id ≡ true
        → all_read curr_id n (c ∷ cs) ≡ as_read curr_id c ∷ all_read curr_id (suc n) cs
    all_read_add n c cs h = rw h refl

  IsNumbered-mono :
      (n n' : ℕ) (cs : List (Cluster W)) → n ≤ n' → All (IsNumbered n) cs → All (IsNumbered n') cs
  IsNumbered-mono n n' [] le all = tt
  IsNumbered-mono n n' (c ∷ cs) le (h, all) =
      (λ other. omega (arith, h other), IsNumbered-mono n n' cs le all)

  abbrev IsShort : Cluster W → Type 0
  IsShort c = c.label < 256

  -- If `k` is not 0, the clusters and `k` together are below 2^32, each label read is below 256 (so that
  -- `isalpha` is defined for it), the block has room for a multiple of `k` clusters, and the next label is
  -- above every label of the model that is no letter, then the lines 'C' are read one after the other and
  -- none of them is written past the end of the block. The block then has room for a multiple of `k`
  -- again, the model holds its old clusters and behind them, in order, those with an id that was not
  -- below the number of clusters when their line came, and the next label is above every label of the
  -- model that is no letter.
  pub read_model-IsStepped :
      (beyond : ℕ → Bool) (cs : List (Cluster W)) (s : MinasState W)
      → 0 < params.k
      → size s.model + length cs + params.k < u32_mod
      → All IsShort cs
      → IsStepped params.k s.model
      → All (IsNumbered s.next_label) s.model.clusters
      → (s' : MinasState W) × (read_model beyond interest params s cs ≡ ok s')
        × (s'.model.clusters ≡ s.model.clusters ++ all_read s.curr_id (size s.model) cs)
        × IsStepped params.k s'.model
        × All (IsNumbered s'.next_label) s'.model.clusters
  unfolding read_model mark
  read_model-IsStepped beyond [] s pos small short stepped numbered =
      (s, refl, sym (append-nil s.model.clusters), stepped, numbered)
  read_model-IsStepped beyond (c ∷ cs) s pos small (short, shorts) stepped numbered =
      let (grown, room) = grow-IsStepped params.k s.model pos (omega arith) stepped in
      elim (read_line-cases beyond params interest s c pos room) [
        | inl (known, run) ↦
            let (s', run', clusters', stepped', numbered') =
              read_model-IsStepped beyond cs s pos (omega arith) shorts stepped numbered in
            let skip = all_read_skip s.curr_id (size s.model) c cs known in
            (
              s',
              rw run run',
              clusters' ∙ ap (λ l. s.model.clusters ++ l) (sym skip),
              stepped',
              numbered',
            )
        | inr (s₁, new, run, clusters, room₁, next, curr) ↦
            let x = as_read s.curr_id c in
            let size₁ : size s₁.model ≡ suc (size s.model) =
              ap length clusters ∙ length-append s.model.clusters (x ∷ []) ∙ omega arith in
            let stepped₁ : IsStepped params.k s₁.model = record {
              stepped = ap (λ n. n % params.k) room₁ ∙ grown.stepped;
              started = omega (arith, grown.started);
              fits = omega arith;
            } in
            let up =
              IsNumbered-mono s.next_label s₁.next_label s.model.clusters
                (rw next (label_after-le beyond s.next_label c.label (omega arith))) numbered in
            let numbered₁ : All (IsNumbered s₁.next_label) s₁.model.clusters =
              subst (All (IsNumbered s₁.next_label)) (sym clusters) (
                All-append (IsNumbered s₁.next_label) s.model.clusters (x ∷ []) up (
                  λ other. rw next (label_after-lt beyond s.next_label c.label short other),
                  tt,
                )) in
            let (s', run', clusters', stepped', numbered') =
              read_model-IsStepped beyond cs s₁ pos (omega arith) shorts stepped₁ numbered₁ in
            let rest : all_read s₁.curr_id (size s₁.model) cs
                ≡ all_read s.curr_id (suc (size s.model)) cs =
              ap₂ (λ i n. all_read i n cs) curr size₁ in
            (
              s',
              rw run run',
              clusters'
                  ∙ ap₂ ◌++◌ clusters rest
                  ∙ append_assoc s.model.clusters (x ∷ [])
                      (all_read s.curr_id (suc (size s.model)) cs)
                  ∙ ap (λ l. s.model.clusters ++ l)
                      (sym (all_read_add s.curr_id (size s.model) c cs new)),
              stepped',
              numbered',
            )
      ]

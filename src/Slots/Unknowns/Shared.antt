-- ===== src/Slots/Unknowns/Shared.antt =====
-- After the buffer is compressed, two entries point to one block.
use minas_flink.Prelude.{
  ℕ, suc, ◌+◌, ◌-◌, ◌≡◌, refl, ap, ap₂, ◌∙◌, sym, some, Bool, true, false, List, [], ◌∷◌, ◌++◌,
  arith, length, ltb, modify, get_elem?, get_elem?-append, modify-append, get_elem?-modify_ne, ◌<◌,
  length-append, All,
}
use mathlib.Core.List.{append_assoc}
use minas_flink.Slots.Unknowns.{Stored, Unknowns, swap_in, pack, pack_unknowns}

-- The last of the entries.
abbrev pub last_of : Stored → List Stored → Stored
last_of y [] = y
last_of y (z ∷ zs) = last_of z zs

module _ (kept : Stored → Bool) where
  pack-end : (ex gone : ℕ) (entries : List Stored) → pack kept 0 ex gone entries ≡ (entries, gone)
  unfolding pack
  pack-end ex gone entries = refl

  abbrev pub AreKept : List Stored → Type 0
  AreKept = All λ e. kept e ≡ true

  pack_kept :
      (left ex gone : ℕ) (entries : List Stored) (e : Stored)
      → get_elem? entries ex ≡ some e
      → kept e ≡ true
      → pack kept (suc left) ex gone entries
        ≡ pack kept left (ex + 1) gone (modify entries (ex - gone) (λ _. e))
  unfolding pack
  pack_kept left ex gone entries e at k = rw (pack, at, k) refl

  pack_gone :
      (left ex gone : ℕ) (entries : List Stored) (e : Stored)
      → get_elem? entries ex ≡ some e
      → kept e ≡ false
      → pack kept (suc left) ex gone entries
        ≡ pack kept left (ex + 1) (gone + 1) (modify entries (ex - gone) (λ _. e))
  unfolding pack
  pack_gone left ex gone entries e at k = rw (pack, at, k) refl

  -- The entry behind the one taken out is copied to the place before it.
  shift_step :
      (left n : ℕ) (p : List Stored) (z y : Stored) (r : List Stored)
      → n ≡ length p
      → kept y ≡ true
      → pack kept (suc left) (n + 1) 1 (p ++ (z ∷ (y ∷ r)))
        ≡ pack kept left (n + 2) 1 (p ++ (y ∷ (y ∷ r)))
  shift_step left n p z y r e k =
      let at : get_elem? (p ++ (z ∷ (y ∷ r))) (n + 1) ≡ some y =
        ap (λ l. get_elem? l (n + 1)) (sym (append_assoc p (z ∷ []) (y ∷ r)))
        ∙ get_elem?-append (p ++ (z ∷ [])) y r (n + 1) (rw length-append (omega (arith, e))) in
      pack_kept left (n + 1) 1 (p ++ (z ∷ (y ∷ r))) y at k
      ∙ ap₂ (λ i l. pack kept left i 1 l) (omega arith)
          (modify-append p z (y ∷ r) (n + 1 - 1) (λ _. y) (omega (arith, e)))

  -- With one entry taken out, each later one is copied to the place before it, and the last one stays
  -- behind as well.
  pack-shifted :
      (p : List Stored) (z y : Stored) (ys rest : List Stored) (n : ℕ)
      → n ≡ length p
      → kept y ≡ true
      → AreKept ys
      → pack kept (suc (length ys)) (n + 1) 1 (p ++ (z ∷ (y ∷ (ys ++ rest))))
        ≡ (p ++ (y ∷ (ys ++ (last_of y ys ∷ rest))), 1)
  pack-shifted p z y [] rest n e k ks = shift_step 0 n p z y rest e k ∙ pack-end (n + 2) 1 _
  pack-shifted p z y (x ∷ ys) rest n e k (kx, ks) =
      shift_step (suc (length ys)) n p z y (x ∷ (ys ++ rest)) e k
      ∙ ap₂ (λ i l. pack kept (suc (length ys)) i 1 l) (omega arith)
          (sym (append_assoc p (y ∷ []) (y ∷ (x ∷ (ys ++ rest)))))
      ∙ pack-shifted (p ++ (y ∷ [])) y x ys rest (n + 1) (rw length-append (omega (arith, e))) kx ks
      ∙ ap (λ l. (l, 1)) (append_assoc p (y ∷ []) (x ∷ (ys ++ (last_of x ys ∷ rest))))

  -- As long as no entry is taken out, each is copied to its own place.
  pack-same :
      (p before : List Stored) (r : List Stored) (left n : ℕ)
      → n ≡ length p
      → AreKept before
      → pack kept (length before + left) n 0 (p ++ (before ++ r))
        ≡ pack kept left (n + length before) 0 (p ++ (before ++ r))
  pack-same p [] r left n e ks = ap₂ (λ l i. pack kept l i 0 (p ++ r)) (omega arith) (omega arith)
  pack-same p (x ∷ before) r left n e (k, ks) =
      let count : suc (length before) + left ≡ suc (length before + left) = omega arith in
      ap (λ i. pack kept i n 0 (p ++ (x ∷ (before ++ r)))) count
      ∙ pack_kept (length before + left) n 0 (p ++ (x ∷ (before ++ r))) x
          (get_elem?-append p x (before ++ r) n e) k
      ∙ ap (λ l. pack kept (length before + left) (n + 1) 0 l)
          (modify-append p x (before ++ r) (n - 0) (λ _. x) (omega (arith, e))
            ∙ sym (append_assoc p (x ∷ []) (before ++ r)))
      ∙ pack-same (p ++ (x ∷ [])) before r left (n + 1) (rw length-append (omega (arith, e))) ks
      ∙ ap₂ (λ i l. pack kept left i 0 l) (omega arith) (append_assoc p (x ∷ []) (before ++ r))

  -- The tests take out one entry and keep the others, of which at least one stands behind it.
  pack-one :
      (before : List Stored) (x y : Stored) (after rest : List Stored)
      → AreKept before
      → kept x ≡ false
      → kept y ≡ true
      → AreKept after
      → pack kept
          (length before + suc (suc (length after)))
          0
          0
          (before ++ (x ∷ (y ∷ (after ++ rest))))
        ≡ (before ++ (y ∷ (after ++ (last_of y after ∷ rest))), 1)
  pack-one before x y after rest ks gone k ks' =
      let n = length before in
      let r = y ∷ (after ++ rest) in
      let start : 0 + n ≡ n = omega arith in
      pack-same [] before (x ∷ r) (suc (suc (length after))) 0 refl ks
      ∙ ap (λ i. pack kept (suc (suc (length after))) i 0 (before ++ (x ∷ r))) start
      ∙ pack_gone (suc (length after)) n 0 (before ++ (x ∷ r)) x
          (get_elem?-append before x r n refl) gone
      ∙ ap₂ (λ i l. pack kept (suc (length after)) i 1 l) refl
          (modify-append before x r (n - 0) (λ _. x) (omega arith))
      ∙ pack-shifted before x y after rest n refl k ks'

get_elem?-last_of :
    (y : Stored) (ys r : List Stored) → get_elem? (y ∷ (ys ++ r)) (length ys) ≡ some (last_of y ys)
get_elem?-last_of y [] r = refl
get_elem?-last_of y (z ∷ zs) r = get_elem?-last_of z zs r

get_elem?-behind :
    (p zs : List Stored) (j : ℕ) → get_elem? (p ++ zs) (length p + j) ≡ get_elem? zs j
get_elem?-behind [] zs j = let e : 0 + j ≡ j = omega arith in ap (get_elem? zs) e
get_elem?-behind (x ∷ p) zs j =
    let e : suc (length p) + j ≡ suc (length p + j) = omega arith in
    ap (get_elem? (x ∷ (p ++ zs))) e ∙ get_elem?-behind p zs j

swap_in-at :
    (u : Unknowns) (e old : Stored)
    → get_elem? u.entries u.used ≡ some old
    → u.used + 1 < length u.entries
    → swap_in u e
      ≡ some (
        record { entries = modify u.entries u.used (λ _. e); used = u.used + 1 },
        record e { val = old.val },
      )
unfolding swap_in
swap_in-at u e old at room =
    let below : ltb (u.used + 1) (length u.entries) ≡ true = ground (arith, room) in
    rw (swap_in, at, below) refl

pack_unknowns-pack :
    (kept : Stored → Bool) (u : Unknowns) (entries : List Stored) (gone : ℕ)
    → pack kept u.used 0 0 u.entries ≡ (entries, gone)
    → pack_unknowns kept u ≡ record { entries = entries; used = u.used - gone }
unfolding pack_unknowns
pack_unknowns-pack kept u entries gone e = ap (λ q. record { entries = q.0; used = u.used - q.1 }) e

-- The slot of the example that is taken in, and an entry before it, point to one block.
pub record IsShared (u : Unknowns) (slot : Stored) : Type 0 where
  pub index : ℕ
  pub entry : Stored
  pub at : get_elem? u.entries index ≡ some entry
  pub in_use : index < u.used
  pub shared : slot.val ≡ entry.val

-- If the tests take out just one of the examples in the buffer, and not the last one, and the buffer has
-- an entry more than these, then the next unknown example is taken in, but its slot gets a block to which
-- an example that the buffer holds still points.
pub pack_unknowns-IsShared :
    (kept : Stored → Bool) (before : List Stored) (x y : Stored) (after rest : List Stored)
    (slot : Stored)
    → AreKept kept before
    → kept x ≡ false
    → kept y ≡ true
    → AreKept kept after
    → 0 < length rest
    → (u : Unknowns) × (slot' : Stored) × (swap_in
          (pack_unknowns kept (record {
            entries = before ++ (x ∷ (y ∷ (after ++ rest)));
            used = length before + suc (suc (length after));
          }))
          slot
        ≡ some (u, slot'))
      × IsShared u slot'
pack_unknowns-IsShared kept before x y after rest slot ks gone k ks' more =
    let last = last_of y after in
    let entries = before ++ (y ∷ (after ++ (last ∷ rest))) in
    let used = length before + suc (suc (length after)) - 1 in
    let full : Unknowns = record {
      entries = before ++ (x ∷ (y ∷ (after ++ rest)));
      used = length before + suc (suc (length after));
    } in
    let packed = pack-one kept before x y after rest ks gone k ks' in
    let place : used ≡ length before + suc (length after) = omega arith in
    let free : get_elem? entries used ≡ some last =
      ap (get_elem? entries) place
      ∙ get_elem?-behind before (y ∷ (after ++ (last ∷ rest))) (suc (length after))
      ∙ get_elem?-append after last rest (length after) refl in
    let room : used + 1 < length entries =
      rw (length-append, length-append) (omega (arith, more)) in
    let held : get_elem? entries (length before + length after) ≡ some last =
      get_elem?-behind before (y ∷ (after ++ (last ∷ rest))) (length after)
      ∙ get_elem?-last_of y after (last ∷ rest) in
    (
      record { entries = modify entries used (λ _. slot); used = used + 1 },
      record slot { val = last.val },
      ap (λ v. swap_in v slot) (pack_unknowns-pack kept full entries 1 packed)
          ∙ swap_in-at (record { entries = entries; used = used }) slot last free room,
      record {
        index = length before + length after;
        entry = last;
        at =
            get_elem?-modify_ne entries used (length before + length after) (λ _. slot)
              (λ e. omega (arith, e))
            ∙ held;
        in_use = omega arith;
        shared = refl;
      },
    )

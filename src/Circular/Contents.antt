-- ===== src/Circular/Contents.antt =====
-- The pointers that wait in the ring, from the tail on, and what the operations do to them.
use native.Mathlib.Decide.{ℕ_discrete}
use native.Mathlib.Nat.{mod-eq_of_lt, mod_self}
use minas_flink.Prelude.{
  get_elem?-in, ℕ, zero, suc, ◌+◌, ◌-◌, ◌%◌, ◌≤◌, ◌<◌, ◌≡◌, ◌≢◌, refl, ap, sym, ◌∙◌, subst, true,
  false, List, [], ◌∷◌, ◌++◌, Option, none, some, arith, length, get_elem?, modify, length-modify,
  get_elem?-modify, get_elem?-modify_ne, leb, ◌==◌, if◌then◌else◌,
}
use minas_flink.Circular.{
  Ring, next_index, is_buffer_full, is_buffer_empty, try_enqueue, try_dequeue,
}

next_index-eq : (size i : ℕ) → i < size → next_index size i ≡ (if suc i == size then 0 else suc i)
next_index-eq size i h = elim (ℕ_discrete (suc i) size) [
  | yes e ↦
      let last : suc i == size ≡ true = ground arith in
      let same : i + 1 ≡ size = omega arith in
      rw last (subst (λ n. (i + 1) % n ≡ 0) same (mod_self (i + 1)))
  | no ne ↦
      let inside : suc i == size ≡ false = ground arith in
      rw inside (mod-eq_of_lt {n = i + 1} {m = size} (omega arith) ∙ omega arith)
]

-- The steps from one index to another.
abbrev pub steps : ℕ → ℕ → ℕ → ℕ
steps size from to = if leb from to then to - from else to + size - from

steps-next :
    (size i h n : ℕ)
    → i < size
    → h < size
    → steps size i h ≡ suc n
    → (next_index size i < size) × (steps size (next_index size i) h ≡ n)
steps-next size i h n hi hh e = rw (next_index-eq size i hi) (ground arith)

steps-next_head :
    (size i h : ℕ)
    → i < size
    → h < size
    → next_index size h ≢ i
    → (next_index size h < size) × (steps size i (next_index size h) ≡ suc (steps size i h))
steps-next_head size i h hi hh ne =
    let e = next_index-eq size h hh in
    let ne' : (if suc h == size then 0 else suc h) ≢ i = subst (λ n. n ≢ i) e ne in
    rw e (ground arith)

steps-around : (size i : ℕ) → i < size → steps size (next_index size i) i + 1 ≡ size
steps-around size i hi = rw (next_index-eq size i hi) (ground arith)

module _ {A : Type 0} where
  abbrev pub with_first : Option A → List A → List A
  with_first none xs = xs
  with_first (some x) xs = x ∷ xs

  -- The pointers at `n` indices from `i` on.
  abbrev pub read : List A → ℕ → ℕ → ℕ → List A
  read slots size i zero = []
  read slots size i (suc n) = with_first (get_elem? slots i) (read slots size (next_index size i) n)

  abbrev pub contents : Ring A → List A
  contents r = read r.slots r.size r.tail (steps r.size r.tail r.head)

  pub record IsRing (r : Ring A) : Type 0 where
    pub room : length r.slots ≡ r.size
    pub head_in : r.head < r.size
    pub tail_in : r.tail < r.size

  -- A write to an index that is not among them changes none.
  read-modify :
      (slots : List A) (size i j n : ℕ) (x : A)
      → i < size
      → j < size
      → n ≤ steps size i j
      → read (modify slots j (λ _. x)) size i n ≡ read slots size i n
  read-modify slots size i j zero x hi hj le = refl
  read-modify slots size i j (suc n) x hi hj le =
      let m = steps size i j - 1 in
      let more : steps size i j ≡ suc m = omega arith in
      let (hi', e') = steps-next size i j m hi hj more in
      let ne : j ≢ i = λ same. ground arith in
      let rest = read-modify slots size (next_index size i) j n x hi' hj (omega arith) in
      rw (get_elem?-modify_ne slots j i (λ _. x) ne) (ap (with_first (get_elem? slots i)) rest)

  -- What is written there is then the last.
  read-last :
      (slots : List A) (size i h n : ℕ) (x : A)
      → length slots ≡ size
      → i < size
      → h < size
      → steps size i h ≡ n
      → read (modify slots h (λ _. x)) size i (suc n) ≡ read slots size i n ++ (x ∷ [])
  read-last slots size i h zero x len hi hh e =
      let here : h ≡ i = ground arith in
      let (y, at) = get_elem?-in slots h (omega arith) in
      rw (← here, get_elem?-modify slots h (λ _. x) at) refl
  read-last slots size i h (suc n) x len hi hh e =
      let (hi', e') = steps-next size i h n hi hh e in
      let ne : h ≢ i = λ same. ground arith in
      let rest = read-last slots size (next_index size i) h n x len hi' hh e' in
      let (y, at) = get_elem?-in slots i (omega arith) in
      rw (get_elem?-modify_ne slots h i (λ _. x) ne ∙ at, at) (ap (λ l. y ∷ l) rest)

  -- How many pointers wait.
  abbrev pub count : Ring A → ℕ
  count r = steps r.size r.tail r.head

  length-read :
      (slots : List A) (size i n : ℕ)
      → length slots ≡ size
      → i < size
      → length (read slots size i n) ≡ n
  length-read slots size i zero len hi = refl
  length-read slots size i (suc n) len hi =
      let (y, at) = get_elem?-in slots i (omega arith) in
      let inside : next_index size i < size = rw (next_index-eq size i hi) (ground arith) in
      rw at (ap suc (length-read slots size (next_index size i) n len inside))

  pub length-contents : (r : Ring A) → IsRing r → length (contents r) ≡ count r
  length-contents r v = length-read r.slots r.size r.tail (count r) v.room v.tail_in

  pub count-lt : (r : Ring A) → IsRing r → count r < r.size
  count-lt r v = ground (arith, v.head_in, v.tail_in)

  pub full-count : (r : Ring A) → IsRing r → (is_buffer_full r ≡ true) → count r + 1 ≡ r.size
  full-count r v full =
      let e = next_index-eq r.size r.head v.head_in in
      let same : next_index r.size r.head ≡ r.tail = ground arith in
      let here : (if suc r.head == r.size then 0 else suc r.head) ≡ r.tail = sym e ∙ same in
      ground (arith, v.head_in, v.tail_in)

  pub empty-count : (r : Ring A) → IsRing r → (is_buffer_empty r ≡ true) → count r ≡ 0
  empty-count r v empty = ground (arith, v.head_in, v.tail_in)

  -- A pointer that is put into a ring that is not full waits behind the others.
  pub try_enqueue-contents :
      (r : Ring A) (x : A)
      → IsRing r
      → is_buffer_full r ≡ false
      → (r' : Ring A) × (y : A) × (try_enqueue r x ≡ some (r', some y))
        × IsRing r'
        × (contents r' ≡ contents r ++ (x ∷ []))
        × (count r' ≡ count r + 1)
        × (r'.size ≡ r.size)
  unfolding try_enqueue
  try_enqueue-contents r x v free =
      let other : next_index r.size r.head ≢ r.tail = λ same. ground arith in
      let (head_in, more) = steps-next_head r.size r.tail r.head v.tail_in v.head_in other in
      let (y, at) = get_elem?-in r.slots r.head (omega (arith, v.head_in, v.room)) in
      let slots' = modify r.slots r.head (λ _. x) in
      let last =
        read-last r.slots r.size r.tail r.head (count r) x v.room v.tail_in v.head_in refl in
      (
        record r { slots = slots'; head = next_index r.size r.head },
        y,
        rw (free, at) refl,
        record {
          room = length-modify r.slots r.head (λ _. x) ∙ v.room;
          head_in = head_in;
          tail_in = v.tail_in;
        },
        rw more last,
        more ∙ omega arith,
        refl,
      )

  -- A pointer is taken out of a ring that is not empty from the front.
  pub try_dequeue-contents :
      (r : Ring A) (x : A)
      → IsRing r
      → is_buffer_empty r ≡ false
      → (r' : Ring A) × (y : A) × (try_dequeue r x ≡ some (r', some y))
        × IsRing r'
        × (contents r ≡ y ∷ contents r')
        × (count r ≡ count r' + 1)
        × (r'.size ≡ r.size)
  unfolding try_dequeue
  try_dequeue-contents r x v some_waits =
      let n = count r - 1 in
      let more : count r ≡ suc n = ground (arith, v.head_in, v.tail_in) in
      let (tail_in, fewer) = steps-next r.size r.tail r.head n v.tail_in v.head_in more in
      let (y, at) = get_elem?-in r.slots r.tail (omega (arith, v.tail_in, v.room)) in
      let slots' = modify r.slots r.tail (λ _. x) in
      let tail' = next_index r.size r.tail in
      let below : count r < r.size = ground (arith, v.head_in, v.tail_in) in
      let around = steps-around r.size r.tail v.tail_in in
      let kept : read slots' r.size tail' n ≡ read r.slots r.size tail' n =
        read-modify r.slots r.size tail' r.tail n x tail_in v.tail_in (omega arith) in
      let first : read r.slots r.size r.tail (suc n) ≡ y ∷ read r.slots r.size tail' n =
        rw at refl in
      (
        record r { slots = slots'; tail = tail' },
        y,
        rw (some_waits, at) refl,
        record {
          room = length-modify r.slots r.tail (λ _. x) ∙ v.room;
          head_in = v.head_in;
          tail_in = tail_in;
        },
        ap (read r.slots r.size r.tail) more
            ∙ first
            ∙ ap (λ l. y ∷ l) (sym kept ∙ ap (read slots' r.size tail') (sym fewer)),
        more ∙ omega arith,
        refl,
      )

  pub try_enqueue-full : (r : Ring A) (x : A) → is_buffer_full r ≡ true → try_enqueue r x ≡ none
  unfolding try_enqueue
  try_enqueue-full r x full = rw full refl

  pub try_dequeue-empty : (r : Ring A) (x : A) → is_buffer_empty r ≡ true → try_dequeue r x ≡ none
  unfolding try_dequeue
  try_dequeue-empty r x empty = rw empty refl

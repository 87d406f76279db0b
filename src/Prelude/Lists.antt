-- ===== src/Prelude/Lists.antt =====
-- Lists measured and indexed by native numbers, under the library's names.
use Prim.Native.Nat.{ℕ, zero, suc, ◌+◌, ◌-◌, ◌≤◌, ◌<◌}
use mathlib.Core.Path.{◌≡◌, refl, ap, ap₂, subst}
use mathlib.Core.Logic.{◌≢◌}
use mathlib.Core.Bool.{Bool}
use mathlib.Core.List.{List, [], ◌∷◌, ◌++◌, map}
use mathlib.Core.Option.{Option, none, some, some-injective}
use native.Mathlib.Omega.{arith}
use minas_flink.Prelude.Tests.{if◌then◌else◌}

-- Lists over any type.
module _ {ℓ} {A : Type ℓ} where
  abbrev pub length : List A → ℕ
  length [] = 0
  length (x ∷ xs) = suc (length xs)

  abbrev pub get_elem? : List A → ℕ → Option A
  get_elem? [] i = none
  get_elem? (x ∷ xs) zero = some x
  get_elem? (x ∷ xs) (suc i) = get_elem? xs i

  -- `f` applied to the element at an index; out of bounds it changes nothing.
  abbrev pub modify : List A → ℕ → (A → A) → List A
  modify [] i f = []
  modify (x ∷ xs) zero f = f x ∷ xs
  modify (x ∷ xs) (suc i) f = x ∷ modify xs i f

  abbrev pub drop : ℕ → List A → List A
  drop zero xs = xs
  drop (suc n) [] = []
  drop (suc n) (x ∷ xs) = drop n xs

  abbrev pub take : ℕ → List A → List A
  take zero xs = []
  take (suc n) [] = []
  take (suc n) (x ∷ xs) = x ∷ take n xs

  abbrev pub get_or : List A → ℕ → A → A
  get_or [] i d = d
  get_or (x ∷ xs) zero d = x
  get_or (x ∷ xs) (suc i) d = get_or xs i d

  -- How many elements pass the test, and those that do.
  abbrev pub count_if : (A → Bool) → List A → ℕ
  count_if p [] = 0
  count_if p (x ∷ xs) = (if p x then 1 else 0) + count_if p xs

  abbrev pub filter_if : (A → Bool) → List A → List A
  filter_if p [] = []
  filter_if p (x ∷ xs) = if p x then x ∷ filter_if p xs else filter_if p xs

  abbrev pub sum_of : (A → ℕ) → List A → ℕ
  sum_of f [] = 0
  sum_of f (x ∷ xs) = f x + sum_of f xs

  abbrev pub All {κ} : (A → Type κ) → List A → Type κ
  All P [] = Unit
  All P (x ∷ xs) = P x × All P xs

  pub length-append : (xs ys : List A) → length (xs ++ ys) ≡ length xs + length ys
  length-append [] ys = omega arith
  length-append (x ∷ xs) ys = omega (arith, length-append xs ys)

  pub length-filter_if : (p : A → Bool) (xs : List A) → length (filter_if p xs) ≡ count_if p xs
  length-filter_if p [] = refl
  length-filter_if p (x ∷ xs) = ground (arith, length-filter_if p xs)

  pub count_if-le : (p : A → Bool) (xs : List A) → count_if p xs ≤ length xs
  count_if-le p [] = omega arith
  count_if-le p (x ∷ xs) = ground (arith, count_if-le p xs)

  pub length-modify : (xs : List A) (i : ℕ) (f : A → A) → length (modify xs i f) ≡ length xs
  length-modify [] i f = refl
  length-modify (x ∷ xs) zero f = refl
  length-modify (x ∷ xs) (suc i) f = ap suc (length-modify xs i f)

  pub All-mono {κ κ'} :
      (P : A → Type κ) (Q : A → Type κ') (xs : List A) → ((x : A) → P x → Q x) → All P xs → All Q xs
  All-mono P Q [] h all = tt
  All-mono P Q (x ∷ xs) h (p, ps) = (h x p, All-mono P Q xs h ps)

  pub All-mono₂ {κ κ' κ''} :
      (P : A → Type κ) (Q : A → Type κ') (R : A → Type κ'') (xs : List A)
      → ((x : A) → P x → Q x → R x)
      → All P xs
      → All Q xs
      → All R xs
  All-mono₂ P Q R [] h all all' = tt
  All-mono₂ P Q R (x ∷ xs) h (p, ps) (q, qs) = (h x p q, All-mono₂ P Q R xs h ps qs)

  pub All-modify {κ} :
      (P : A → Type κ) (xs : List A) (i : ℕ) (f : A → A)
      → ((x : A) → P x → P (f x))
      → All P xs
      → All P (modify xs i f)
  All-modify P [] i f h all = tt
  All-modify P (x ∷ xs) zero f h (p, ps) = (h x p, ps)
  All-modify P (x ∷ xs) (suc i) f h (p, ps) = (p, All-modify P xs i f h ps)

  -- The parts of a list around one of its elements.
  pub All-split {κ} :
      (P : A → Type κ) (xs : List A) (y : A) (ys : List A)
      → All P (xs ++ (y ∷ ys))
      → P y × All P (xs ++ ys) × ((z : A) → P z → All P (xs ++ (z ∷ ys)))
  All-split P [] y ys (p, ps) = (p, ps, λ z q. (q, ps))
  All-split P (x ∷ xs) y ys (p, ps) =
      let (q, rest, put) = All-split P xs y ys ps in (q, (p, rest), λ z r. (p, put z r))

  pub All-append {κ} : (P : A → Type κ) (xs ys : List A) → All P xs → All P ys → All P (xs ++ ys)
  All-append P [] ys p q = q
  All-append P (x ∷ xs) ys (p, ps) q = (p, All-append P xs ys ps q)

  pub All-get_elem? {κ} :
      (P : A → Type κ) (xs : List A) (i : ℕ) {x : A} → All P xs → get_elem? xs i ≡ some x → P x
  All-get_elem? P [] i p e = cc
  All-get_elem? P (y ∷ xs) zero p e = subst P (some-injective _ _ e) p.0
  All-get_elem? P (y ∷ xs) (suc i) p e = All-get_elem? P xs i p.1 e

  pub sum_of-modify :
      (f : A → ℕ) (xs : List A) (i : ℕ) (g : A → A) {x : A}
      → get_elem? xs i ≡ some x
      → sum_of f (modify xs i g) + f x ≡ sum_of f xs + f (g x)
  sum_of-modify f [] i g e = cc
  sum_of-modify f (y ∷ xs) zero g {x} e =
      subst (λ z. sum_of f (g y ∷ xs) + f z ≡ sum_of f (y ∷ xs) + f (g z)) (some-injective _ _ e)
        (omega arith)
  sum_of-modify f (y ∷ xs) (suc i) g e = omega (arith, sum_of-modify f xs i g e)

  pub le-sum_of :
      (f : A → ℕ) (xs : List A) (i : ℕ) {x : A} → get_elem? xs i ≡ some x → f x ≤ sum_of f xs
  le-sum_of f [] i e = cc
  le-sum_of f (y ∷ xs) zero e =
      subst (λ z. f z ≤ sum_of f (y ∷ xs)) (some-injective _ _ e) (omega arith)
  le-sum_of f (y ∷ xs) (suc i) e = omega (arith, le-sum_of f xs i e)

  pub get_elem?-modify :
      (xs : List A) (i : ℕ) (g : A → A) {x : A}
      → get_elem? xs i ≡ some x
      → get_elem? (modify xs i g) i ≡ some (g x)
  get_elem?-modify [] i g e = cc
  get_elem?-modify (y ∷ xs) zero g e = ap (λ z. some (g z)) (some-injective _ _ e)
  get_elem?-modify (y ∷ xs) (suc i) g e = get_elem?-modify xs i g e

  pub get_elem?-modify_ne :
      (xs : List A) (i j : ℕ) (f : A → A) → i ≢ j → get_elem? (modify xs i f) j ≡ get_elem? xs j
  get_elem?-modify_ne [] i j f h = refl
  get_elem?-modify_ne (x ∷ xs) zero zero f h = absurd (h refl)
  get_elem?-modify_ne (x ∷ xs) zero (suc j) f h = refl
  get_elem?-modify_ne (x ∷ xs) (suc i) zero f h = refl
  get_elem?-modify_ne (x ∷ xs) (suc i) (suc j) f h =
      get_elem?-modify_ne xs i j f (λ e. h (ap suc e))

  pub length-take : (n : ℕ) (xs : List A) → n ≤ length xs → length (take n xs) ≡ n
  length-take zero xs h = refl
  length-take (suc n) [] h = absurd (omega arith)
  length-take (suc n) (x ∷ xs) h = ap suc (length-take n xs (omega arith))

  pub take-append-drop : (n : ℕ) (xs : List A) → take n xs ++ drop n xs ≡ xs
  take-append-drop zero xs = refl
  take-append-drop (suc n) [] = refl
  take-append-drop (suc n) (x ∷ xs) = ap (λ l. x ∷ l) (take-append-drop n xs)

  pub take-append : (xs ys : List A) (n : ℕ) → n ≡ length xs → take n (xs ++ ys) ≡ xs
  take-append [] ys zero e = refl
  take-append [] ys (suc n) e = absurd (omega arith)
  take-append (x ∷ xs) ys zero e = absurd (omega arith)
  take-append (x ∷ xs) ys (suc n) e = ap (λ l. x ∷ l) (take-append xs ys n (omega arith))

  pub drop-append : (xs ys : List A) (n : ℕ) → n ≡ length xs → drop n (xs ++ ys) ≡ ys
  drop-append [] ys zero e = refl
  drop-append [] ys (suc n) e = absurd (omega arith)
  drop-append (x ∷ xs) ys zero e = absurd (omega arith)
  drop-append (x ∷ xs) ys (suc n) e = drop-append xs ys n (omega arith)

  pub take_all : (xs : List A) (n : ℕ) → n ≡ length xs → take n xs ≡ xs
  take_all [] zero e = refl
  take_all [] (suc n) e = refl
  take_all (x ∷ xs) zero e = absurd (omega arith)
  take_all (x ∷ xs) (suc n) e = ap (λ l. x ∷ l) (take_all xs n (omega arith))

  -- The element behind a prefix.
  pub length-drop : (n : ℕ) (xs : List A) → length (drop n xs) ≡ length xs - n
  length-drop zero xs = omega arith
  length-drop (suc n) [] = omega arith
  length-drop (suc n) (x ∷ xs) = omega (arith, length-drop n xs)

  pub get_elem?-in : (xs : List A) (i : ℕ) → i < length xs → (x : A) × (get_elem? xs i ≡ some x)
  get_elem?-in [] i h = absurd (omega arith)
  get_elem?-in (x ∷ xs) zero h = (x, refl)
  get_elem?-in (x ∷ xs) (suc i) h = get_elem?-in xs i (omega arith)

  pub get_elem?-lt : (xs : List A) (i : ℕ) {x : A} → get_elem? xs i ≡ some x → i < length xs
  get_elem?-lt [] i e = cc e
  get_elem?-lt (y ∷ xs) zero e = omega arith
  get_elem?-lt (y ∷ xs) (suc i) e = omega (arith, get_elem?-lt xs i e)

  pub get_elem?-past : (xs : List A) (i : ℕ) → length xs ≤ i → get_elem? xs i ≡ none
  get_elem?-past [] i h = refl
  get_elem?-past (x ∷ xs) zero h = absurd (omega arith)
  get_elem?-past (x ∷ xs) (suc i) h = get_elem?-past xs i (omega arith)

  pub get_elem?-append :
      (xs : List A) (y : A) (ys : List A) (n : ℕ)
      → n ≡ length xs
      → get_elem? (xs ++ (y ∷ ys)) n ≡ some y
  get_elem?-append [] y ys zero e = refl
  get_elem?-append [] y ys (suc n) e = absurd (omega arith)
  get_elem?-append (x ∷ xs) y ys zero e = absurd (omega arith)
  get_elem?-append (x ∷ xs) y ys (suc n) e = get_elem?-append xs y ys n (omega arith)

  pub modify-append :
      (xs : List A) (y : A) (ys : List A) (n : ℕ) (f : A → A)
      → n ≡ length xs
      → modify (xs ++ (y ∷ ys)) n f ≡ xs ++ (f y ∷ ys)
  modify-append [] y ys zero f e = refl
  modify-append [] y ys (suc n) f e = absurd (omega arith)
  modify-append (x ∷ xs) y ys zero f e = absurd (omega arith)
  modify-append (x ∷ xs) y ys (suc n) f e =
      ap (λ l. x ∷ l) (modify-append xs y ys n f (omega arith))

  pub map-modify {κ} :
      {B : Type κ} (f : A → B) (g : A → A) (xs : List A) (i : ℕ)
      → ((x : A) → f (g x) ≡ f x)
      → map f (modify xs i g) ≡ map f xs
  map-modify f g [] i h = refl
  map-modify f g (x ∷ xs) zero h = ap (λ y. y ∷ map f xs) (h x)
  map-modify f g (x ∷ xs) (suc i) h = ap (λ l. f x ∷ l) (map-modify f g xs i h)

  pub map-map_same {κ} :
      {B : Type κ} (f : A → B) (g : A → A) (xs : List A)
      → ((x : A) → f (g x) ≡ f x)
      → map f (map g xs) ≡ map f xs
  map-map_same f g [] h = refl
  map-map_same f g (x ∷ xs) h = ap₂ ◌∷◌ (h x) (map-map_same f g xs h)

module _ {ℓ} {A : Type ℓ} where
  pub length-map {κ} : {B : Type κ} (f : A → B) (xs : List A) → length (map f xs) ≡ length xs
  length-map f [] = refl
  length-map f (x ∷ xs) = ap suc (length-map f xs)

  pub take-modify_last :
      (xs : List A) (i : ℕ) (x : A)
      → i < length xs
      → take (suc i) (modify xs i (λ _. x)) ≡ take i xs ++ (x ∷ [])
  take-modify_last [] i x h = absurd (omega arith)
  take-modify_last (y ∷ xs) zero x h = refl
  take-modify_last (y ∷ xs) (suc i) x h = ap (λ l. y ∷ l) (take-modify_last xs i x (omega arith))

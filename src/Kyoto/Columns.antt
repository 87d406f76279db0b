-- ===== src/Kyoto/Columns.antt =====
-- The columns of a line.
use minas_flink.Prelude.{
  ℕ, zero, suc, ◌+◌, ◌<◌, ◌≡◌, refl, ap, ap₂, ◌∙◌, true, false, not, ◌&&◌, ◌||◌, List, [], ◌∷◌,
  ◌++◌, map, arith, length, length-append, length-map, get_or, All, leb, ◌==◌, inl, inr, Bool-cases,
  if◌then◌else◌,
}
use minas_flink.Double.{Double}
use minas_flink.Data.{Result, ok, fail}
use minas_flink.Kyoto.{
  Scanner, char_at, handle_field, handle_address, ratio, handle_fields, handle_line, field_text,
  tokens,
}

-- The columns that a field is written to.
abbrev pub width : ℕ → ℕ
width field =
    if field == 1 || (leb 14 field && leb field 17) || leb 24 field
    then 0
    else if field == 18 || field == 20
    then 8
    else 1

abbrev pub widths : ℕ → ℕ → ℕ
widths field zero = 0
widths field (suc left) = width field + widths (field + 1) left

-- The class, which the field 17 decides.
abbrev pub class_of : ℕ → ℕ → List (List ℕ) → ℕ
class_of field class [] = class
class_of field class (value ∷ values) =
    class_of (field + 1) (if field == 17 && not (char_at value 0 == b'1') then b'A' else class)
      values

class_of_late :
    (field class : ℕ) (values : List (List ℕ)) → 17 < field → class_of field class values ≡ class
class_of_late field class [] h = refl
class_of_late field class (value ∷ values) h =
    let late : field == 17 ≡ false = ground arith in
    rw late (class_of_late (field + 1) class values (omega arith))

class_of_17 :
    (n field class : ℕ) (values : List (List ℕ))
    → field + n ≡ 17
    → n < length values
    → class_of field class values ≡ (if char_at (get_or values n []) 0 == b'1' then class else b'A')
class_of_17 n field class [] e h = absurd (omega arith)
class_of_17 zero field class (value ∷ values) e h =
    let here : field == 17 ≡ true = ground arith in
    let one = char_at value 0 == b'1' in
    elim (Bool-cases one) [
      | inl yes_one ↦ rw (here, yes_one) (class_of_late (field + 1) class values (omega arith))
      | inr no_one ↦ rw (here, no_one) (class_of_late (field + 1) b'A' values (omega arith))
    ]
class_of_17 (suc n) field class (value ∷ values) e h =
    let early : field == 17 ≡ false = ground arith in
    rw early (class_of_17 n (field + 1) class values (omega arith) (omega arith))

module _ {W : Type 0} ⦃D : Double W⦄ (scanner : Scanner W) where
  -- The addresses, which are the fields 18 and 20, are read as 8 numbers each.
  abbrev pub AreAddressed : ℕ → List (List ℕ) → Type 0
  AreAddressed field [] = Unit
  AreAddressed field (value ∷ values) =
      ((field == 18 || field == 20 ≡ true) → length (scanner.octets value) ≡ 8)
      × AreAddressed (field + 1) values

  -- A result with a number of columns.
  abbrev HasWidth : Result (List W) → ℕ → Type 0
  HasWidth (ok out) n = length out ≡ n
  HasWidth (fail e) n = ⊥

  HasWidth-ok :
      (r : Result (List W)) (n : ℕ)
      → HasWidth r n
      → (out : List W) × (r ≡ ok out) × (length out ≡ n)
  HasWidth-ok (ok out) n h = (out, refl, h)
  HasWidth-ok (fail e) n h = absurd h

  handle_address-HasWidth :
      (value : List ℕ)
      → length (scanner.octets value) ≡ 8
      → HasWidth (handle_address scanner value) 8
  unfolding handle_address
  handle_address-HasWidth value h =
      let numbers = map (λ (o : ℕ). ratio scanner o 65535) (scanner.octets value) in
      let all : length (scanner.octets value) == 8 ≡ true = ground arith in
      let len : length numbers ≡ 8 = length-map _ (scanner.octets value) ∙ h in rw all len

  handle_field-HasWidth :
      (value : List ℕ) (field : ℕ)
      → ((field == 18 || field == 20 ≡ true) → length (scanner.octets value) ≡ 8)
      → HasWidth (handle_field scanner value field) (width field)
  unfolding handle_field
  handle_field-HasWidth value field h = elim (Bool-cases (field == 18 || field == 20)) [
    | inl address ↦ let eight = handle_address-HasWidth value (h address) in ground arith
    | inr other ↦ ground arith
  ]

  handle_fields-columns :
      (field class : ℕ) (values : List (List ℕ))
      → AreAddressed field values
      → (out : List W) × (handle_fields scanner field class values
          ≡ ok (out, class_of field class values))
        × (length out ≡ widths field (length values))
  unfolding handle_fields
  handle_fields-columns field class [] h = ([], refl, refl)
  handle_fields-columns field class (value ∷ values) (h, hs) =
      let (out, run, len) =
        HasWidth-ok (handle_field scanner value field) (width field)
          (handle_field-HasWidth value field h) in
      let class' = if field == 17 && not (char_at value 0 == b'1') then b'A' else class in
      let (rest, run', len') = handle_fields-columns (field + 1) class' values hs in
      (out ++ rest, rw (run, run') refl, length-append out rest ∙ omega arith)

-- The fields of a line, with one tab between two.
abbrev pub join : List (List ℕ) → List ℕ
join [] = []
join (f ∷ []) = f
join (f ∷ g ∷ fs) = f ++ (b'\t' ∷ join (g ∷ fs))

-- What the pointers to the fields lead to.
abbrev pub memories : List (List ℕ) → List (List ℕ)
memories [] = []
memories (f ∷ []) = (f ++ (0 ∷ [])) ∷ []
memories (f ∷ g ∷ fs) = (f ++ (0 ∷ join (g ∷ fs))) ∷ memories (g ∷ fs)

abbrev pub IsLetter : ℕ → Type 0
IsLetter c = c == b'\t' ≡ false

abbrev pub IsField : List ℕ → Type 0
IsField [] = ⊥
IsField (c ∷ cs) = IsLetter c × All IsLetter cs

field_text_tab :
    (f rest : List ℕ) → All IsLetter f → field_text (f ++ (b'\t' ∷ rest)) ≡ f ++ (0 ∷ rest)
unfolding field_text
field_text_tab [] rest h = refl
field_text_tab (c ∷ f) rest (h, hs) = rw h (ap (λ l. c ∷ l) (field_text_tab f rest hs))

field_text_end : (f : List ℕ) → All IsLetter f → field_text f ≡ f ++ (0 ∷ [])
unfolding field_text
field_text_end [] h = refl
field_text_end (c ∷ f) (h, hs) = rw h (ap (λ l. c ∷ l) (field_text_end f hs))

tokens-inside :
    (f rest : List ℕ) → All IsLetter f → tokens true (f ++ (b'\t' ∷ rest)) ≡ tokens false rest
unfolding tokens
tokens-inside [] rest h = refl
tokens-inside (c ∷ f) rest (h, hs) = rw h (tokens-inside f rest hs)

tokens-last : (f : List ℕ) → All IsLetter f → tokens true f ≡ []
unfolding tokens
tokens-last [] h = refl
tokens-last (c ∷ f) (h, hs) = rw h (tokens-last f hs)

tokens-join : (fs : List (List ℕ)) → All IsField fs → tokens false (join fs) ≡ memories fs
unfolding tokens
tokens-join [] h = refl
tokens-join ([] ∷ fs) h = absurd h.0
tokens-join ((c ∷ f) ∷ []) ((h, hs), rest) =
    rw h (ap₂ ◌∷◌ (field_text_end (c ∷ f) (h, hs)) (tokens-last f hs))
tokens-join ((c ∷ f) ∷ g ∷ fs) ((h, hs), rest) = rw h (
    ap₂ ◌∷◌ (field_text_tab (c ∷ f) (join (g ∷ fs)) (h, hs))
      (tokens-inside f (join (g ∷ fs)) hs ∙ tokens-join (g ∷ fs) rest))

length-memories : (fs : List (List ℕ)) → length (memories fs) ≡ length fs
length-memories [] = refl
length-memories (f ∷ []) = refl
length-memories (f ∷ g ∷ fs) = ap suc (length-memories (g ∷ fs))

head-memories :
    (fs : List (List ℕ)) (i : ℕ)
    → All IsField fs
    → char_at (get_or (memories fs) i []) 0 ≡ char_at (get_or fs i []) 0
head-memories [] i h = refl
head-memories ([] ∷ fs) i h = absurd h.0
head-memories ((c ∷ f) ∷ []) zero h = refl
head-memories ((c ∷ f) ∷ []) (suc i) h = refl
head-memories ((c ∷ f) ∷ g ∷ fs) zero h = refl
head-memories ((c ∷ f) ∷ g ∷ fs) (suc i) h = head-memories (g ∷ fs) i h.1

-- A line of 24 fields, none of which is empty, with one tab between two, is written as 33 numbers
-- and the class, if both addresses are read as 8 numbers. The class is 'N' if the field 17 starts
-- with '1', and 'A' if not.
pub handle_line-columns :
    {W : Type 0} ⦃D : Double W⦄ (scanner : Scanner W) (fs : List (List ℕ))
    → All IsField fs
    → length fs ≡ 24
    → AreAddressed scanner 0 (memories fs)
    → (out : List W) × (class : ℕ) × (handle_line scanner (join fs) ≡ ok (out, class))
      × (length out ≡ 33)
      × (class ≡ (if char_at (get_or fs 17 []) 0 == b'1' then b'N' else b'A'))
unfolding handle_line
handle_line-columns scanner fs fields count addresses =
    let (out, run, len) = handle_fields-columns scanner 0 b'N' (memories fs) addresses in
    (
      out,
      class_of 0 b'N' (memories fs),
      rw (tokens-join fs fields) run,
      len ∙ ap (widths 0) (length-memories fs ∙ count),
      class_of_17 17 0 b'N' (memories fs) refl (omega (arith, length-memories fs))
          ∙ ap (λ c. if c == b'1' then b'N' else b'A') (head-memories fs 17 fields),
    )

-- ===== src/Lines/Values.antt =====
-- The values of a line with an example.
use minas_flink.Prelude.{
  drop-append, Bool, ℕ, ◌+◌, ◌≤◌, ◌≡◌, ◌≢◌, refl, ap, ap₂, sym, ◌∙◌, some, false, List, [], ◌∷◌,
  ◌++◌, drop, length, length-append, ltb, ◌==◌, arith,
}
use mathlib.Core.List.{append_assoc}
use minas_flink.Data.{Example, Cluster, ok}
use minas_flink.Lines.{
  Scanned, value, read_cur, take_value, read_values, Formats, example_line, line_with, first_char,
  get_mfog_line,
}

-- A value with its text, which is followed by a comma.
pub record Field (W : Type 0) : Type 0 where
  pub text : List ℕ
  pub number : W

abbrev pub texts : {W : Type 0} → List (Field W) → List ℕ
texts [] = []
texts (f ∷ fs) = (f.text ++ (b',' ∷ [])) ++ texts fs

abbrev pub numbers : {W : Type 0} → List (Field W) → List W
numbers [] = []
numbers (f ∷ fs) = f.number ∷ numbers fs

-- The format reads each field, whatever follows it, up to the comma.
abbrev pub Reads : {W : Type 0} → (List ℕ → Scanned W) → List (Field W) → Type 0
Reads scan [] = Unit
Reads scan (f ∷ fs) =
    ((rest : List ℕ)
      → scan ((f.text ++ (b',' ∷ [])) ++ rest)
        ≡ value f.number (some (length (f.text ++ (b',' ∷ [])))))
    × Reads scan fs

module _ {W : Type 0} (scan : List ℕ → Scanned W) where
  read_values_step :
      (line : List ℕ) (tot cur n : ℕ) (old x : W) (olds xs : List W)
      → tot ≤ length line
      → scan (drop tot line) ≡ value x (some n)
      → read_values scan line (tot + n) n olds ≡ ok xs
      → read_values scan line tot cur (old ∷ olds) ≡ ok (x ∷ xs)
  unfolding read_values take_value read_cur
  read_values_step line tot cur n old x olds xs inside read rest =
      let inside' : ltb (length line) tot ≡ false = ground arith in rw (inside', read, rest) refl

  read_values-texts :
      (fs : List (Field W)) (before rest : List ℕ) (cur : ℕ) (olds : List W)
      → length olds ≡ length fs
      → Reads scan fs
      → read_values scan (before ++ (texts fs ++ rest)) (length before) cur olds ≡ ok (numbers fs)
  unfolding read_values
  read_values-texts [] before rest cur [] len reads = refl
  read_values-texts [] before rest cur (old ∷ olds) len reads = absurd (omega arith)
  read_values-texts (f ∷ fs) before rest cur [] len reads = absurd (omega arith)
  read_values-texts (f ∷ fs) before rest cur (old ∷ olds) len (read, reads) =
      let t = f.text ++ (b',' ∷ []) in
      let after = texts fs ++ rest in
      let line = before ++ ((t ++ texts fs) ++ rest) in
      let split : line ≡ (before ++ t) ++ after =
        ap (λ l. before ++ l) (append_assoc t (texts fs) rest)
        ∙ sym (append_assoc before t after) in
      let here : drop (length before) line ≡ t ++ after =
        drop-append before ((t ++ texts fs) ++ rest) (length before) refl
        ∙ append_assoc t (texts fs) rest in
      let ih = read_values-texts fs (before ++ t) rest (length t) olds (omega arith) reads in
      read_values_step line (length before) cur (length t) old f.number olds (numbers fs)
        (rw (length-append before ((t ++ texts fs) ++ rest)) (omega arith))
        (ap scan here ∙ read after)
        (ap₂ (λ l n. read_values scan l n (length t) olds) split (sym (length-append before t))
          ∙ ih)

-- If a line does not start with 'C', 'U' or '#', starts with as many fields as the example has values,
-- each followed by a comma, and the format reads each of them, whatever follows, then the line is an
-- example with these values, whatever it held before; the text behind them, the class, is ignored.
pub get_mfog_line-example :
    {W : Type 0} (beyond : ℕ → Bool) (junk : ℕ) (formats : Formats W) (fs : List (Field W))
    (rest : List ℕ) (c : Cluster W) (e : Example W)
    → length e.val ≡ length fs
    → Reads formats.value_comma fs
    → first_char (texts fs ++ rest) ≢ b'C'
    → first_char (texts fs ++ rest) ≢ b'U'
    → first_char (texts fs ++ rest) ≢ b'#'
    → get_mfog_line beyond junk formats (some (texts fs ++ rest)) c e
      ≡ ok (b'E', c, record e { val = numbers fs })
unfolding get_mfog_line line_with example_line
get_mfog_line-example beyond junk formats fs rest c e len reads no_c no_u no_hash =
    let first = first_char (texts fs ++ rest) in
    let n₁ : (first == b'C') ≡ false = ground arith in
    let n₂ : (first == b'U') ≡ false = ground arith in
    let n₃ : (first == b'#') ≡ false = ground arith in
    let run : read_values formats.value_comma (texts fs ++ rest) 0 0 e.val ≡ ok (numbers fs) =
      read_values-texts formats.value_comma fs [] rest 0 e.val len reads in
    rw (n₁, n₂, n₃, run) refl

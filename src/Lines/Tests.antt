-- ===== src/Lines/Tests.antt =====
-- A line with two values of one digit.
use minas_flink.Prelude.{
  arith, false, ℕ, ◌-◌, ◌≡◌, refl, none, some, List, [], ◌∷◌, ◌++◌, ◌==◌, if◌then◌else◌,
}
use minas_flink.Prelude.Int.{ℤ, pos}
use minas_flink.Data.{Example, ok}
use minas_flink.Label.{is_letter}
use minas_flink.Lines.{first_char, Scanned, nothing, at_end, value, Formats, get_mfog_line}
use minas_flink.Lines.Values.{Field, texts, get_mfog_line-example}
use minas_flink.Samples.{cluster_at, example_at}

-- Reads one digit, and a comma behind it.
abbrev digit_comma : List ℕ → Scanned ℤ
digit_comma [] = at_end
digit_comma (c ∷ []) = value (pos (c - b'0')) none
digit_comma (c ∷ d ∷ text) = if d == b',' then value (pos (c - b'0')) (some 2) else nothing

abbrev formats : Formats ℤ
formats = record {
  comma_value = λ text. at_end;
  value_comma = digit_comma;
  cluster_head = λ text. none;
  unknown_head = λ text. at_end;
}

abbrev fields : List (Field ℤ)
fields =
    record { text = b'7' ∷ []; number = pos 7 } ∷ record { text = b'9' ∷ []; number = pos 9 } ∷ []

-- A class behind the values.
abbrev class : List ℕ
class = b'n' ∷ []

abbrev before : Example ℤ
before = record (example_at 3 0) { val = pos 0 ∷ pos 0 ∷ [] }

get_mfog_line-example_example :
    get_mfog_line is_letter 7 formats (some (texts fields ++ class)) (cluster_at 0 10 false) before
    ≡ ok (b'E', cluster_at 0 10 false, record before { val = pos 7 ∷ pos 9 ∷ [] })
unfolding first_char
get_mfog_line-example_example =
    get_mfog_line-example is_letter 7 formats fields class (cluster_at 0 10 false) before refl
      (λ rest. refl, (λ rest. refl, tt)) (λ e. omega (arith, e)) (λ e. omega (arith, e))
      (λ e. omega (arith, e))

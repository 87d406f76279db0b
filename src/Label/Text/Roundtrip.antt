-- ===== src/Label/Text/Roundtrip.antt =====
-- A label that is printed and read again.
use minas_flink.Prelude.{
  Bool, ℕ, zero, suc, ◌+◌, ◌-◌, ◌*◌, ◌/◌, ◌%◌, ◌≤◌, ◌<◌, ◌≡◌, refl, ◌∙◌, true, false, List, [], ◌∷◌,
  ◌++◌, arith, length, length-append, All, All-append, ltb, ◌==◌, ◌||◌, inl, inr, Bool-cases, ◌⊎◌,
}
use minas_flink.Label.{is_letter, isalpha}
use minas_flink.Label.Text.{
  char_text, char_value, print_digits, printable_label, is_digit, is_space, scan_digits,
  scan_number, scan_signed, scan_unsigned, from_printable_label,
}

abbrev IsDigit : ℕ → Type 0
IsDigit c = is_digit c ≡ true

-- The number that a string of digits stands for, behind `n`.
abbrev value : ℕ → List ℕ → ℕ
value n [] = n
value n (c ∷ cs) = value (n * 10 + (c - b'0')) cs

value-append :
    (n : ℕ) (cs : List ℕ) (d : ℕ) → value n (cs ++ (d ∷ [])) ≡ value n cs * 10 + (d - b'0')
value-append n [] d = refl
value-append n (c ∷ cs) d = value-append (n * 10 + (c - b'0')) cs d

-- The first number with more than `width` digits.
abbrev limit : ℕ → ℕ
limit zero = 1
limit (suc width) = 10 * limit width

-- A string is the number `n` in at most `width` digits.
record IsPrinted (width n : ℕ) (cs : List ℕ) : Type 0 where
  digits : All IsDigit cs
  same : value 0 cs ≡ n
  some_digit : 0 < length cs
  short : length cs ≤ width

print_last : (fuel n : ℕ) → ltb n 10 ≡ true → print_digits (suc fuel) n ≡ (b'0' + n) ∷ []
unfolding print_digits
print_last fuel n small = rw small refl

print_more :
    (fuel n : ℕ)
    → ltb n 10 ≡ false
    → print_digits (suc fuel) n ≡ print_digits fuel (n / 10) ++ ((b'0' + n % 10) ∷ [])
unfolding print_digits
print_more fuel n large = rw large refl

one_digit : (width n : ℕ) → n < 10 → IsPrinted (suc width) n ((b'0' + n) ∷ [])
one_digit width n small = record {
  digits = (ground arith, tt);
  same = omega arith;
  some_digit = omega arith;
  short = omega arith;
}

append-IsPrinted :
    (width n : ℕ) (cs : List ℕ)
    → IsPrinted width (n / 10) cs
    → IsPrinted (suc width) n (cs ++ ((b'0' + n % 10) ∷ []))
append-IsPrinted width n cs p =
    let d = b'0' + n % 10 in
    let len = length-append cs (d ∷ []) in
    let digit : IsDigit d = ground arith in
    record {
      digits = All-append IsDigit cs (d ∷ []) p.digits (digit, tt);
      same = value-append 0 cs d ∙ omega (arith, p.same);
      some_digit = omega arith;
      short = omega (arith, p.short);
    }

-- The fuel may be more than the digits that the number has.
print_digits-IsPrinted :
    (width fuel n : ℕ)
    → n < limit (suc width)
    → width ≤ fuel
    → IsPrinted (suc width) n (print_digits (suc fuel) n)
print_digits-IsPrinted zero fuel n h enough =
    let small : ltb n 10 ≡ true = ground arith in
    rw (print_last fuel n small) (one_digit 0 n (omega arith))
print_digits-IsPrinted (suc width) zero n h enough = absurd (omega arith)
print_digits-IsPrinted (suc width) (suc fuel) n h enough = elim (Bool-cases (ltb n 10)) [
  | inl small ↦ rw (print_last (suc fuel) n small) (one_digit (suc width) n (ground arith))
  | inr large ↦ rw (print_more (suc fuel) n large) (
      append-IsPrinted (suc width) n (print_digits (suc fuel) (n / 10))
        (print_digits-IsPrinted width fuel (n / 10) (omega arith) (omega arith)))
]

scan_digits-value :
    (width n : ℕ) (cs : List ℕ)
    → All IsDigit cs
    → length cs ≤ width
    → scan_digits width n cs ≡ value n cs
unfolding scan_digits
scan_digits-value zero n [] all h = refl
scan_digits-value zero n (c ∷ cs) all h = absurd (omega arith)
scan_digits-value (suc width) n [] all h = refl
scan_digits-value (suc width) n (c ∷ cs) (digit, all) h =
    rw digit (scan_digits-value width (n * 10 + (c - b'0')) cs all (omega arith))

-- A character that is no letter and no '-' is none as a `char` of the C library either.
isalpha-small : (beyond : ℕ → Bool) (c : ℕ) → c < 256 → isalpha beyond c ≡ is_letter c
unfolding isalpha
isalpha-small beyond c h = let small : ltb c 256 ≡ true = ground arith in rw small refl

-- A string of digits reaches `scan_digits`.
from_printable_label-digits :
    (beyond : ℕ → Bool) (junk : ℕ) (cs : List ℕ)
    → All IsDigit cs
    → 0 < length cs
    → from_printable_label beyond junk cs ≡ scan_digits 4 0 cs
unfolding from_printable_label scan_unsigned scan_signed scan_number char_value is_letter
from_printable_label-digits beyond junk [] all h = absurd (omega arith)
from_printable_label-digits beyond junk (c ∷ cs) (digit, all) h =
    let small : ltb c 128 ≡ true = ground arith in
    let same = isalpha-small beyond c (ground arith) in
    let other : is_letter c || c == b'-' ≡ false = ground arith in
    let no_space : is_space c ≡ false = ground arith in
    let no_plus : c == b'+' ≡ false = ground arith in
    let no_minus : c == b'-' ≡ false = ground arith in
    rw (small, same, other, no_space, no_plus, no_minus, digit) refl

-- The label of a cluster: a character or a number that was printed.
printable_label-cases :
    (beyond : ℕ → Bool) (label : ℕ)
    → label < 256
    → (is_letter label || label == b'-' ≡ true) × (printable_label beyond label ≡ label ∷ [])
      ⊎ (printable_label beyond label ≡ print_digits 10 label)
unfolding printable_label char_text is_letter
printable_label-cases beyond label small =
    let same = isalpha-small beyond label small in
    elim (Bool-cases (is_letter label || label == b'-')) [
      | inl char ↦
          let one : label % 256 ≡ label = omega arith in
          let some : (label == 0) ≡ false = ground (arith, char) in
          inl (char, rw (same, char, one, some) refl)
      | inr number ↦ inr (rw (same, number) refl)
    ]

from_printable_label-char :
    (beyond : ℕ → Bool) (junk c : ℕ)
    → is_letter c || c == b'-' ≡ true
    → from_printable_label beyond junk (c ∷ []) ≡ c
unfolding from_printable_label char_value is_letter
from_printable_label-char beyond junk c char =
    let small : ltb c 128 ≡ true = ground (arith, char) in
    let same = isalpha-small beyond c (ground (arith, small)) in rw (small, same, char) refl

-- A label below 256, a letter and '-' included, is printed as text from which it is read again. (For
-- these labels `isalpha` is defined.)
pub from_printable_label-printable_label :
    (beyond : ℕ → Bool) (junk label : ℕ)
    → label < 256
    → from_printable_label beyond junk (printable_label beyond label) ≡ label
from_printable_label-printable_label beyond junk label h =
    elim (printable_label-cases beyond label h) [
      | inl (char, text) ↦ rw text (from_printable_label-char beyond junk label char)
      | inr text ↦
          let p = print_digits-IsPrinted 2 9 label (omega arith) (omega arith) in
          rw text (
            from_printable_label-digits beyond junk (print_digits 10 label) p.digits p.some_digit
            ∙ scan_digits-value 4 0 (print_digits 10 label) p.digits (omega (arith, p.short))
            ∙ p.same)
    ]

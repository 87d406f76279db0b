-- ===== src/Label/Tests.antt =====
-- Runs of the loop for the next label and of the text of labels, and instances of the theorems about it.
use minas_flink.Prelude.{ℕ, ◌<◌, [], ◌∷◌, ◌≡◌, refl, true, false, arith}
use minas_flink.Label.{is_letter, isalpha, is_reserved, advance, next_free_label}
use minas_flink.Label.Text.{
  print_digits, char_text, char_value, printable_label, scan_digits, scan_number, scan_signed,
  scan_unsigned, from_printable_label,
}
use minas_flink.Label.Text.Roundtrip.{from_printable_label-printable_label}
use minas_flink.Label.Fresh.{next_free_label-free}

skips_dash : next_free_label 44 ≡ 46
unfolding next_free_label advance is_reserved is_letter
skips_dash = refl

skips_capitals : next_free_label 64 ≡ 91
unfolding next_free_label advance is_reserved is_letter
skips_capitals = refl

next_free_label-free_example :
    let label = next_free_label 64 in
    (is_reserved label ≡ false)
    × (64 < label)
    × ((j : ℕ) → 64 < j → j < label → is_reserved j ≡ true)
next_free_label-free_example = next_free_label-free 64 (omega arith)

prints_number : printable_label is_letter 200 ≡ b'2' ∷ b'0' ∷ b'0' ∷ []
unfolding printable_label print_digits isalpha is_letter
prints_number = refl

-- If `isalpha` takes 510 for a letter, as it may, then its text is one character, which is read back as
-- another label.
prints_byte : printable_label (λ c. true) 510 ≡ 254 ∷ []
unfolding printable_label char_text isalpha
prints_byte = refl

reads_byte : from_printable_label (λ c. true) 7 (254 ∷ []) ≡ 4294967294
unfolding from_printable_label char_value isalpha
reads_byte = refl

reads_signed : from_printable_label is_letter 7 (b' ' ∷ b'+' ∷ b'4' ∷ b'2' ∷ b'x' ∷ []) ≡ 42
unfolding from_printable_label scan_unsigned scan_signed scan_number scan_digits char_value isalpha
    is_letter
reads_signed = refl

from_printable_label-printable_label_example :
    from_printable_label is_letter 7 (printable_label is_letter 200) ≡ 200
from_printable_label-printable_label_example =
    from_printable_label-printable_label is_letter 7 200 (omega arith)

-- ===== src/Label/Text.antt =====
-- The labels as text: `printableLabelReuse`, which `printableLabel` calls on a new block, and
-- `fromPrintableLabel` of src/base.c. A string is the list of its characters, without the final NUL.
pub mod Roundtrip
use minas_flink.Prelude.{
  ℕ, zero, suc, ◌+◌, ◌-◌, ◌*◌, ◌/◌, ◌%◌, Bool, ◌&&◌, ◌||◌, List, [], ◌∷◌, ◌++◌, ltb, leb, ◌==◌,
  if◌then◌else◌, u32, u32_mod,
}
use minas_flink.Label.{isalpha}

-- `%u` of `printf`, with fuel for as many digits.
unfoldable pub print_digits : ℕ → ℕ → List ℕ
print_digits zero n = []
print_digits (suc fuel) n =
    let rest = print_digits fuel (n / 10) in
    if ltb n 10 then (b'0' + n) ∷ [] else rest ++ ((b'0' + n % 10) ∷ [])

-- The string of one character that is left of an `unsigned int`, which ends before it if it is NUL.
unfoldable pub char_text : ℕ → List ℕ
char_text n = let c = n % 256 in if c == 0 then [] else c ∷ []

-- An `unsigned int` has at most 10 digits. `beyond` is what `isalpha` returns where it is undefined.
unfoldable pub printable_label : (ℕ → Bool) → ℕ → List ℕ
printable_label beyond label =
    if isalpha beyond label || label == b'-' then char_text label else print_digits 10 label

abbrev pub is_digit : ℕ → Bool
is_digit c = leb b'0' c && leb c b'9'

abbrev pub is_space : ℕ → Bool
is_space c = c == b' ' || (leb 9 c && leb c 13)

-- The digits that `%u` of `scanf` reads, at most `width`, behind a number `n`.
unfoldable pub scan_digits : ℕ → ℕ → List ℕ → ℕ
scan_digits zero n cs = n
scan_digits (suc width) n [] = n
scan_digits (suc width) n (c ∷ cs) =
    let rest = scan_digits width (n * 10 + (c - b'0')) cs in if is_digit c then rest else n

-- A number without its sign; without a digit nothing is written, and the variable keeps `junk`.
unfoldable pub scan_number : ℕ → ℕ → List ℕ → ℕ
scan_number junk width [] = junk
scan_number junk width (c ∷ cs) = if is_digit c then scan_digits width 0 (c ∷ cs) else junk

-- A sign, which is one of the characters that the width allows. (`strtoul` negates the number.)
unfoldable pub scan_signed : ℕ → ℕ → List ℕ → ℕ
scan_signed junk width [] = junk
scan_signed junk width (c ∷ cs) =
    let n = scan_number u32_mod (width - 1) cs in
    if c == b'+'
    then scan_number junk (width - 1) cs
    else if c == b'-'
    then if n == u32_mod then junk else u32 (u32_mod - n)
    else scan_number junk width (c ∷ cs)

-- `sscanf` with `%4u`, after the white space.
unfoldable pub scan_unsigned : ℕ → ℕ → List ℕ → ℕ
scan_unsigned junk width [] = junk
scan_unsigned junk width (c ∷ cs) =
    let rest = scan_unsigned junk width cs in
    if is_space c then rest else scan_signed junk width (c ∷ cs)

-- A character as an `unsigned int`: a `char` is signed.
unfoldable pub char_value : ℕ → ℕ
char_value c = if ltb c 128 then c else c + (u32_mod - 256)

-- `junk` is what the variable `l` holds, which is not initialised.
unfoldable pub from_printable_label : (ℕ → Bool) → ℕ → List ℕ → ℕ
from_printable_label beyond junk [] = junk
from_printable_label beyond junk (c ∷ cs) =
    let l = char_value c in
    if isalpha beyond l || l == b'-' then l else scan_unsigned junk 4 (c ∷ cs)

-- ===== src/Label.antt =====
-- The labels of src/base.c: an `unsigned int` that is the code of a letter, the code of '-', or the
-- number of a novelty.
pub mod Fresh
pub mod Text
mod Tests
use minas_flink.Prelude.{
  ℕ, zero, suc, ◌-◌, u32_mod, false, Bool, ◌&&◌, ◌||◌, ltb, leb, ◌==◌, if◌then◌else◌, add64,
}

-- A letter, in the "C" locale. This is `isalpha` of the C library on a character.
unfoldable pub is_letter : ℕ → Bool
is_letter c = (leb b'A' c && leb c b'Z') || (leb b'a' c && leb c b'z')

-- `isalpha` on an `unsigned int`, which is converted to an `int`. The standard defines it for the values
-- of an `unsigned char` and for EOF, which is -1; `beyond` is what it returns for another argument.
unfoldable pub isalpha : (ℕ → Bool) → ℕ → Bool
isalpha beyond c = if ltb c 256 then is_letter c else if c == u32_mod - 1 then false else beyond c

-- Labels below 128 that a novelty must not get.
unfoldable pub is_reserved : ℕ → Bool
is_reserved label = ltb label 128 && (is_letter label || label == b'-')

-- The `do` loop of `noveltyDetection`, with fuel; 128 rounds are enough.
unfoldable pub advance : ℕ → ℕ → ℕ
advance zero label = label
advance (suc fuel) label =
    let label' = add64 label 1 in
    let rest = advance fuel label' in if is_reserved label' then rest else label'

unfoldable pub next_free_label : ℕ → ℕ
next_free_label label = advance 128 label

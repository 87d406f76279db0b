-- ===== src/Kyoto/Tests.antt =====
-- Flags of the data set, and instances of the theorems.
use minas_flink.Prelude.{ℕ, ◌≡◌, refl, List, [], ◌∷◌, arith, length}
use minas_flink.Prelude.Int.{ℤ, pos}
use minas_flink.Double.Whole.{whole_double}
use minas_flink.Data.{ok}
use minas_flink.Kyoto.{Scanner, connection_state, syn_state, reset_state, handle_line}
use minas_flink.Kyoto.Columns.{join, handle_line-columns}

rej : connection_state (b'R' ∷ b'E' ∷ b'J' ∷ 0 ∷ []) ≡ 1
unfolding connection_state reset_state
rej = refl

rsto : connection_state (b'R' ∷ b'S' ∷ b'T' ∷ b'O' ∷ 0 ∷ []) ≡ 2
unfolding connection_state reset_state
rsto = refl

-- A flag of two letters has the state of SH.
sf : connection_state (b'S' ∷ b'F' ∷ 0 ∷ b'0' ∷ 0 ∷ []) ≡ 11
unfolding connection_state syn_state
sf = refl

abbrev scanner : Scanner ℤ
scanner = record {
  float = λ text. pos 2;
  int = λ text. pos 80;
  octets = λ text. 1 ∷ 2 ∷ 3 ∷ 4 ∷ 5 ∷ 6 ∷ 7 ∷ 8 ∷ [];
  time = λ text. (23, 59, 58);
}

abbrev one : List ℕ
one = b'1' ∷ []

abbrev fields : List (List ℕ)
fields =
    one ∷ one ∷ one ∷ one ∷ one ∷ one ∷ one ∷ one ∷ one ∷ one ∷ one ∷ one ∷ one ∷ one ∷ one ∷ one
    ∷ one ∷ one ∷ one ∷ one ∷ one ∷ one ∷ one ∷ one ∷ []

handle_line-columns_example :
    (out : List ℤ) × (class : ℕ) × (handle_line scanner (join fields) ≡ ok (out, class))
    × (length out ≡ 33)
    × (class ≡ b'N')
handle_line-columns_example = handle_line-columns scanner fields (ground arith) refl (ground arith)

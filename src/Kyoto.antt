-- ===== src/Kyoto.antt =====
-- src/dataset-preprocessor/kyoto.c: turns a line of the Kyoto data set, fields with tabs between them,
-- into a line of numbers between 0 and 1 and a class. A text is the memory from its first character
-- on: its characters, NUL, and what stands behind. The type `float` and the conversions of `sscanf`
-- are parameters.
pub mod Columns
mod Tests
use minas_flink.Prelude.{
  ℕ, ◌+◌, ◌-◌, ◌*◌, Bool, false, true, not, ◌&&◌, ◌||◌, List, [], ◌∷◌, ◌++◌, map, get_or, ltb, leb,
  ◌==◌, if◌then◌else◌,
}
use minas_flink.Double.{Double}
use minas_flink.Data.{Result, ok, fail, exited, ◌>>=◌}

-- What `sscanf` reads with `%e`, `%d`, eight times `%4x`, and three times `%2d`. The octets are a list
-- of as many numbers as were assigned.
pub record Scanner (W : Type 0) : Type 0 where
  pub float : List ℕ → W
  pub int : List ℕ → W
  pub octets : List ℕ → List ℕ
  pub time : List ℕ → ℕ × ℕ × ℕ

-- The character with an index, also behind the end of the text.
abbrev pub char_at : List ℕ → ℕ → ℕ
char_at value i = get_or value i 0

-- The states of the flags that start with 'R' and with 'S'.
unfoldable pub reset_state : List ℕ → ℕ
reset_state value =
    if char_at value 1 == b'E'
    then 1
    else if char_at value 3 == b'O'
    then if char_at value 4 == 0 then 2 else 3
    else if char_at value 3 == b'R'
    then if char_at value 4 == 0 then 5 else 5
    else 1

unfoldable pub syn_state : List ℕ → ℕ
syn_state value =
    let base : ℕ = if char_at value 2 == b'F' then 10 else 11 in
    if leb b'0' (char_at value 2) && leb (char_at value 2) b'3'
    then 6 + (char_at value 2 - b'0')
    else base + (if char_at value 3 == b'R' then 1 else 0)

unfoldable pub connection_state : List ℕ → ℕ
connection_state value =
    let c = char_at value 0 in
    if c == b'O'
    then 0
    else if c == b'R'
    then reset_state value
    else if c == b'S'
    then syn_state value
    else 0

-- The seconds of `handleTime`, and what it divides them by.
unfoldable pub seconds : ℕ × ℕ × ℕ → ℕ
seconds (hour, min, sec) = sec + 60 * (min + 60 * hour)

abbrev pub seconds_max : ℕ
seconds_max = 60 + 60 * (60 + 60 * 60)

module _ {W : Type 0} ⦃D : Double W⦄ (scanner : Scanner W) where
  unfoldable pub handle_float : List ℕ → ℕ → W
  handle_float value limit =
      let f = scanner.float value in
      D.div (if D.lt (D.of_nat limit) f then D.of_nat limit else f) (D.of_nat limit)

  unfoldable pub ratio : ℕ → ℕ → W
  ratio n limit = D.div (D.of_nat n) (D.of_nat limit)

  unfoldable pub handle_address : List ℕ → Result (List W)
  handle_address value =
      let octets = scanner.octets value in
      let numbers = map (λ (o : ℕ). ratio o 65535) octets in
      if minas_flink.Prelude.length octets == 8 then ok numbers else fail exited

  unfoldable pub handle_port : List ℕ → W
  handle_port value = D.div (scanner.int value) (D.of_nat 65535)

  unfoldable pub handle_time : List ℕ → W
  handle_time value = ratio (seconds (scanner.time value)) seconds_max

  -- The limit of a field that `handleFloat` handles, and 0 for any other.
  abbrev pub limit_of : ℕ → ℕ
  limit_of field =
      if field == 0
      then 3
      else if field == 2
      then 65
      else if field == 3
      then 188
      else if field == 4
      then 9
      else if leb 5 field && leb field 7
      then 1
      else if field == 8
      then 88
      else if field == 9
      then 96
      else if leb 10 field && leb field 12
      then 1
      else 0

  -- The numbers that a field is printed as.
  unfoldable pub handle_field : List ℕ → ℕ → Result (List W)
  handle_field value field =
      let limit = limit_of field in
      if ltb 0 limit
      then ok (handle_float value limit ∷ [])
      else if field == 13
      then ok (ratio (connection_state value) 12 ∷ [])
      else if field == 18 || field == 20
      then handle_address value
      else if field == 19 || field == 21
      then ok (handle_port value ∷ [])
      else if field == 22
      then ok (handle_time value ∷ [])
      else if field == 23
      then ok (ratio (char_at value 0) 255 ∷ [])
      else ok []

  -- The loop over the fields of a line, with the class.
  unfoldable pub handle_fields : ℕ → ℕ → List (List ℕ) → Result (List W × ℕ)
  handle_fields field class [] = ok ([], class)
  handle_fields field class (value ∷ values) = do
    out ← handle_field value field
    let other = field == 17 && not (char_at value 0 == b'1')
    (rest, class') ← handle_fields (field + 1) (if other then b'A' else class) values
    ok (out ++ rest, class')

-- The text of a field, which ends at a tab that `strtok` writes NUL over, and what stands behind.
unfoldable pub field_text : List ℕ → List ℕ
field_text [] = 0 ∷ []
field_text (c ∷ cs) = if c == b'\t' then 0 ∷ cs else c ∷ field_text cs

-- `strtok`: the fields of a line, where tabs in a row count as one.
unfoldable pub tokens : Bool → List ℕ → List (List ℕ)
tokens inside [] = []
tokens inside (c ∷ cs) =
    let rest = tokens (not (c == b'\t')) cs in
    if c == b'\t' || inside then rest else field_text (c ∷ cs) ∷ rest

-- A line behind the first one.
unfoldable pub handle_line : {W : Type 0} ⦃D : Double W⦄ → Scanner W → List ℕ → Result (List W × ℕ)
handle_line scanner line = handle_fields scanner 0 b'N' (tokens false line)

-- ===== src/Lines.antt =====
-- `getMfogLine` and `readCluster` of src/base.c: a line of the input, read into a cluster
-- or an example. What `sscanf` makes of a text is a parameter.
pub mod Values
mod Tests
use minas_flink.Prelude.{
  ℕ, ◌+◌, Option, none, some, Bool, true, List, [], ◌∷◌, drop, length, ltb, ◌==◌, if◌then◌else◌,
}
use minas_flink.Label.Text.{from_printable_label}
use minas_flink.Data.{Example, Cluster, Result, ok, fail, out_of_bounds, exited, ◌>>=◌}

-- What `sscanf` does with the format of one value: it matches nothing and returns 0, it returns EOF as
-- the text is at its end, or it stores a value, and the number of the characters unless the text ends
-- or differs before the `%n`.
pub data Scanned (V : Type 0) : Type 0 where
  nothing at_end : Scanned V
  value : V → Option ℕ → Scanned V

-- `readCur`, which stays as it is if no number is stored.
unfoldable pub read_cur : Option ℕ → ℕ → ℕ
read_cur none old = old
read_cur (some n) old = n

module _ {W : Type 0} (scan_value : List ℕ → Scanned W) (line : List ℕ) where
  -- What is stored for a value, and `readCur`: EOF is not 0, so that it does not count as an error.
  unfoldable pub take_value : ℕ → W → Scanned W → Result (W × ℕ)
  take_value cur old nothing = fail exited
  take_value cur old at_end = ok (old, cur)
  take_value cur old (value x n) = ok (x, read_cur n cur)

  -- The loop over the dimensions, from the place `tot` of the line on, with what the array holds.
  unfoldable pub read_values : ℕ → ℕ → List W → Result (List W)
  read_values tot cur [] = ok []
  read_values tot cur (old ∷ olds) =
      let rest = take_value cur old (scan_value (drop tot line)) >>= λ (x : W × ℕ).
      read_values (tot + x.1) (x.1) olds >>= λ (xs : List W). ok (x.0 ∷ xs) in
      if ltb (length line) tot then fail out_of_bounds else rest

-- The first six fields of a line with a cluster, the label as the text that is read.
pub record Head (W : Type 0) : Type 0 where
  pub id : ℕ
  pub label_text : List ℕ
  pub n_matches : ℕ
  pub distance_avg : W
  pub distance_std_dev : W
  pub radius : W
  pub read_cur : ℕ

-- The formats of the program.
pub record Formats (W : Type 0) : Type 0 where
  pub comma_value : List ℕ → Scanned W
  pub value_comma : List ℕ → Scanned W
  pub cluster_head : List ℕ → Option (Head W)
  pub unknown_head : List ℕ → Scanned ℕ

-- `beyond` is what `isalpha` returns where it is undefined, and `junk` is in `fromPrintableLabel`.
unfoldable pub with_head : {W : Type 0} → (ℕ → Bool) → ℕ → Cluster W → Head W → List W → Cluster W
with_head beyond junk c h center = record c {
  id = h.id;
  label = from_printable_label beyond junk h.label_text;
  n_matches = h.n_matches;
  distance_avg = h.distance_avg;
  distance_std_dev = h.distance_std_dev;
  radius = h.radius;
  center = center;
}

-- The first character of a line; that of an empty one is its NUL.
unfoldable pub first_char : List ℕ → ℕ
first_char [] = 0
first_char (c ∷ line) = c

module _ {W : Type 0} (formats : Formats W) where
  -- A line 'U', after the id, and one without a letter.
  unfoldable pub unknown_from :
      List ℕ → Cluster W → Example W → Scanned ℕ → Result (ℕ × Cluster W × Example W)
  unknown_from line c e nothing = fail exited
  unknown_from line c e at_end = read_values formats.comma_value line 0 0 e.val >>= λ (xs : List W).
      ok (b'U', c, record e { val = xs })
  unknown_from line c e (value id n) =
      let cur = read_cur n 0 in
      read_values formats.comma_value line cur cur e.val >>= λ (xs : List W).
      ok (b'U', c, record e { id = id; val = xs })

  unfoldable pub example_line : List ℕ → Cluster W → Example W → Result (ℕ × Cluster W × Example W)
  example_line line c e = read_values formats.value_comma line 0 0 e.val >>= λ (xs : List W).
      ok (b'E', c, record e { val = xs })

module _ {W : Type 0} (beyond : ℕ → Bool) (junk : ℕ) (formats : Formats W) where
  unfoldable pub read_rest : List ℕ → Cluster W → Option (Head W) → Result (Cluster W)
  read_rest line c none = fail exited
  read_rest line c (some h) =
      read_values formats.comma_value line h.read_cur h.read_cur c.center >>= λ (xs : List W).
      ok (with_head beyond junk c h xs)

  -- `readCluster`.
  unfoldable pub read_cluster : List ℕ → Cluster W → Result (Cluster W)
  read_cluster line c = read_rest line c (formats.cluster_head line)

  -- The kinds of lines, with what they leave in the cluster and in the example.
  unfoldable pub cluster_line : List ℕ → Cluster W → Example W → Result (ℕ × Cluster W × Example W)
  cluster_line line c e = read_cluster line c >>= λ (c' : Cluster W).
      ok (b'C', record c' { is_intrest = true; n_matches = 0; n_misses = 0 }, e)

  -- The first character decides.
  unfoldable pub line_with : ℕ → List ℕ → Cluster W → Example W → Result (ℕ × Cluster W × Example W)
  line_with first line c e =
      if first == b'C'
      then cluster_line line c e
      else if first == b'U'
      then unknown_from formats line c e (formats.unknown_head line)
      else if first == b'#'
      then ok (b'#', c, e)
      else example_line formats line c e

  -- `getMfogLine`, for the line that `getline` leaves, unless the file is at its end.
  unfoldable pub get_mfog_line :
      Option (List ℕ) → Cluster W → Example W → Result (ℕ × Cluster W × Example W)
  get_mfog_line none c e = ok (0, c, e)
  get_mfog_line (some line) c e = line_with (first_char line) line c e

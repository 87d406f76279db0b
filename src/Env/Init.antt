-- ===== src/Env/Init.antt =====
-- `initEnv` of old-code/src/util/loadenv.c, after MPI has given the rank and the number of processes.
-- What it prints is left out.
pub mod Server
use minas_flink.Prelude.{
  ℕ, ◌+◌, Option, none, some, List, [], ◌∷◌, Bool, true, false, not, ◌&&◌, ◌==◌, if◌then◌else◌,
}
use minas_flink.Prelude.Int.{ℤ, pos, ◌*ℤ◌}
use minas_flink.Data.{Result, ok, fail, exited, ◌>>=◌}
use minas_flink.Env.{Text, Stream, find_env_var, find_env_flag, load_env_file}

-- `mfog_params_t`, without the socket, which is not set here. `noveltyThreshold` is a double that is 2.
pub record MfogParams (H : Type 0) : Type 0 where
  pub mpi_rank : ℕ
  pub mpi_size : ℕ
  pub executable : Option Text
  pub k_param : ℤ
  pub dimension : ℤ
  pub novelty_threshold : ℕ
  pub min_ex_cluster : ℤ
  pub max_unk_size : ℤ
  pub threshold_forgetting_past : ℤ
  pub is_model_server : Bool
  pub use_model_store : Bool
  pub k_param_str : Option Text
  pub dimension_str : Option Text
  pub training : Option Text × Option (Stream H)
  pub model : Option Text × Option (Stream H)
  pub examples : Option Text × Option (Stream H)
  pub matches : Option Text × Option (Stream H)
  pub timing : Option Text × Option (Stream H)

-- The names of the parameters, "k", "dimension", "--cloud", "TRAINING_CSV", "MODEL_CSV",
-- "EXAMPLES_CSV", "MATCHES_CSV" and "TIMING_LOG".
pub record Names : Type 0 where
  pub k : Text
  pub dimension : Text
  pub cloud : Text
  pub training_csv : Text
  pub model_csv : Text
  pub examples_csv : Text
  pub matches_csv : Text
  pub timing_log : Text

abbrev pub names : Names
names = record {
  k = b'k' ∷ [];
  dimension = b'd' ∷ b'i' ∷ b'm' ∷ b'e' ∷ b'n' ∷ b's' ∷ b'i' ∷ b'o' ∷ b'n' ∷ [];
  cloud = b'-' ∷ b'-' ∷ b'c' ∷ b'l' ∷ b'o' ∷ b'u' ∷ b'd' ∷ [];
  training_csv =
      b'T' ∷ b'R' ∷ b'A' ∷ b'I' ∷ b'N' ∷ b'I' ∷ b'N' ∷ b'G' ∷ b'_' ∷ b'C' ∷ b'S' ∷ b'V' ∷ [];
  model_csv = b'M' ∷ b'O' ∷ b'D' ∷ b'E' ∷ b'L' ∷ b'_' ∷ b'C' ∷ b'S' ∷ b'V' ∷ [];
  examples_csv =
      b'E' ∷ b'X' ∷ b'A' ∷ b'M' ∷ b'P' ∷ b'L' ∷ b'E' ∷ b'S' ∷ b'_' ∷ b'C' ∷ b'S' ∷ b'V' ∷ [];
  matches_csv = b'M' ∷ b'A' ∷ b'T' ∷ b'C' ∷ b'H' ∷ b'E' ∷ b'S' ∷ b'_' ∷ b'C' ∷ b'S' ∷ b'V' ∷ [];
  timing_log = b'T' ∷ b'I' ∷ b'M' ∷ b'I' ∷ b'N' ∷ b'G' ∷ b'_' ∷ b'L' ∷ b'O' ∷ b'G' ∷ [];
}

unfoldable pub first : List Text → Option Text
first [] = none
first (arg ∷ args) = some arg

-- The default values.
unfoldable pub defaults : {H : Type 0} → ℕ → ℕ → List Text → MfogParams H
defaults mpi_rank mpi_size argv = record {
  mpi_rank = mpi_rank;
  mpi_size = mpi_size;
  executable = first argv;
  k_param = pos 100;
  dimension = pos 22;
  novelty_threshold = 2;
  min_ex_cluster = pos 20;
  max_unk_size = pos 100 *ℤ pos 20;
  threshold_forgetting_past = pos 10000;
  is_model_server = false;
  use_model_store = false;
  k_param_str = none;
  dimension_str = none;
  training = (none, none);
  model = (none, none);
  examples = (none, none);
  matches = (none, none);
  timing = (none, none);
}

-- A number that is read over its default, and the errors.
unfoldable pub read_number : (Text → ℤ) → Option Text → ℤ → ℕ → ℤ × ℕ
read_number atoi none default errors = (default, errors + 1)
read_number atoi (some text) default errors = (atoi text, errors)

unfoldable pub is_null : {A : Type 0} → Option A → Bool
is_null none = true
is_null (some a) = false

-- The errors after a file that only a model server does without.
unfoldable pub count_missing : {H : Type 0} → Bool → Option (Stream H) → ℕ → ℕ
count_missing is_model_server file errors =
    if not is_model_server && is_null file then errors + 1 else errors

module _ {H : Type 0} (fopen : Text → Text → Option H) (atoi : Text → ℤ)
    (argv envp : List Text) where
  -- The files, which only process 0 opens, and the test of the errors.
  unfoldable pub init_files : MfogParams H → ℕ → Result (MfogParams H)
  init_files p errors =
      let load = λ (name mode : Text). load_env_file fopen argv envp name none none mode in
      let model = load names.model_csv (b'r' ∷ []) in
      let examples = load names.examples_csv (b'r' ∷ []) in
      let matches = load names.matches_csv (b'w' ∷ []) in
      let errors' =
        count_missing p.is_model_server (matches.1)
          (count_missing p.is_model_server (examples.1) errors) in
      if errors' == 0
      then ok (record p {
        training = load names.training_csv (b'r' ∷ []);
        model = model;
        use_model_store = is_null (model.1);
        examples = examples;
        matches = matches;
        timing = load names.timing_log (b'a' ∷ []);
      })
      else fail exited

  -- The two numbers. Other processes return before the errors are looked at.
  unfoldable pub init_numbers : MfogParams H → Result (MfogParams H)
  init_numbers p =
      let k_param_str = find_env_var argv envp names.k in
      let dimension_str = find_env_var argv envp names.dimension in
      let (k_param, errors) = read_number atoi k_param_str p.k_param 0 in
      let (dimension, errors') = read_number atoi dimension_str p.dimension errors in
      let p' : MfogParams H = record p {
        k_param_str = k_param_str;
        k_param = k_param;
        dimension_str = dimension_str;
        dimension = dimension;
      } in
      if p.mpi_rank == 0 then init_files p' errors' else ok p'

  -- `initEnv`.
  unfoldable pub init_env : ℕ → ℕ → Result (MfogParams H)
  init_env mpi_rank mpi_size = find_env_flag argv envp names.cloud >>= λ (cloud : Bool).
      init_numbers (record (defaults mpi_rank mpi_size argv) { is_model_server = cloud })

-- ===== src/Env/Init/Server.antt =====
-- When a process starts, and with which parameters.
use minas_flink.Prelude.{
  ℕ, ◌+◌, ◌≡◌, refl, Bool, true, false, Option, none, some, List, [], ◌∷◌, ◌==◌, ◌&&◌, ◌||◌, not,
  if◌then◌else◌, inl, inr, Bool-cases, arith,
}
use minas_flink.Prelude.Int.{ℤ, pos, ◌*ℤ◌}
use minas_flink.Data.{ok, fail, exited}
use minas_flink.Env.{Text, Stream, find_env_var, find_env_flag, load_env_file}
use minas_flink.Env.Init.{
  MfogParams, names, read_number, is_null, count_missing, init_files, init_numbers, init_env,
  defaults,
}

abbrev pub is_set : {A : Type 0} → Option A → Bool
is_set none = false
is_set (some a) = true

-- The number that a parameter has, or else its default.
abbrev pub number_or : (Text → ℤ) → Option Text → ℤ → ℤ
number_or atoi none default = default
number_or atoi (some text) default = atoi text

read_number-value :
    (atoi : Text → ℤ) (text : Option Text) (default : ℤ) (errors : ℕ)
    → (read_number atoi text default errors).0 ≡ number_or atoi text default
unfolding read_number
read_number-value atoi none default errors = refl
read_number-value atoi (some text) default errors = refl

read_number-errors :
    (atoi : Text → ℤ) (text : Option Text) (default : ℤ) (errors : ℕ)
    → (read_number atoi text default errors).1 ≡ errors + (if is_set text then 0 else 1)
unfolding read_number
read_number-errors atoi none default errors = refl
read_number-errors atoi (some text) default errors = omega arith

count_missing-errors :
    {H : Type 0} (cloud : Bool) (file : Option (Stream H)) (errors : ℕ)
    → count_missing cloud file errors ≡ errors + (if cloud || is_set file then 0 else 1)
unfolding count_missing is_null
count_missing-errors true file errors = omega arith
count_missing-errors false none errors = refl
count_missing-errors false (some stream) errors = omega arith

none_missing :
    (k dimension cloud examples matches : Bool)
    → (0
          + (if k then 0 else 1)
          + (if dimension then 0 else 1)
          + (if cloud || examples then 0 else 1)
          + (if cloud || matches then 0 else 1)
        == 0)
      ≡ (k && dimension && (cloud || (examples && matches)))
none_missing k dimension cloud examples matches = ground arith

module _ {H : Type 0} (fopen : Text → Text → Option H) (atoi : Text → ℤ)
    (argv envp : List Text) where
  -- Whether a file is set in the environment or the arguments, and can be opened.
  abbrev pub is_opened : Text → Text → Bool
  is_opened name mode = is_set ((load_env_file fopen argv envp name none none mode).1)

  -- What a process needs: process 0 both numbers and, but for a model server, both files.
  abbrev pub is_startable : Bool → ℕ → Bool
  is_startable cloud mpi_rank =
      not (mpi_rank == 0)
      || (is_set (find_env_var argv envp names.k)
          && is_set (find_env_var argv envp names.dimension)
          && (cloud
              || (is_opened names.examples_csv (b'r' ∷ [])
                  && is_opened names.matches_csv (b'w' ∷ []))))

  -- If the search for the flag --cloud returns, then `initEnv` ends in one of two ways. It exits just in
  -- process 0, and there just if the parameter k or the parameter dimension is not found or, without the
  -- flag, the file of the examples or that of the matches is not open. Otherwise it returns with the flag,
  -- with the two parameters or, in their place, 100 and 22, and with the two files open if they can be,
  -- but only in process 0. The maximum for the unknown examples is 2000 whatever k is.
  pub init_env-is_startable :
      (cloud : Bool) (mpi_rank mpi_size : ℕ)
      → find_env_flag argv envp names.cloud ≡ ok cloud
      → (p : MfogParams H) × (init_env fopen atoi argv envp mpi_rank mpi_size
          ≡ (if is_startable cloud mpi_rank then ok p else fail exited))
        × (p.is_model_server ≡ cloud)
        × (p.k_param ≡ number_or atoi (find_env_var argv envp names.k) (pos 100))
        × (p.dimension ≡ number_or atoi (find_env_var argv envp names.dimension) (pos 22))
        × (is_set (p.examples.1) ≡ (mpi_rank == 0 && is_opened names.examples_csv (b'r' ∷ [])))
        × (is_set (p.matches.1) ≡ (mpi_rank == 0 && is_opened names.matches_csv (b'w' ∷ [])))
        × (p.max_unk_size ≡ pos 2000)
  unfolding init_env init_numbers init_files defaults ◌*ℤ◌
  init_env-is_startable cloud mpi_rank mpi_size flag =
      let k = find_env_var argv envp names.k in
      let dimension = find_env_var argv envp names.dimension in
      let examples = (load_env_file fopen argv envp names.examples_csv none none (b'r' ∷ [])).1 in
      let matches = (load_env_file fopen argv envp names.matches_csv none none (b'w' ∷ [])).1 in
      let errors = (read_number atoi k (pos 100) 0).1 in
      let errors' = (read_number atoi dimension (pos 22) errors).1 in
      let errors'' = count_missing cloud examples errors' in
      let fine : (count_missing cloud matches errors'' == 0)
          ≡ (is_set k && is_set dimension && (cloud || (is_set examples && is_set matches))) =
        rw
          (
            count_missing-errors cloud matches errors'',
            count_missing-errors cloud examples errors',
            read_number-errors atoi dimension (pos 22) errors,
            read_number-errors atoi k (pos 100) 0,
          )
          (none_missing (is_set k) (is_set dimension) cloud (is_set examples) (is_set matches)) in
      let k_value = read_number-value atoi k (pos 100) 0 in
      let dimension_value = read_number-value atoi dimension (pos 22) errors in
      elim (Bool-cases (mpi_rank == 0)) [
        | inl main ↦
            rw (flag, main, fine) (_, refl, refl, k_value, dimension_value, refl, refl, refl)
        | inr other ↦ rw (flag, other) (_, refl, refl, k_value, dimension_value, refl, refl, refl)
      ]

-- ===== src/Env/Find.antt =====
-- Which parameters and flags are found.
use minas_flink.Prelude.{
  ◌≤◌, ◌≡◌, refl, none, some, List, [], ◌∷◌, ◌++◌, drop, length, All, true, false, arith, ◌==◌, ltb,
}
use minas_flink.Data.{ok}
use minas_flink.Env.{
  Text, prefix_mfog, after_name, value_after, param_equals_or_next, value_in, or_else, find_in_env,
  find_env_var, is_found, flag_in, unless_found, find_env_flag,
}

after_name-append : (name rest : Text) → after_name name (name ++ rest) ≡ some rest
unfolding after_name
after_name-append [] rest = refl
after_name-append (c ∷ name) rest =
    let same : (c == c) ≡ true = ground arith in rw same (after_name-append name rest)

-- An entry of the environment that does not set a parameter.
abbrev pub IsOther : Text → Text → Type 0
IsOther name env = value_in name (after_name prefix_mfog env) ≡ none

find_in_env-skip :
    (name : Text) (before after : List Text)
    → All (IsOther name) before
    → find_in_env name (before ++ after) ≡ find_in_env name after
unfolding find_in_env or_else
find_in_env-skip name [] after others = refl
find_in_env-skip name (env ∷ before) after (other, others) =
    rw other (find_in_env-skip name before after others)

-- The entry that sets a parameter.
abbrev pub setting : Text → Text → Text
setting name value = prefix_mfog ++ (name ++ (b'=' ∷ value))

-- If an entry of the environment is "MFOG_", the name of a parameter, '=' and a value, and no entry
-- before it sets this parameter, then the parameter has this value, whatever the arguments are.
pub find_env_var-setting :
    (argv before after : List Text) (name value : Text)
    → All (IsOther name) before
    → find_env_var argv (before ++ (setting name value ∷ after)) name ≡ some value
unfolding find_env_var find_in_env or_else value_in param_equals_or_next value_after
find_env_var-setting argv before after name value others =
    rw
      (
        find_in_env-skip name before (setting name value ∷ after) others,
        after_name-append prefix_mfog (name ++ (b'=' ∷ value)),
        after_name-append name (b'=' ∷ value),
      )
      refl

-- A flag with a name of at least five characters is set by an entry of the environment that has "MFOG_"
-- and then the name without its first five characters, whatever follows and whatever the arguments are.
find_env_flag-rest :
    (argv envp : List Text) (name more : Text)
    → length prefix_mfog ≤ length name
    → find_env_flag argv ((prefix_mfog ++ (drop (length prefix_mfog) name ++ more)) ∷ envp) name
      ≡ ok true
unfolding find_env_flag flag_in unless_found is_found
find_env_flag-rest argv envp name more long =
    let long' : ltb (length name) (length prefix_mfog) ≡ false = ground arith in
    rw
      (
        after_name-append prefix_mfog (drop (length prefix_mfog) name ++ more),
        long',
        after_name-append (drop (length prefix_mfog) name) more,
      )
      refl

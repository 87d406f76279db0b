-- ===== src/Env/Tests.antt =====
-- Parameters and flags of small environments.
use minas_flink.Prelude.{ℕ, ◌-◌, Option, none, List, ◌≡◌, refl, some, [], ◌∷◌, true}
use minas_flink.Prelude.Int.{ℤ, pos}
use minas_flink.Data.{ok}
use minas_flink.Env.{
  find_in_env, find_in_args, or_else, param_equals_or_next, value_after, next_of, flag_in_args,
  is_found, value_in, after_name, Text, find_env_var, find_env_flag, sums, is_std_file,
}
use minas_flink.Env.Init.{MfogParams, names, init_env}
use minas_flink.Env.Init.Server.{is_set, is_opened, init_env-is_startable}
use minas_flink.Env.Find.{IsOther, setting, find_env_var-setting}

abbrev path : Text
path = b'P' ∷ b'=' ∷ b'x' ∷ []

not_k : IsOther (b'k' ∷ []) path
unfolding value_in after_name
not_k = refl

find_env_var-setting_example :
    find_env_var [] (path ∷ setting (b'k' ∷ []) (b'9' ∷ []) ∷ []) (b'k' ∷ []) ≡ some (b'9' ∷ [])
find_env_var-setting_example =
    find_env_var-setting [] (path ∷ []) [] (b'k' ∷ []) (b'9' ∷ []) (not_k, tt)

-- "--cloud".
abbrev cloud : Text
cloud = b'-' ∷ b'-' ∷ b'c' ∷ b'l' ∷ b'o' ∷ b'u' ∷ b'd' ∷ []

abbrev server_args : List Text
server_args =
    cloud
    ∷ cloud
    ∷ (b'k' ∷ b'=' ∷ b'7' ∷ [])
    ∷ (b'd' ∷ b'i' ∷ b'm' ∷ b'e' ∷ b'n' ∷ b's' ∷ b'i' ∷ b'o' ∷ b'n' ∷ [])
    ∷ (b'4' ∷ [])
    ∷ []

-- The first digit.
abbrev digit : Text → ℤ
digit [] = pos 0
digit (c ∷ text) = pos (c - b'0')

cloud_found : find_env_flag server_args [] cloud ≡ ok true
unfolding find_env_flag flag_in_args is_found after_name
cloud_found = refl

no_file : Text → Text → Option ℕ
no_file name mode = none

init_env-is_startable_example :
    (p : MfogParams ℕ) × (init_env no_file digit server_args [] 0 3 ≡ ok p)
    × (p.is_model_server ≡ true)
    × (p.k_param ≡ pos 7)
    × (p.dimension ≡ pos 4)
    × (is_set (p.examples.1)
        ≡ is_opened no_file digit server_args [] names.examples_csv (b'r' ∷ []))
    × (is_set (p.matches.1) ≡ is_opened no_file digit server_args [] names.matches_csv (b'w' ∷ []))
    × (p.max_unk_size ≡ pos 2000)
unfolding find_env_var find_in_env find_in_args or_else param_equals_or_next value_after after_name
    next_of
init_env-is_startable_example =
    init_env-is_startable no_file digit server_args [] true 0 3 cloud_found

-- "tuodts" is taken for "stdout", and "stderr" for a file.
anagram : is_std_file (some (b't' ∷ b'u' ∷ b'o' ∷ b'd' ∷ b't' ∷ b's' ∷ [])) ≡ b'o'
unfolding is_std_file sums
anagram = refl

error_file : is_std_file (some (b's' ∷ b't' ∷ b'd' ∷ b'e' ∷ b'r' ∷ b'r' ∷ [])) ≡ 0
unfolding is_std_file sums
error_file = refl

-- ===== src/Env.antt =====
-- old-code/src/util/loadenv.c: parameters from the environment and the arguments of a program. A string
-- is the list of its characters, all below 128, without the NUL at its end, and a null pointer is
-- `none`. Messages are left out.
pub mod Find
pub mod Init
mod Tests
use minas_flink.Prelude.{
  ℕ, zero, suc, ◌+◌, Option, none, some, List, [], ◌∷◌, Bool, true, false, ◌==◌, ltb, length, drop,
  if◌then◌else◌, ◌||◌,
}
use minas_flink.Prelude.Int.{ℤ}
use minas_flink.Data.{Result, ok, fail, out_of_bounds}

abbrev pub Text : Type 0
Text = List ℕ

-- `prefixMfog`.
abbrev pub prefix_mfog : Text
prefix_mfog = b'M' ∷ b'F' ∷ b'O' ∷ b'G' ∷ b'_' ∷ []

-- The loops that subtract the characters of a text from those of a name, up to the first difference:
-- what is left of the text, if there is none. The NUL at the end of the text differs from the name.
unfoldable pub after_name : Text → Text → Option Text
after_name [] text = some text
after_name (c ∷ name) [] = none
after_name (c ∷ name) (d ∷ text) = let rest = after_name name text in if c == d then rest else none

-- What follows the name: '=' and the value, or the end of the argument.
unfoldable pub value_after : Option Text → Option Text → Option Text
value_after none next_arg = none
value_after (some []) next_arg = next_arg
value_after (some (c ∷ rest)) next_arg = if c == b'=' then some rest else none

-- `paramEqualsOrNext`, for a name that is not null.
unfoldable pub param_equals_or_next : Text → Text → Option Text → Option Text
param_equals_or_next name env_or_arg next_arg = value_after (after_name name env_or_arg) next_arg

-- One round of the loop over the environment.
unfoldable pub value_in : Text → Option Text → Option Text
value_in name none = none
value_in name (some rest) = param_equals_or_next name rest none

unfoldable pub or_else : {A : Type 0} → Option A → Option A → Option A
or_else none other = other
or_else (some a) other = some a

unfoldable pub find_in_env : Text → List Text → Option Text
find_in_env name [] = none
find_in_env name (env ∷ envp) =
    or_else (value_in name (after_name prefix_mfog env)) (find_in_env name envp)

-- The argument that follows; behind the last one there is a null pointer.
unfoldable pub next_of : List Text → Option Text
next_of [] = none
next_of (arg ∷ args) = some arg

unfoldable pub find_in_args : Text → List Text → Option Text
find_in_args name [] = none
find_in_args name (arg ∷ args) =
    or_else (param_equals_or_next name arg (next_of args)) (find_in_args name args)

-- `findEnvVar`.
unfoldable pub find_env_var : List Text → List Text → Text → Option Text
find_env_var argv envp name = or_else (find_in_env name envp) (find_in_args name (drop 1 argv))

unfoldable pub is_found : Option Text → Bool
is_found none = false
is_found (some rest) = true

-- The loops of `findEnvFlag`. The one over the environment does not start the name from its first
-- character again: its index goes on from the length of the prefix, so that a shorter name is left behind.
unfoldable pub flag_in : Text → Option Text → Result Bool
flag_in name none = ok false
flag_in name (some rest) =
    if ltb (length name) (length prefix_mfog)
    then fail out_of_bounds
    else ok (is_found (after_name (drop (length prefix_mfog) name) rest))

-- What follows a round, which returns if the flag is found.
unfoldable pub unless_found : Result Bool → Result Bool → Result Bool
unless_found (ok true) rest = ok true
unless_found (ok false) rest = rest
unless_found (fail e) rest = fail e

unfoldable pub flag_in_args : Text → List Text → Bool
flag_in_args name [] = false
flag_in_args name (arg ∷ args) = is_found (after_name name arg) || flag_in_args name args

-- `findEnvFlag`.
unfoldable pub find_env_flag : List Text → List Text → Text → Result Bool
find_env_flag argv [] name = ok (flag_in_args name (drop 1 argv))
find_env_flag argv (env ∷ envp) name =
    unless_found (flag_in name (after_name prefix_mfog env)) (find_env_flag argv envp name)

-- `IS_STDOUT` and `IS_STDERR`.
abbrev pub is_stdout : ℕ
is_stdout = b'o'

abbrev pub is_stderr : ℕ
is_stderr = b'e'

-- The loop of `isStdFile`, which adds up the characters of a name and those of the file's.
unfoldable pub sums : Text → Text → ℕ × ℕ
sums [] file_name = (0, 0)
sums (c ∷ name) [] = (c, 0)
sums (c ∷ name) (d ∷ file_name) = let (a, b) = sums name file_name in (c + a, d + b)

unfoldable pub is_std_file : Option Text → ℕ
is_std_file none = 0
is_std_file (some file_name) =
    let (a, b) = sums (b's' ∷ b't' ∷ b'd' ∷ b'o' ∷ b'u' ∷ b't' ∷ []) file_name in
    if a == b then is_stdout else if a == b then is_stderr else 0

-- A stream, or what `fopen` returns.
pub data Stream (H : Type 0) : Type 0 where
  std_out std_err : Stream H
  opened : H → Stream H

unfoldable pub as_stream : {H : Type 0} → Option H → Option (Stream H)
as_stream none = none
as_stream (some h) = some (opened h)

module _ {H : Type 0} (fopen : Text → Text → Option H) where
  -- `loadFileFromEnvValue`.
  unfoldable pub load_file_from_env_value : Option Text → Text → Option (Stream H)
  load_file_from_env_value none file_mode = none
  load_file_from_env_value (some file_name) file_mode =
      let kind = is_std_file (some file_name) in
      if kind == is_stdout
      then some std_out
      else if kind == is_stderr
      then some std_err
      else as_stream (fopen file_name file_mode)

  -- `loadEnvFile`, without the parameter in the environment: the defaults.
  unfoldable pub default_file :
      Option Text → Option (Stream H) → Text → Option Text × Option (Stream H)
  default_file file_name (some file) file_mode = (file_name, some file)
  default_file (some file_name) none file_mode =
      (some file_name, load_file_from_env_value (some file_name) file_mode)
  default_file none none [] = (none, none)
  default_file none none (c ∷ file_mode) =
      if c == b'w' || c == b'a'
      then (some (b's' ∷ b't' ∷ b'd' ∷ b'o' ∷ b'u' ∷ b't' ∷ []), some std_out)
      else (none, none)

  unfoldable pub chosen_file :
      Option Text → Option Text → Option (Stream H) → Text → Option Text × Option (Stream H)
  chosen_file none file_name file file_mode = default_file file_name file file_mode
  chosen_file (some value) file_name file file_mode =
      (some value, load_file_from_env_value (some value) file_mode)

  -- `loadEnvFile`: the name and the stream that it leaves behind its pointers.
  unfoldable pub load_env_file :
      List Text
      → List Text
      → Text
      → Option Text
      → Option (Stream H)
      → Text
      → Option Text × Option (Stream H)
  load_env_file argv envp var_name file_name file file_mode =
      chosen_file (find_env_var argv envp var_name) file_name file file_mode

-- The number behind the pointer, as the type says; `atoi` and `atof` are parameters.
unfoldable pub number_of : (Text → ℤ) → (Text → ℤ) → ℕ → Text → ℤ → ℤ
number_of atoi atof var_type value old =
    if var_type == b'i' then atoi value else if var_type == b'f' then atof value else old

unfoldable pub loaded :
    (Text → ℤ) → (Text → ℤ) → ℕ → Option Text → Option Text → ℤ → ℕ × Option Text × ℤ
loaded atoi atof var_type none str old = (1, str, old)
loaded atoi atof var_type (some value) str old =
    (0, some value, number_of atoi atof var_type value old)

-- `loadEnvVar`: what it returns, and what it leaves behind its two pointers.
unfoldable pub load_env_var :
    (Text → ℤ)
    → (Text → ℤ)
    → List Text
    → List Text
    → ℕ
    → Text
    → Option Text
    → ℤ
    → ℕ × Option Text × ℤ
load_env_var atoi atof argv envp var_type var_name str old =
    loaded atoi atof var_type (find_env_var argv envp var_name) str old

-- `closeEnvFile`: whether it closes a file that has a name and no error.
unfoldable pub close_env_file : Option Text → Bool
close_env_file none = false
close_env_file (some file_name) =
    let kind = is_std_file (some file_name) in
    if kind == is_stdout then false else if kind == is_stderr then false else true

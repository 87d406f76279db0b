-- ===== src/Data.antt =====
-- The data of src/base.h. An array of `dim` doubles is a list, a pointer into an array of clusters is
-- its index there, and a flag that the code only sets to 0 and 1 is a `Bool`.
use minas_flink.Prelude.{ℕ, Bool, List, length}

-- `Example`. The arrival time is only printed.
pub record Example (W : Type 0) : Type 0 where
  pub id : ℕ
  pub label : ℕ
  pub val : List W

-- `Cluster`, without the three fields that no function of base.c reads or writes (`timeLinearSum`,
-- `timeSquareSum`, `evictions`).
pub record Cluster (W : Type 0) : Type 0 where
  pub id : ℕ
  pub label : ℕ
  pub n_matches : ℕ
  pub n_misses : ℕ
  pub latest_match_id : ℕ
  pub extension_of : ℕ
  pub is_intrest : Bool
  pub is_sleep : Bool
  pub center : List W
  pub ls_val_linear_sum : List W
  pub ss_val_square_sum : List W
  pub distance_linear_sum : W
  pub distance_square_sum : W
  pub distance_max : W
  pub distance_avg : W
  pub distance_std_dev : W
  pub radius : W

-- `Model`. The list holds the `size` clusters in use, and `room` is the number of clusters that the
-- block behind `clusters` was last allocated for.
pub record Model (W : Type 0) : Type 0 where
  pub clusters : List (Cluster W)
  pub room : ℕ

abbrev pub size : {W : Type 0} → Model W → ℕ
size m = length m.clusters

-- `Match`.
pub record Match (W : Type 0) : Type 0 where
  pub point_id : ℕ
  pub label : ℕ
  pub is_match : Bool
  pub distance : W
  pub cluster : ℕ

-- `MinasParams`.
pub record MinasParams (W : Type 0) : Type 0 where
  pub k : ℕ
  pub dim : ℕ
  pub precision : W
  pub radius_f : W
  pub min_examples_per_cluster : ℕ
  pub novelty_f : W
  pub threshold_forgetting_past : ℕ
  pub novelty_detection_trigger : ℕ
  pub unknowns_max_size : ℕ

-- One entry of the array `unknowns`, an `Example`: its id, and the block that its pointer `val` points
-- to. Its label is never written, and stays 0.
pub record Slot : Type 0 where
  pub id : ℕ
  pub val : ℕ

-- The array `unknowns`, the blocks of doubles that `main` allocates for it, and `unknownsSize`.
pub record Buffer (W : Type 0) : Type 0 where
  pub slots : List Slot
  pub blocks : List (List W)
  pub used : ℕ

-- `MinasState`.
pub record MinasState (W : Type 0) : Type 0 where
  pub model : Model W
  pub unknowns : Buffer W
  pub last_nd_check : ℕ
  pub last_forget_check : ℕ
  pub curr_id : ℕ
  pub sleep_counter : ℕ
  pub next_label : ℕ
  pub next_id : ℕ

-- `MINAS_UNK_LABEL`, '-'.
abbrev pub minas_unk_label : ℕ
minas_unk_label = b'-'

-- The ways in which a call ends that does not return: `errx`, a failed `assert`, an access through a
-- null pointer or past the end of a block, a division by zero, and `exit`.
pub data Failure : Type 0 where
  not_enough_examples empty_model no_nearest_cluster null_pointer out_of_bounds zero_divisor
        incomplete_model too_many_classes exited wrong_id :
      Failure

pub data Result (A : Type 0) : Type 0 where
  ok : A → Result A
  fail : Failure → Result A

infixl 5 ◌>>=◌
abbrev pub ◌>>=◌ : {A B : Type 0} → Result A → (A → Result B) → Result B
ok a >>= f = f a
fail e >>= f = fail e

-- ===== src/Mpi.antt =====
-- src/threaded-mpi.c: the distributed program. Process 0 runs `sampler`, which sends the examples in
-- packets, and `detector`; each other process runs `classifier` threads and `m_receiver`. A thread is
-- a function of the messages that reach it, and the messages that it sends are part of its state.
pub mod Sampler
pub mod Receiver
pub mod Classifier
pub mod Detector
pub mod Gather
mod Tests
use minas_flink.Prelude.{ℕ, List, ◌==◌}

-- `MFOG_EOS_MARKER`, '\127', which is an octal code: the letter 'W'.
abbrev pub mfog_eos_marker : ℕ
mfog_eos_marker = 87

-- `MFOG_RANK_MAIN`.
abbrev pub mfog_rank_main : ℕ
mfog_rank_main = 0

-- `PACK_SIZE_MAX`.
abbrev pub pack_size_max : ℕ
pack_size_max = 12

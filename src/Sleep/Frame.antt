-- ===== src/Sleep/Frame.antt =====
-- What `restoreSleep` leaves alone.
use minas_flink.Prelude.{◌≡◌, arith, length-map}
use minas_flink.Data.{MinasState, size}
use minas_flink.Sleep.{wake, restore_sleep}

module _ {W : Type 0} (s : MinasState W) where
  pub size-restore_sleep : size (restore_sleep s).model ≡ size s.model
  unfolding restore_sleep
  size-restore_sleep = ground (arith, length-map (wake s.curr_id) s.model.clusters)

  pub unknowns-restore_sleep : (restore_sleep s).unknowns ≡ s.unknowns
  unfolding restore_sleep
  unknowns-restore_sleep = ground arith

  pub curr_id-restore_sleep : (restore_sleep s).curr_id ≡ s.curr_id
  unfolding restore_sleep
  curr_id-restore_sleep = ground arith

  pub last_nd_check-restore_sleep : (restore_sleep s).last_nd_check ≡ s.last_nd_check
  unfolding restore_sleep
  last_nd_check-restore_sleep = ground arith

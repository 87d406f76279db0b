-- ===== src/Unknowns/Tests.antt =====
-- Runs of the loops of `minasHandleUnknown` and of novelty detection, and instances of the theorems.
use minas_flink.Prelude.{
  ℕ, ◌+◌, ◌-◌, ◌≤◌, ◌<◌, ◌≡◌, refl, List, [], ◌∷◌, ◌++◌, take, length, arith, ltb, if◌then◌else◌,
  filter_if, u32, ◌⊎◌,
}
use minas_flink.Prelude.Int.{ℤ, pos}
use minas_flink.Double.Whole.{whole_double, Whole-IsIeee}
use minas_flink.Data.{Example, Cluster, Buffer, MinasState, ok}
use minas_flink.Sleep.{restore_sleep}
use minas_flink.Clustering.{clustering}
use minas_flink.Novelty.{Detection, novelty_detection}
use minas_flink.Novelty.Grows.{is_large, AreAdopted, novelty_detection-grows}
use minas_flink.Unknowns.{
  Unknown, contents, Verdict, garbage, kept, Tally, offset, no_tally, compact, detect_novelties,
  handle_unknown,
}
use minas_flink.Unknowns.Owned.{IsOwned}
use minas_flink.Unknowns.Compact.{is_kept, held, compact-filter}
use minas_flink.Unknowns.Detect.{IsChecked, detect_novelties-IsChecked}
use minas_flink.Unknowns.Bounded.{IsTaken, IsGrown, handle_unknown-fits}
use minas_flink.Samples.{roomy, example_at, params, state, buffer}

-- Discards the examples with an id below 41.
abbrev old_goes : Unknown ℤ → Verdict
old_goes u = if ltb u.id 41 then garbage else kept

compact-filter_example :
    (b : Buffer ℤ) × (t : Tally) × (compact (λ u. ok (old_goes u)) 2 0 buffer no_tally ≡ ok (b, t))
    × IsOwned b
    × (length b.slots ≡ 5)
    × (b.used ≡ 2)
    × (take (2 - offset t) (contents b) ≡ filter_if (λ u. is_kept (old_goes u)) (held buffer))
    × (offset t + length (filter_if (λ u. is_kept (old_goes u)) (held buffer)) ≡ 2)
compact-filter_example =
    compact-filter (λ u. ok (old_goes u)) old_goes buffer (λ u. refl) (omega arith) (omega arith)

abbrev strays : List (Example ℤ)
strays = example_at 40 70 ∷ example_at 41 72 ∷ []

novelty_detection-grows_example :
    (d : Detection ℤ) × (clusters new : List (Cluster ℤ)) × (clustering
        (pos 7)
        params
        strays
        (u32 (3 + 1))
      ≡ ok clusters)
    × (novelty_detection (pos 7) params state.model 0 strays ≡ ok d)
    × (d.model.clusters ≡ state.model.clusters ++ new)
    × AreAdopted 3 (filter_if (is_large params) clusters) new
    × (d.extensions + d.novelties ≡ length new)
    × (0 < length new)
    × (length new ≤ 1)
novelty_detection-grows_example =
    novelty_detection-grows Whole-IsIeee (pos 7) params state.model 0 strays (omega arith)
      (omega arith) (omega arith) (omega arith) (omega arith)

detect_novelties-IsChecked_example :
    (s : MinasState ℤ) × (n_new : ℕ) × (new : List (Cluster ℤ)) × (detect_novelties
        (pos 7)
        params
        state
      ≡ ok (s, n_new))
    × IsChecked Whole-IsIeee (pos 7) (restore_sleep state) s n_new new
detect_novelties-IsChecked_example =
    detect_novelties-IsChecked Whole-IsIeee (pos 7) params state (omega arith) (omega arith)
      (omega arith) (omega arith) (omega arith) (omega arith) (omega arith)

abbrev stray : Example ℤ
stray = example_at 42 71

handle_unknown-fits_example :
    (s : MinasState ℤ) × (n_new : ℕ) × (new : List (Cluster ℤ)) × (handle_unknown
        (pos 7)
        params
        state
        stray
      ≡ ok (s, n_new))
    × (s.unknowns.used < 4)
    × (length s.unknowns.slots ≡ 5)
    × (IsTaken params state stray s n_new ⊎ IsGrown params state stray s n_new new)
handle_unknown-fits_example = handle_unknown-fits Whole-IsIeee (pos 7) params state stray roomy

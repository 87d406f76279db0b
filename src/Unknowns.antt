-- ===== src/Unknowns.antt =====
-- `minasHandleUnknown` of src/base.c: the buffer of the unknown examples, novelty detection on it,
-- and the two loops that take examples out of it.
pub mod Owned
pub mod Compact
pub mod Detect
pub mod Bounded
mod Tests
use minas_flink.Prelude.{
  ℕ, zero, suc, ◌+◌, ◌-◌, List, map, Option, none, some, false, ◌&&◌, ◌||◌, get_elem?, get_or,
  modify, take, drop, Bool, [], ltb, leb, ◌==◌, if◌then◌else◌, add32, add64, sub64, u32, length,
}
use minas_flink.Double.{Double}
use minas_flink.Data.{
  Example, Cluster, Slot, Buffer, MinasParams, MinasState, size, Result, ok, fail,
  no_nearest_cluster, null_pointer, out_of_bounds, ◌>>=◌,
}
use minas_flink.Nearest.{nearest_cluster_val}
use minas_flink.Sleep.{restore_sleep}
use minas_flink.Novelty.{novelty_detection}

-- What an entry of the buffer holds: its id, and the doubles that its pointer leads to.
pub record Unknown (W : Type 0) : Type 0 where
  pub id : ℕ
  pub val : List W

-- Where `slots[i].val` points to.
abbrev pub block_of : List Slot → ℕ → Option ℕ
block_of slots i = elim (get_elem? slots i) [ none ↦ none | some s ↦ some s.val ]

module _ {W : Type 0} where
  unfoldable pub deref : List (List W) → Slot → Unknown W
  deref blocks s = record { id = s.id; val = get_or blocks s.val [] }

  -- What all entries hold, in order, and the examples among them that are in use.
  unfoldable pub contents : Buffer W → List (Unknown W)
  contents b = map (deref b.blocks) b.slots

  unfoldable pub to_example : Unknown W → Example W
  to_example u = record { id = u.id; label = 0; val = u.val }

  unfoldable pub examples : Buffer W → List (Example W)
  examples b = map to_example (take b.used (contents b))

  -- The copy of the doubles to a block; an entry out of bounds has none.
  abbrev pub write_block : List (List W) → Option ℕ → List W → List (List W)
  write_block blocks none val = blocks
  write_block blocks (some p) val = modify blocks p (λ _. val)

  -- `unknowns[i].id = id`, and the copy of the doubles `val` to where `unknowns[i].val` points.
  unfoldable pub store : Buffer W → ℕ → ℕ → List W → Buffer W
  store b i id val = record b {
    slots = modify b.slots i (λ s. record s { id = id });
    blocks = write_block b.blocks (block_of b.slots i) val;
  }

  unfoldable pub copy : Buffer W → ℕ → ℕ → Buffer W
  copy b to from = elim (get_elem? (contents b) from) [ none ↦ b | some u ↦ store b to u.id u.val ]

  -- `unknowns[to] = unknowns[from]`, which copies the pointer.
  unfoldable pub assign_slot : Buffer W → ℕ → ℕ → Buffer W
  assign_slot b to from = elim (get_elem? b.slots from) [
    | none ↦ b
    | some s ↦ record b { slots = modify b.slots to (λ _. s) }
  ]

-- What the first loop decides on an example. (`reclassified` is never counted up.)
pub data Verdict : Type 0 where
  consumed garbage kept : Verdict

pub record Tally : Type 0 where
  pub consumed : ℕ
  pub garbage_collected : ℕ

abbrev pub offset : Tally → ℕ
offset t = t.garbage_collected + t.consumed

abbrev pub no_tally : Tally
no_tally = record { consumed = 0; garbage_collected = 0 }

unfoldable pub tick : Tally → Verdict → Tally
tick t Verdict.consumed = record t { consumed = t.consumed + 1 }
tick t garbage = record t { garbage_collected = t.garbage_collected + 1 }
tick t kept = t

module _ {W : Type 0} where
  -- The first loop: `left` rounds from the index `ex` on.
  unfoldable pub compact :
      (Unknown W → Result Verdict) → ℕ → ℕ → Buffer W → Tally → Result (Buffer W × Tally)
  compact judge zero ex b t = ok (b, t)
  compact judge (suc left) ex b t =
      let b' = if ltb 0 (offset t) then copy b (ex - offset t) ex else b in
      elim (get_elem? (contents b') ex) [
        | none ↦ fail null_pointer
        | some u ↦ judge u >>= λ v. compact judge left (ex + 1) b' (tick t v)
      ]

  -- The second loop, with `garbageCollected`: it copies the values and then the whole entry.
  unfoldable pub collect : ℕ → ℕ → ℕ → Buffer W → ℕ → Buffer W × ℕ
  collect last_nd_check zero ex b n = (b, n)
  collect last_nd_check (suc left) ex b n =
      let b' = if ltb 0 n then copy b (ex - n) ex else b in
      let b'' = assign_slot b' (ex - n) ex in
      let id : ℕ = elim (get_elem? b''.slots ex) [ none ↦ 0 | some s ↦ s.id ] in
      collect last_nd_check left (ex + 1) b'' (if ltb id last_nd_check then n + 1 else n)

module _ {W : Type 0} ⦃D : Double W⦄ where
  -- The tests of the first loop, for the new clusters and the pointer and the distance found there.
  unfoldable pub judge_at : List (Cluster W) → ℕ → ℕ → Option ℕ × W → Result Verdict
  judge_at new last_nd_check id (none, distance) = fail no_nearest_cluster
  judge_at new last_nd_check id (some i, distance) = elim (get_elem? new i) [
    | none ↦ fail null_pointer
    | some c ↦
        if D.le distance c.distance_max
        then ok Verdict.consumed
        else if ltb id last_nd_check
        then ok garbage
        else ok kept
  ]

  unfoldable pub judge : W → List (Cluster W) → ℕ → Unknown W → Result Verdict
  judge junk new last_nd_check u =
      judge_at new last_nd_check u.id (nearest_cluster_val junk new u.val false)

  -- The new example at the end of the buffer.
  unfoldable pub take_unknown : MinasState W → Example W → MinasState W
  take_unknown s e =
      let b = store s.unknowns s.unknowns.used e.id e.val in
      record s { curr_id = e.id; unknowns = record b { used = add64 b.used 1 } }

  unfoldable pub is_due : MinasParams W → MinasState W → Bool
  is_due params s =
      s.unknowns.used == params.unknowns_max_size
      || (leb params.novelty_detection_trigger s.unknowns.used
          && ltb params.novelty_detection_trigger (sub64 s.curr_id s.last_nd_check))

  -- The body of the first `if` after `restoreSleep`; the number is `nNewClusters`. The length that
  -- `clustering` gets is an `unsigned int`.
  unfoldable pub detect_awake : W → MinasParams W → MinasState W → Result (MinasState W × ℕ)
  detect_awake junk params s = do
    let cut : Buffer W = record s.unknowns { used = u32 s.unknowns.used }
    d ← novelty_detection junk params s.model s.next_label (examples cut)
    let n_new = add32 d.novelties d.extensions
    let new = take n_new (drop (size s.model) d.model.clusters)
    (b, t) ← compact (judge junk new s.last_nd_check) s.unknowns.used 0 s.unknowns no_tally
    ok (
      record s {
        model = d.model;
        next_label = d.next_label;
        unknowns = record b { used = sub64 b.used (offset t) };
        last_nd_check = s.curr_id;
      },
      n_new,
    )

  unfoldable pub detect_novelties : W → MinasParams W → MinasState W → Result (MinasState W × ℕ)
  detect_novelties junk params s = detect_awake junk params (restore_sleep s)

  -- The second `if`.
  unfoldable pub collect_garbage : MinasParams W → MinasState W → MinasState W
  collect_garbage params s =
      let (b, n) = collect s.last_nd_check (s.unknowns.used - 1) 1 s.unknowns 1 in
      if leb params.unknowns_max_size s.unknowns.used
      then (record s { unknowns = record b { used = sub64 b.used n } })
      else s

  -- The example is written to the entry behind those in use, which has to be one of the buffer.
  unfoldable pub handle_unknown :
      W → MinasParams W → MinasState W → Example W → Result (MinasState W × ℕ)
  handle_unknown junk params state example =
      let s = take_unknown state example in
      let detected = detect_novelties junk params s in
      let checked = if is_due params s then detected else ok (s, 0) in
      let handled =
        checked >>= λ (out : MinasState W × ℕ). ok (collect_garbage params (out.0), out.1) in
      if ltb state.unknowns.used (length state.unknowns.slots) then handled else fail out_of_bounds

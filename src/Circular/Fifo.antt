-- ===== src/Circular/Fifo.antt =====
-- Any interleaving of calls: what is taken out is what was put in, in the same order.
use mathlib.Core.List.{append_assoc}
use minas_flink.Prelude.{
  ◌<◌, ◌≡◌, refl, ap, sym, ◌∙◌, List, [], ◌∷◌, ◌++◌, Option, none, some, length, inl, inr,
  Bool-cases,
}
use minas_flink.Circular.{Ring, is_buffer_full, is_buffer_empty, try_enqueue, try_dequeue, init}
use minas_flink.Circular.Contents.{
  IsRing, contents, count-lt, length-contents, try_enqueue-contents, try_dequeue-contents,
  try_enqueue-full, try_dequeue-empty,
}

-- One round of a call by any thread, with the pointer that it passes.
pub data Call (A : Type 0) : Type 0 where
  enqueue : A → Call A
  dequeue : A → Call A

-- The ring, and what has been put into it and taken out of it.
pub record History (A : Type 0) : Type 0 where
  pub ring : Ring A
  pub sent : List A
  pub received : List A

module _ {A : Type 0} where
  abbrev pub optional : Option A → List A
  optional none = []
  optional (some x) = x ∷ []

  -- A round that is blocked changes nothing.
  abbrev pub after_enqueue : History A → A → Option (Ring A × Option A) → History A
  after_enqueue s x none = s
  after_enqueue s x (some (r, y)) = record s { ring = r; sent = s.sent ++ (x ∷ []) }

  abbrev pub after_dequeue : History A → Option (Ring A × Option A) → History A
  after_dequeue s none = s
  after_dequeue s (some (r, y)) = record s { ring = r; received = s.received ++ optional y }

  unfoldable pub attempt : History A → Call A → History A
  attempt s (enqueue x) = after_enqueue s x (try_enqueue s.ring x)
  attempt s (dequeue x) = after_dequeue s (try_dequeue s.ring x)

  unfoldable pub run : History A → List (Call A) → History A
  run s [] = s
  run s (c ∷ cs) = run (attempt s c) cs

  abbrev pub start : List A → History A
  start fresh = record { ring = init fresh; sent = []; received = [] }

  pub record IsFifo (s : History A) : Type 0 where
    pub ring : IsRing s.ring
    pub order : s.received ++ contents s.ring ≡ s.sent

  attempt-IsFifo : (s : History A) (c : Call A) → IsFifo s → IsFifo (attempt s c)
  unfolding attempt
  attempt-IsFifo s (enqueue x) v = elim (Bool-cases (is_buffer_full s.ring)) [
    | inl full ↦ rw (try_enqueue-full s.ring x full) v
    | inr free ↦
        let (r, y, run, ring, order, _, _) = try_enqueue-contents s.ring x v.ring free in
        rw run (record {
          ring = ring;
          order =
              ap (λ l. s.received ++ l) order
              ∙ sym (append_assoc s.received (contents s.ring) (x ∷ []))
              ∙ ap (λ l. l ++ (x ∷ [])) v.order;
        })
  ]
  attempt-IsFifo s (dequeue x) v = elim (Bool-cases (is_buffer_empty s.ring)) [
    | inl empty ↦ rw (try_dequeue-empty s.ring x empty) v
    | inr free ↦
        let (r, y, run, ring, order, _, _) = try_dequeue-contents s.ring x v.ring free in
        rw run (record {
          ring = ring;
          order =
              append_assoc s.received (y ∷ []) (contents r)
              ∙ ap (λ l. s.received ++ l) (sym order)
              ∙ v.order;
        })
  ]

  run-IsFifo : (cs : List (Call A)) (s : History A) → IsFifo s → IsFifo (run s cs)
  unfolding run
  run-IsFifo [] s v = v
  run-IsFifo (c ∷ cs) s v = run-IsFifo cs (attempt s c) (attempt-IsFifo s c v)

  -- However the calls of any number of threads interleave, from a fresh buffer with at least one
  -- entry: what has been taken out, followed by what waits in the buffer, is what has been put in, in
  -- order; and the buffer always has an entry free.
  pub run-order :
      (fresh : List A) (cs : List (Call A))
      → 0 < length fresh
      → let s = run (start fresh) cs in
        (s.received ++ contents s.ring ≡ s.sent) × (length (contents s.ring) < s.ring.size)
  unfolding init
  run-order fresh cs h =
      let s = run (start fresh) cs in
      let begin : IsFifo (start fresh) = record {
        ring = record { room = refl; head_in = h; tail_in = h };
        order = refl;
      } in
      let v = run-IsFifo cs (start fresh) begin in
      (v.order, rw (length-contents s.ring v.ring) (count-lt s.ring v.ring))

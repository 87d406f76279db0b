-- ===== src/Circular/Threads.antt =====
-- One thread that calls `CEB_enqueue` for ever and one that calls `CEB_dequeue`, with the semaphores:
-- the two never both wait in vain.
use minas_flink.Prelude.{
  ℕ, ◌+◌, ◌-◌, ◌≤◌, ◌<◌, ◌≡◌, refl, ap, ◌∙◌, subst, Bool, true, false, List, Option, none, some,
  arith, length, ◌==◌, ◌⊎◌, inl, inr, Bool-cases, if◌then◌else◌,
}
use minas_flink.Circular.{Ring, is_buffer_full, is_buffer_empty, try_enqueue, try_dequeue, init}
use minas_flink.Circular.Contents.{
  IsRing, count, full-count, empty-count, try_enqueue-contents, try_dequeue-contents,
  try_enqueue-full, try_dequeue-empty,
}

-- Where a thread stands: before its test, between a failed test and the `sem_post` that follows it,
-- in `sem_wait`, and between its change and the `sem_post` that follows it.
pub data Phase : Type 0 where
  trying giving_way asleep telling : Phase

pub record System (A : Type 0) : Type 0 where
  pub ring : Ring A
  pub full_signal : ℕ
  pub empty_signal : ℕ
  pub producer : Phase
  pub consumer : Phase

abbrev is_waiting : Phase → Bool
is_waiting giving_way = true
is_waiting asleep = true
is_waiting _ = false

-- A signal that a thread is about to give.
abbrev pending : Phase → ℕ
pending telling = 1
pending _ = 0

module _ {A : Type 0} where
  -- The end of a round of the producer, and of the consumer.
  abbrev pub enqueued : System A → Option (Ring A × Option A) → System A
  enqueued s none = record s { producer = giving_way }
  enqueued s (some (r, y)) = record s { ring = r; producer = telling }

  abbrev pub dequeued : System A → Option (Ring A × Option A) → System A
  dequeued s none = record s { consumer = giving_way }
  dequeued s (some (r, y)) = record s { ring = r; consumer = telling }

  -- A step of the producer in its phase, or none while `sem_wait` does not return.
  abbrev pub produce : Phase → System A → A → Option (System A)
  produce trying s x = some (enqueued s (try_enqueue s.ring x))
  produce giving_way s x = some (record s { full_signal = s.full_signal + 1; producer = asleep })
  produce asleep s x =
      if s.empty_signal == 0
      then none
      else some (record s { empty_signal = s.empty_signal - 1; producer = trying })
  produce telling s x = some (record s { full_signal = s.full_signal + 1; producer = trying })

  abbrev pub consume : Phase → System A → A → Option (System A)
  consume trying s x = some (dequeued s (try_dequeue s.ring x))
  consume giving_way s x = some (record s { empty_signal = s.empty_signal + 1; consumer = asleep })
  consume asleep s x =
      if s.full_signal == 0
      then none
      else some (record s { full_signal = s.full_signal - 1; consumer = trying })
  consume telling s x = some (record s { empty_signal = s.empty_signal + 1; consumer = trying })

  unfoldable pub step_producer : System A → A → Option (System A)
  step_producer s x = produce s.producer s x

  unfoldable pub step_consumer : System A → A → Option (System A)
  step_consumer s x = consume s.consumer s x

  -- The states that the two threads can bring about together.
  pub data Reach (s : System A) : System A → Type 0 where
    here : Reach s s
    produced : {t u : System A} (x : A) → Reach s t → step_producer t x ≡ some u → Reach s u
    consumed : {t u : System A} (x : A) → Reach s t → step_consumer t x ≡ some u → Reach s u

  abbrev pub begin : List A → System A
  begin fresh = record {
    ring = init fresh;
    full_signal = 0;
    empty_signal = 0;
    producer = trying;
    consumer = trying;
  }

  -- While a thread waits, each change of the other one since its test has given or will give a signal.
  record IsAlive (size : ℕ) (s : System A) : Type 0 where
    ring : IsRing s.ring
    same : s.ring.size ≡ size
    filled : is_waiting s.consumer ≡ true → count s.ring ≤ s.full_signal + pending s.producer
    freed :
        is_waiting s.producer ≡ true → size ≤ count s.ring + 1 + s.empty_signal + pending s.consumer

  abbrev Kept : ℕ → Option (System A) → Type 0
  Kept size none = Unit
  Kept size (some u) = IsAlive size u

  produce-Kept :
      (size : ℕ) (p : Phase) (s : System A) (x : A)
      → s.producer ≡ p
      → IsAlive size s
      → Kept size (produce p s x)
  produce-Kept size trying s x at v =
      let idle : pending s.producer ≡ 0 = ap pending at in
      elim (Bool-cases (is_buffer_full s.ring)) [
        | inl full ↦
            let all = full-count s.ring v.ring full in
            rw (try_enqueue-full s.ring x full) (record {
              ring = v.ring;
              same = v.same;
              filled = λ w. omega (arith, v.filled w);
              freed = λ w. omega (arith, v.same);
            })
        | inr free ↦
            let (r, y, run, ring, _, more, same) = try_enqueue-contents s.ring x v.ring free in
            rw run (record {
              ring = ring;
              same = same ∙ v.same;
              filled = λ w. omega (arith, v.filled w);
              freed = λ w. absurd (cc w);
            })
      ]
  produce-Kept size giving_way s x at v =
      let idle : pending s.producer ≡ 0 = ap pending at in
      record {
        ring = v.ring;
        same = v.same;
        filled = λ w. omega (arith, v.filled w);
        freed = λ w. v.freed (ap is_waiting at);
      }
  produce-Kept size asleep s x at v =
      let idle : pending s.producer ≡ 0 = ap pending at in
      elim (Bool-cases (s.empty_signal == 0)) [
        | inl none_left ↦ rw none_left tt
        | inr some_left ↦ rw some_left (record {
          ring = v.ring;
          same = v.same;
          filled = λ w. omega (arith, v.filled w);
          freed = λ w. absurd (cc w);
        })
      ]
  produce-Kept size telling s x at v =
      let busy : pending s.producer ≡ 1 = ap pending at in
      record {
        ring = v.ring;
        same = v.same;
        filled = λ w. omega (arith, v.filled w);
        freed = λ w. absurd (cc w);
      }

  consume-Kept :
      (size : ℕ) (p : Phase) (s : System A) (x : A)
      → s.consumer ≡ p
      → IsAlive size s
      → Kept size (consume p s x)
  consume-Kept size trying s x at v =
      let idle : pending s.consumer ≡ 0 = ap pending at in
      elim (Bool-cases (is_buffer_empty s.ring)) [
        | inl empty ↦
            let all = empty-count s.ring v.ring empty in
            rw (try_dequeue-empty s.ring x empty) (record {
              ring = v.ring;
              same = v.same;
              filled = λ w. omega arith;
              freed = λ w. omega (arith, v.freed w);
            })
        | inr waiting ↦
            let (r, y, run, ring, _, fewer, same) = try_dequeue-contents s.ring x v.ring waiting in
            rw run (record {
              ring = ring;
              same = same ∙ v.same;
              filled = λ w. absurd (cc w);
              freed = λ w. omega (arith, v.freed w);
            })
      ]
  consume-Kept size giving_way s x at v =
      let idle : pending s.consumer ≡ 0 = ap pending at in
      record {
        ring = v.ring;
        same = v.same;
        filled = λ w. v.filled (ap is_waiting at);
        freed = λ w. omega (arith, v.freed w);
      }
  consume-Kept size asleep s x at v =
      let idle : pending s.consumer ≡ 0 = ap pending at in
      elim (Bool-cases (s.full_signal == 0)) [
        | inl none_left ↦ rw none_left tt
        | inr some_left ↦ rw some_left (record {
          ring = v.ring;
          same = v.same;
          filled = λ w. absurd (cc w);
          freed = λ w. omega (arith, v.freed w);
        })
      ]
  consume-Kept size telling s x at v =
      let busy : pending s.consumer ≡ 1 = ap pending at in
      record {
        ring = v.ring;
        same = v.same;
        filled = λ w. absurd (cc w);
        freed = λ w. omega (arith, v.freed w);
      }

  Reach-IsAlive : (size : ℕ) {s t : System A} → IsAlive size s → Reach s t → IsAlive size t
  unfolding step_producer step_consumer
  Reach-IsAlive size v here = v
  Reach-IsAlive size v (produced {t} x r run) =
      subst (Kept size) run (produce-Kept size t.producer t x refl (Reach-IsAlive size v r))
  Reach-IsAlive size v (consumed {t} x r run) =
      subst (Kept size) run (consume-Kept size t.consumer t x refl (Reach-IsAlive size v r))

  begin-IsAlive : (fresh : List A) → 0 < length fresh → IsAlive (length fresh) (begin fresh)
  unfolding init
  begin-IsAlive fresh h = record {
    ring = record { room = refl; head_in = h; tail_in = h };
    same = refl;
    filled = λ w. absurd (cc w);
    freed = λ w. absurd (cc w);
  }

  abbrev pub CanStep : System A → A → Type 0
  CanStep s x =
      ((t : System A) × (step_producer s x ≡ some t))
      ⊎ ((t : System A) × (step_consumer s x ≡ some t))

  produce-cases :
      (p : Phase) (s : System A) (x : A)
      → ((t : System A) × (produce p s x ≡ some t)) ⊎ ((p ≡ asleep) × (s.empty_signal ≡ 0))
  produce-cases trying s x = inl (_, refl)
  produce-cases giving_way s x = inl (_, refl)
  produce-cases telling s x = inl (_, refl)
  produce-cases asleep s x = elim (Bool-cases (s.empty_signal == 0)) [
    | inl none_left ↦ inr (refl, ground arith)
    | inr some_left ↦
        inl (record s { empty_signal = s.empty_signal - 1; producer = trying }, rw some_left refl)
  ]

  consume-cases :
      (p : Phase) (s : System A) (x : A)
      → ((t : System A) × (consume p s x ≡ some t)) ⊎ ((p ≡ asleep) × (s.full_signal ≡ 0))
  consume-cases trying s x = inl (_, refl)
  consume-cases giving_way s x = inl (_, refl)
  consume-cases telling s x = inl (_, refl)
  consume-cases asleep s x = elim (Bool-cases (s.full_signal == 0)) [
    | inl none_left ↦ inr (refl, ground arith)
    | inr some_left ↦
        inl (record s { full_signal = s.full_signal - 1; consumer = trying }, rw some_left refl)
  ]

  -- One producer and one consumer never block each other: in every state that they reach from a fresh
  -- buffer with at least two entries, one of them can make a step.
  pub Reach-CanStep :
      (fresh : List A) (s : System A) (x : A)
      → 2 ≤ length fresh
      → Reach (begin fresh) s
      → CanStep s x
  unfolding step_producer step_consumer
  Reach-CanStep fresh s x room r =
      let v = Reach-IsAlive (length fresh) (begin-IsAlive fresh (omega arith)) r in
      elim (produce-cases s.producer s x) [
        | inl step ↦ inl step
        | inr (producer, no_empty) ↦ elim (consume-cases s.consumer s x) [
          | inl step ↦ inr step
          | inr (consumer, no_full) ↦
              let idle : pending s.producer ≡ 0 = ap pending producer in
              let idle' : pending s.consumer ≡ 0 = ap pending consumer in
              let filled = v.filled (ap is_waiting consumer) in
              let freed = v.freed (ap is_waiting producer) in absurd (omega arith)
        ]
      ]

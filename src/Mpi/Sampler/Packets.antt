-- ===== src/Mpi/Sampler/Packets.antt =====
-- The packets hold every example once and in order, and go to one process after the other.
use mathlib.Core.List.{append-nil, append_assoc}
use minas_flink.Prelude.{
  ℕ, suc, ◌+◌, ◌-◌, ◌≤◌, ◌<◌, ◌≡◌, refl, ap, sym, ◌∙◌, subst, List, [], ◌∷◌, ◌++◌, arith, length,
  length-append, All, All-append, ltb, inl, inr, Bool-cases, ltb→lt, add64, u64_mod,
}
use minas_flink.Data.{Example}
use minas_flink.Mpi.Sampler.{
  Packet, Sampler, next_dest, send_packet, take_sample, take_samples, flush,
}
use minas_flink.Mpi.Sampler.Rounds.{
  next_dest-after, after-lt, nil_of_length, unpacked, unpacked-append, Rounds, Rounds-append,
  IsPacket, samples, IsSampling,
}

module _ {W : Type 0} (packet_size mpi_size : ℕ) where
  send_packet-IsSampling :
      (all : List (Example W)) (s : Sampler W)
      → 1 < mpi_size
      → 0 < length s.sample_buffer
      → length s.sample_buffer ≤ packet_size
      → IsSampling packet_size mpi_size all s
      → IsSampling packet_size mpi_size all (send_packet mpi_size s)
        × ((send_packet mpi_size s).sample_buffer ≡ [])
        × ((send_packet mpi_size s).next_id ≡ s.next_id)
  unfolding send_packet
  send_packet-IsSampling all s many some_example fits v =
      let dest = next_dest mpi_size s.dest in
      let p : Packet W = record { dest = dest; examples = s.sample_buffer } in
      let next = next_dest-after mpi_size s.dest many v.inside in
      let (not_main, inside) = after-lt mpi_size s.dest many v.inside in
      let good : IsPacket packet_size mpi_size p = record {
        some_example = some_example;
        fits = fits;
        not_main = rw next not_main;
        inside = rw next inside;
      } in
      (
        record {
          order =
              append-nil (unpacked (s.sent ++ (p ∷ [])))
              ∙ unpacked-append s.sent (p ∷ [])
              ∙ ap (λ l. unpacked s.sent ++ l) (append-nil s.sample_buffer)
              ∙ v.order;
          sized = All-append (IsPacket packet_size mpi_size) s.sent (p ∷ []) v.sized (good, tt);
          rounds = Rounds-append mpi_size 0 s.sent p s.dest v.rounds next;
          inside = rw next inside;
        },
        refl,
        refl,
      )

  flush-empty :
      (all : List (Example W)) (s : Sampler W)
      → 1 < mpi_size
      → length s.sample_buffer < packet_size
      → IsSampling packet_size mpi_size all s
      → IsSampling packet_size mpi_size all (flush mpi_size s)
        × ((flush mpi_size s).sample_buffer ≡ [])
  unfolding flush
  flush-empty all s many room v = elim (Bool-cases (ltb 0 (length s.sample_buffer))) [
    | inl left ↦
        let (w, empty, _) =
          send_packet-IsSampling all s many (ltb→lt 0 (length s.sample_buffer) left) (omega arith)
            v in
        rw left (w, empty)
    | inr none_left ↦ rw none_left (v, nil_of_length s.sample_buffer (ground arith))
  ]

module _ {W : Type 0} (junk packet_size mpi_size : ℕ) where
  take_sample-IsSampling :
      (all : List (Example W)) (s : Sampler W) (val : List W)
      → 1 < mpi_size
      → s.next_id + 1 < u64_mod
      → length s.sample_buffer < packet_size
      → IsSampling packet_size mpi_size all s
      → let s' = take_sample junk packet_size mpi_size s val in
        let e : Example W = record { id = s.next_id; label = junk; val = val } in
        IsSampling packet_size mpi_size (all ++ (e ∷ [])) s'
        × (length s'.sample_buffer < packet_size)
        × (s'.next_id ≡ suc s.next_id)
  unfolding take_sample
  take_sample-IsSampling all s val many small room v =
      let e : Example W = record { id = s.next_id; label = junk; val = val } in
      let taken : Sampler W = record s {
        next_id = add64 s.next_id 1;
        sample_buffer = s.sample_buffer ++ (e ∷ []);
      } in
      let len = length-append s.sample_buffer (e ∷ []) in
      let next : add64 s.next_id 1 ≡ suc s.next_id = omega arith in
      let w : IsSampling packet_size mpi_size (all ++ (e ∷ [])) taken = record {
        order =
            sym (append_assoc (unpacked s.sent) s.sample_buffer (e ∷ []))
            ∙ ap (λ l. l ++ (e ∷ [])) v.order;
        sized = v.sized;
        rounds = v.rounds;
        inside = v.inside;
      } in
      elim (Bool-cases (ltb (length taken.sample_buffer) packet_size)) [
        | inl more ↦ rw more (w, ltb→lt (length taken.sample_buffer) packet_size more, next)
        | inr full ↦
            let (w', empty, same) =
              send_packet-IsSampling packet_size mpi_size (all ++ (e ∷ [])) taken many (omega arith)
                (omega arith) w in
            rw full (w', rw empty (omega arith), same ∙ next)
      ]

  take_samples-IsSampling :
      (vals : List (List W)) (all : List (Example W)) (s : Sampler W)
      → 1 < mpi_size
      → s.next_id + length vals < u64_mod
      → length s.sample_buffer < packet_size
      → IsSampling packet_size mpi_size all s
      → let s' = take_samples junk packet_size mpi_size s vals in
        IsSampling packet_size mpi_size (all ++ samples junk s.next_id vals) s'
        × (length s'.sample_buffer < packet_size)
  unfolding take_samples
  take_samples-IsSampling [] all s many small room v =
      (subst (λ l. IsSampling packet_size mpi_size l s) (sym (append-nil all)) v, room)
  take_samples-IsSampling (val ∷ vals) all s many small room v =
      let e : Example W = record { id = s.next_id; label = junk; val = val } in
      let s' = take_sample junk packet_size mpi_size s val in
      let (w, room', next) = take_sample-IsSampling all s val many (omega arith) room v in
      let (w', room'') =
        take_samples-IsSampling vals (all ++ (e ∷ [])) s' many (omega arith) room' w in
      let same : (all ++ (e ∷ [])) ++ samples junk s'.next_id vals
          ≡ all ++ samples junk s.next_id (val ∷ vals) =
        append_assoc all (e ∷ []) (samples junk s'.next_id vals)
        ∙ ap (λ n. all ++ (e ∷ samples junk n vals)) next in
      (
        subst
            (λ l.
              IsSampling packet_size mpi_size l (take_samples junk packet_size mpi_size s' vals))
            same w',
        room'',
      )

  abbrev pub first_sampler : List ℕ → Sampler W
  first_sampler items_where = record {
    next_id = 0;
    sample_buffer = [];
    dest = 0;
    items_where = items_where;
    sent = [];
  }

  -- The packets that the sampler has sent once the input ends hold the examples of all lines once
  -- each, in the order of the lines and numbered by them. Each packet has at least one example and at
  -- most `packetSize`, and goes to the process after that of the packet before, from process 1 on and
  -- never to process 0. This holds for at least two processes, a `packetSize` that is not 0, and fewer
  -- than 2^64 - 1 lines.
  pub flush-IsSampling :
      (vals : List (List W)) (items_where : List ℕ)
      → 1 < mpi_size
      → 0 < packet_size
      → length vals < u64_mod - 1
      → let s =
          flush mpi_size
            (take_samples junk packet_size mpi_size (first_sampler items_where) vals) in
        (unpacked s.sent ≡ samples junk 0 vals)
        × All (IsPacket packet_size mpi_size) s.sent
        × Rounds mpi_size 0 s.sent s.dest
  flush-IsSampling vals items_where many some_size small =
      let s = take_samples junk packet_size mpi_size (first_sampler items_where) vals in
      let start : IsSampling packet_size mpi_size [] (first_sampler items_where) = record {
        order = refl;
        sized = tt;
        rounds = refl;
        inside = omega arith;
      } in
      let (v, room) =
        take_samples-IsSampling vals [] (first_sampler items_where) many (omega arith) some_size
          start in
      let s' = flush mpi_size s in
      let (w, empty) = flush-empty packet_size mpi_size (samples junk 0 vals) s many room v in
      (
        sym (append-nil (unpacked s'.sent)) ∙ ap (λ l. unpacked s'.sent ++ l) (sym empty) ∙ w.order,
        w.sized,
        w.rounds,
      )

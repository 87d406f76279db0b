-- ===== src/Mpi/Sampler/Rounds.antt =====
-- The order of the processes, and what the packets of a sampler are.
use mathlib.Core.List.{append_assoc}
use native.Mathlib.Nat.{mod-eq_of_lt, mod_self}
use native.Mathlib.Decide.{ℕ_discrete}
use minas_flink.Prelude.{
  ℕ, suc, ◌+◌, ◌%◌, ◌≤◌, ◌<◌, ◌≡◌, refl, ap, sym, ◌∙◌, subst, List, [], ◌∷◌, ◌++◌, arith, length,
  All, ◌==◌, if◌then◌else◌,
}
use minas_flink.Data.{Example}
use minas_flink.Mpi.Sampler.{Packet, Sampler, pick_dest, next_dest}

-- The process after `dest`, which is never process 0.
abbrev pub after : ℕ → ℕ → ℕ
after mpi_size dest = if suc dest == mpi_size then 1 else suc dest

pub next_dest-after :
    (mpi_size dest : ℕ)
    → 1 < mpi_size
    → dest < mpi_size
    → next_dest mpi_size dest ≡ after mpi_size dest
unfolding pick_dest
next_dest-after mpi_size dest many inside = elim (ℕ_discrete (dest + 1) mpi_size) [
  | yes e ↦
      let wrap : (dest + 1) % mpi_size ≡ 0 =
        subst (λ n. (dest + 1) % n ≡ 0) e (mod_self (dest + 1)) in
      let first : (0 + 1) % mpi_size ≡ 1 = mod-eq_of_lt {n = 1} {m = mpi_size} many in
      rw (wrap, first) (ground arith)
  | no ne ↦
      let step : (dest + 1) % mpi_size ≡ dest + 1 =
        mod-eq_of_lt {n = dest + 1} {m = mpi_size} (omega arith) in
      rw step (ground arith)
]

pub after-lt :
    (mpi_size dest : ℕ)
    → 1 < mpi_size
    → dest < mpi_size
    → (0 < after mpi_size dest) × (after mpi_size dest < mpi_size)
after-lt mpi_size dest many inside = ground arith

pub nil_of_length {ℓ} : {A : Type ℓ} (xs : List A) → length xs ≡ 0 → xs ≡ []
nil_of_length [] h = refl
nil_of_length (x ∷ xs) h = absurd (omega arith)

module _ {W : Type 0} where
  -- The examples of all packets, in order.
  abbrev pub unpacked : List (Packet W) → List (Example W)
  unpacked [] = []
  unpacked (p ∷ ps) = p.examples ++ unpacked ps

  pub unpacked-append : (ps qs : List (Packet W)) → unpacked (ps ++ qs) ≡ unpacked ps ++ unpacked qs
  unpacked-append [] qs = refl
  unpacked-append (p ∷ ps) qs =
      ap (λ l. p.examples ++ l) (unpacked-append ps qs)
      ∙ sym (append_assoc p.examples (unpacked ps) (unpacked qs))

  -- Each packet goes to the process after that of the packet before, from `dest` to `last`.
  abbrev pub Rounds : ℕ → ℕ → List (Packet W) → ℕ → Type 0
  Rounds mpi_size dest [] last = dest ≡ last
  Rounds mpi_size dest (p ∷ ps) last =
      (p.dest ≡ after mpi_size dest) × Rounds mpi_size p.dest ps last

  pub Rounds-append :
      (mpi_size dest : ℕ) (ps : List (Packet W)) (p : Packet W) (last : ℕ)
      → Rounds mpi_size dest ps last
      → p.dest ≡ after mpi_size last
      → Rounds mpi_size dest (ps ++ (p ∷ [])) p.dest
  Rounds-append mpi_size dest [] p last r e = (rw r e, refl)
  Rounds-append mpi_size dest (q ∷ ps) p last (e', r) e =
      (e', Rounds-append mpi_size q.dest ps p last r e)

  -- The size of a packet, and its process.
  pub record IsPacket (packet_size mpi_size : ℕ) (p : Packet W) : Type 0 where
    pub some_example : 0 < length p.examples
    pub fits : length p.examples ≤ packet_size
    pub not_main : 0 < p.dest
    pub inside : p.dest < mpi_size

  -- The examples of the lines, numbered from `id` on.
  abbrev pub samples : ℕ → ℕ → List (List W) → List (Example W)
  samples junk id [] = []
  samples junk id (val ∷ vals) =
      record { id = id; label = junk; val = val } ∷ samples junk (suc id) vals

  pub record IsSampling (packet_size mpi_size : ℕ) (all : List (Example W)) (s : Sampler W)
      : Type 0 where
    pub order : unpacked s.sent ++ s.sample_buffer ≡ all
    pub sized : All (IsPacket packet_size mpi_size) s.sent
    pub rounds : Rounds mpi_size 0 s.sent s.dest
    pub inside : s.dest < mpi_size

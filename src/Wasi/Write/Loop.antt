-- ===== src/Wasi/Write/Loop.antt =====
-- The loops of `fd_write`: what they print, and that they return.
use mathlib.Core.Path.{subst}
use native.Mathlib.Nat.{add-zero}
use wasrisc.Base.{
  ℕ, zero, suc, ◌+◌, ◌-◌, ◌^◌, ◌≤◌, ◌<◌, ◌≡◌, refl, ap, ◌∙◌, arith, List, [], ◌∷◌, ◌++◌, Bool, Bool,
  true, false, ◌==◌, length, length-append, codes, ltb, ◌&&◌, if◌then◌else◌,
}
use wasrisc.Host.{Libc, Wasm}
use wasrisc.Machine.{pure, and_then, ◌>>◌, Ensures, Ensures-bind, Ensures-mono}
use wasrisc.Machine.Word.{u8}
use wasrisc.Wasi.{State, print, Printed}
use wasrisc.Wasi.Printing.{Printed-refl, Printed-trans, print-Printed, put-Printed}
use wasrisc.Wasi.Write.{is_other, iovecs_size, announce, put_bytes, write_ciovecs}
use wasrisc.Wasi.Write.Gather.{
  region, length_at, base_at, lengths, announced, transcript, length-region,
}

module _ (libc : Libc) (wasm : Wasm) where
  abbrev S : Type 0
  S = State libc.Device wasm.Linear

  room_eq : {k n : ℕ} (s : S) → k ≡ n → libc.Accepts k s.device → libc.Accepts n s.device
  room_eq s e a = subst (λ l. libc.Accepts l s.device) e a

  announce_if-Printed :
      (other : Bool) (fmt args : List ℕ) (n : ℕ) (s : S)
      → libc.Accepts (length (if other then libc.formatted fmt args else []) + n) s.device
      → Ensures
          ((if other then print libc fmt args >> pure tt else pure tt) s)
          (λ _. Printed libc (if other then libc.formatted fmt args else []) n s)
  announce_if-Printed true fmt args n s room =
      Ensures-bind (print-Printed libc fmt args n s room) λ _ t p. (tt, t, refl, p)
  announce_if-Printed false fmt args n s room =
      (tt, s, refl, Printed-refl libc n s (room_eq s (omega arith) room))

  pub announce-Printed :
      (wasi_fd : ℕ) (fmt args : List ℕ) (n : ℕ) (s : S)
      → libc.Accepts (length (announced libc wasi_fd fmt args) + n) s.device
      → Ensures
          (announce libc wasm wasi_fd fmt args s)
          (λ _. Printed libc (announced libc wasi_fd fmt args) n s)
  unfolding announce
  announce-Printed wasi_fd = announce_if-Printed (is_other wasi_fd)

  pub put_bytes-Printed :
      (m : wasm.Linear) (k size i base n : ℕ) (s : S)
      → s.memory ≡ m
      → size ≡ i + k
      → size < 2 ^ 31
      → libc.Accepts (k + n) s.device
      → Ensures
          (put_bytes libc wasm (suc k) size i base s)
          (λ _. Printed libc (region wasm m k (base + i)) n s)
  unfolding put_bytes region
  put_bytes-Printed m zero size i base n s e sizes small room =
      let at_end : ltb i size ≡ false = ground (arith, sizes) in
      rw at_end (tt, s, refl, Printed-refl libc n s (room_eq s (omega arith) room))
  put_bytes-Printed m (suc k) size i base n s e sizes small room =
      let within : ltb i size ≡ true = ground (arith, sizes) in
      let last : (i == 2 ^ 31 - 1) ≡ false = ground arith in
      let next : base + (i + 1) ≡ base + i + 1 = omega arith in
      rw within (
        Ensures-bind
          (put-Printed libc (wasm.byte s.memory (base + i)) (k + n) s
            (room_eq s (omega arith) room))
          λ _ t p. rw last (
            Ensures-mono
              (put_bytes-Printed m k size (i + 1) base n t (p.memory ∙ e) (omega arith) small
                p.room)
              λ _ u q.
                Printed-trans libc
                  (subst (λ b. Printed libc (u8 (wasm.byte b (base + i)) ∷ []) (k + n) s t) e p)
                  (subst (λ b. Printed libc (region wasm m k b) n t u) next q)))

  -- The whole loop over one buffer.
  pub put_buffer-Printed :
      (m : wasm.Linear) (k base n : ℕ) (s : S)
      → s.memory ≡ m
      → k < 2 ^ 31
      → libc.Accepts (k + n) s.device
      → Ensures
          (put_bytes libc wasm (suc k) k 0 base s)
          (λ _. Printed libc (region wasm m k base) n s)
  put_buffer-Printed m k base n s e small room =
      subst
        (λ b.
          Ensures (put_bytes libc wasm (suc k) k 0 base s)
            (λ _. Printed libc (region wasm m k b) n s))
        (add-zero base) (put_bytes-Printed m k k 0 base n s e (omega arith) small room)

  module _ (m : wasm.Linear) (wasi_fd p count : ℕ) where
    abbrev len_at : ℕ → ℕ
    len_at index = length_at wasm m p index

    abbrev label_at : ℕ → List ℕ
    label_at index = announced libc wasi_fd (codes "length = %d\n") (len_at index ∷ [])

    abbrev from : ℕ → ℕ → List ℕ
    from k index = transcript libc wasm m wasi_fd p k index

    -- One round of the loop, with the ciovec read from `m`.
    write_ciovecs-round :
        (rounds index total : ℕ) (s : S)
        → s.memory ≡ m
        → (ltb index count && ltb index iovecs_size) ≡ true
        → write_ciovecs libc wasm wasi_fd p count (suc rounds) index total s
          ≡ and_then
              (announce libc wasm wasi_fd (codes "length = %d\n") (len_at index ∷ []) s)
              (λ _.
                put_bytes libc wasm (suc (len_at index)) (len_at index) 0 (base_at wasm m p index)
                >> write_ciovecs libc wasm wasi_fd p count rounds
                    (index + 1)
                    (total + len_at index))
    unfolding write_ciovecs
    write_ciovecs-round rounds index total s e going = rw going (
        ap
          (λ mem.
            and_then
              (announce libc wasm wasi_fd (codes "length = %d\n") (length_at wasm mem p index ∷ [])
                s)
              (λ _.
                put_bytes libc wasm (suc (length_at wasm mem p index)) (length_at wasm mem p index)
                  0 (base_at wasm mem p index)
                >> write_ciovecs libc wasm wasi_fd p count rounds (index + 1)
                    (total + length_at wasm mem p index)))
          e)

    room_of_round :
        (k index n : ℕ)
        → length (from (suc k) index) + n
          ≡ length (label_at index) + (len_at index + (length (from k (index + 1)) + n))
    unfolding transcript
    room_of_round k index n = omega (
      arith,
      length-append (label_at index)
          (region wasm m (len_at index) (base_at wasm m p index) ++ from k (index + 1)),
      length-append (region wasm m (len_at index) (base_at wasm m p index)) (from k (index + 1)),
      length-region wasm m (len_at index) (base_at wasm m p index),
    )

    -- The loop returns the bytes counted, prints the transcript and changes no memory.
    pub write_ciovecs-Printed :
        (k rounds index total n : ℕ) (s : S)
        → s.memory ≡ m
        → ((j : ℕ) → j < count → len_at j < 2 ^ 31)
        → index + k ≡ count
        → count ≤ iovecs_size
        → k < rounds
        → libc.Accepts (length (from k index) + n) s.device
        → Ensures
            (write_ciovecs libc wasm wasi_fd p count rounds index total s)
            (λ r t. (r ≡ total + lengths wasm m p k index) × Printed libc (from k index) n s t)
    write_ciovecs-Printed zero zero index total n s e small at max fuel room = absurd (omega arith)
    write_ciovecs-Printed (suc k) zero index total n s e small at max fuel room =
        absurd (omega arith)
    write_ciovecs-Printed zero (suc rounds) index total n s e small at max fuel room =
        let ended : (ltb index count && ltb index iovecs_size) ≡ false = ground arith in
        (
          total,
          s,
          unfold write_ciovecs in rw ended,
          (
            unfold lengths in omega arith,
            unfold transcript in
                Printed-refl libc n s (room_eq s (unfold transcript in omega arith) room),
          ),
        )
    write_ciovecs-Printed (suc k) (suc rounds) index total n s e small at max fuel room =
        let going : (ltb index count && ltb index iovecs_size) ≡ true = ground arith in
        rw (write_ciovecs-round rounds index total s e going) (
          Ensures-bind
            (announce-Printed wasi_fd (codes "length = %d\n") (len_at index ∷ [])
              (len_at index + (length (from k (index + 1)) + n)) s
              (room_eq s (room_of_round k index n) room))
            λ _ t a.
              Ensures-bind
                (put_buffer-Printed m (len_at index) (base_at wasm m p index)
                  (length (from k (index + 1)) + n) t (a.memory ∙ e) (small index (omega arith))
                  a.room)
                λ _ u b.
                  Ensures-mono
                    (write_ciovecs-Printed k rounds (index + 1) (total + len_at index) n u
                      (b.memory ∙ a.memory ∙ e) small (omega arith) max (omega arith) b.room)
                    λ r v (sum, c). (
                      unfold lengths in omega arith,
                      unfold transcript in Printed-trans libc a (Printed-trans libc b c),
                    ))

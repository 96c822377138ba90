-- ===== src/Zkvm/Session/Keeps.antt =====
-- That the calls of a guest leave the machine intact, on every branch of their code, and end.
use wasrisc.Base.{
  ℕ, zero, suc, ◌+◌, ◌-◌, ◌^◌, ◌≤◌, ◌<◌, ◌≡◌, refl, arith, List, [], leb, ltb, ◌==◌, ◌&&◌,
  Bool-cases, inl, inr, codes,
}
use wasrisc.Host.{Wasm}
use wasrisc.Machine.{Cmd, ◌>>=◌, Settles, Settles-bind, Settles-over, Ensures-Settles}
use wasrisc.Wasi
use wasrisc.Wasi.{State, Printed, put}
use wasrisc.Wasi.Clock.{clock_time_get, advance, time_offset}
use wasrisc.Wasi.Imports.Frame.{invoke-Printed}
use wasrisc.Wasip2.Messages.{bare-Printed, adapter-Printed}
use wasrisc.Wasi.Printing.{print-Printed, put-Printed}
use wasrisc.Wasi.Write.{fd_write, write_ciovecs, put_bytes, announce, is_other, iovecs_size}
use wasrisc.Zkvm.{Zkvm, printk}
use wasrisc.Zkvm.Imports.{guest_printk}
use wasrisc.Zkvm.Library.{zkvm_libc}
use wasrisc.Zkvm.Session.{zkvm_target}
use wasrisc.Session.{
  Call, Program, ret, call, follow, compute, write, clock, report, bare_stub, adapter_stub,
  input_at, input_length, print, perform,
}
use wasrisc.Zkvm.Session.Intact.{
  Intact, Intact-printed, Intact-mono, printk-Intact, hands_over, HandsAtMost,
}

module _ (wasm : Wasm) (n : ℕ) (z : Zkvm) where
  abbrev pub S : Type 0
  S = State Zkvm wasm.Linear

  abbrev pub Kept : S → Type 0
  Kept s = Intact n z s.device

  abbrev pub Keeps : {A : Type 0} → Cmd S A → Type 0
  Keeps m = (s : S) → Kept s → Settles (m s) Kept

  pub bind-Keeps :
      {A B : Type 0} (m : Cmd S A) (k : A → Cmd S B)
      → Keeps m
      → ((a : A) → Keeps (k a))
      → Keeps (m >>= k)
  bind-Keeps m k first next s h =
      Settles-bind Kept Kept (m s) k (first s h) (λ t h'. h') λ a t h'. next a t h'

  -- What the machine does outside wasi.c.
  pub on_device-Keeps :
      {A : Type 0} (m : Cmd Zkvm A)
      → ((t : Zkvm) → Intact n z t → Settles (m t) (Intact n z))
      → Keeps (Wasi.on_device zkvm_libc m)
  on_device-Keeps m keeps s h =
      Settles-over (Intact n z) Kept _ (m s.device) s (keeps s.device h) λ t h'. h'

  Printed-Kept : {bytes : List ℕ} {s t : S} → Kept s → Printed zkvm_libc bytes 0 s t → Kept t
  Printed-Kept {bytes} h p = Intact-printed bytes h p.rest p.output

  pub print-Keeps : (fmt args : List ℕ) → Keeps (Wasi.print zkvm_libc fmt args)
  print-Keeps fmt args s h =
      Ensures-Settles Kept (print-Printed zkvm_libc fmt args 0 s tt) λ _ t p. Printed-Kept h p

  put-Keeps : (c : ℕ) → Keeps (put zkvm_libc c)
  put-Keeps c s h = Ensures-Settles Kept (put-Printed zkvm_libc c 0 s tt) λ _ t p. Printed-Kept h p

  announce-Keeps :
      (wasi_fd : ℕ) (fmt args : List ℕ) → Keeps (announce zkvm_libc wasm wasi_fd fmt args)
  unfolding announce
  announce-Keeps wasi_fd fmt args = elim (Bool-cases (is_other wasi_fd)) [
    | inl other ↦ rw other (bind-Keeps _ _ (print-Keeps fmt args) λ _ s h. h)
    | inr known ↦ rw known (λ s h. h)
  ]

  put_bytes-Keeps :
      (rounds length i base : ℕ)
      → i ≤ length
      → length < i + rounds
      → Keeps (put_bytes zkvm_libc wasm rounds length i base)
  unfolding put_bytes
  put_bytes-Keeps zero length i base low fuel = absurd (omega arith)
  put_bytes-Keeps (suc rounds) length i base low fuel = elim (Bool-cases (ltb i length)) [
    | inl within ↦ rw within (
        bind-Keeps _ _ (λ s h. put-Keeps (wasm.byte s.memory (base + i)) s h)
          λ _. elim (Bool-cases (i == 2 ^ 31 - 1)) [
            | inl last ↦ rw last (λ s h. tt)
            | inr more ↦
                rw more (put_bytes-Keeps rounds length (i + 1) base (ground arith) (omega arith))
          ])
    | inr beyond ↦ rw beyond (λ s h. h)
  ]

  write_ciovecs-Keeps :
      (wasi_fd p count rounds index total : ℕ)
      → index ≤ iovecs_size
      → iovecs_size < index + rounds
      → Keeps (write_ciovecs zkvm_libc wasm wasi_fd p count rounds index total)
  unfolding write_ciovecs
  write_ciovecs-Keeps wasi_fd p count zero index total low fuel = absurd (omega arith)
  write_ciovecs-Keeps wasi_fd p count (suc rounds) index total low fuel =
      elim (Bool-cases (ltb index count && ltb index iovecs_size)) [
        | inl within ↦ rw within λ s h.
            bind-Keeps (announce zkvm_libc wasm wasi_fd (codes "length = %d\n") _) _
              (announce-Keeps wasi_fd _ _)
              (λ _.
                bind-Keeps (put_bytes zkvm_libc wasm _ _ 0 _) _
                  (put_bytes-Keeps _ _ 0 _ (omega arith) (omega arith))
                  λ _.
                    write_ciovecs-Keeps wasi_fd p count rounds (index + 1) _ (ground arith)
                      (omega arith))
              s h
        | inr beyond ↦ rw beyond (λ s h. h)
      ]

  fd_write-Keeps :
      (wasi_fd p count result : ℕ) → Keeps (fd_write zkvm_libc wasm wasi_fd p count result)
  unfolding fd_write
  fd_write-Keeps wasi_fd p count result = bind-Keeps _ _ (announce-Keeps wasi_fd _ _) λ _.
      elim (Bool-cases (ltb iovecs_size count)) [
        | inl many ↦ rw many (bind-Keeps _ _ (print-Keeps _ []) λ _ s h. h)
        | inr few ↦ rw few (
            bind-Keeps _ _ (write_ciovecs-Keeps wasi_fd p count _ 0 0 (omega arith) (omega arith))
              λ total s h. h)
      ]

  clock_time_get-Keeps :
      (clock_id precision p : ℕ) → Keeps (clock_time_get zkvm_libc wasm clock_id precision p)
  unfolding clock_time_get
  clock_time_get-Keeps clock_id precision p s h =
      elim (Bool-cases (leb (2 ^ 63) (time_offset + s.ticks))) [
        | inl late ↦ rw late tt
        | inr early ↦ rw early (elim (Bool-cases (leb (2 ^ 63) (advance s.ticks))) [
          | inl late ↦ rw late tt
          | inr early ↦ rw early h
        ])
      ]

  silent-Keeps : (c : Call wasm.Linear) → hands_over c ≡ 0 → Keeps (perform zkvm_target wasm c)
  unfolding perform hands_over
  silent-Keeps (compute f) none s h = h
  silent-Keeps (write wasi_fd p count result) none s h = fd_write-Keeps wasi_fd p count result s h
  silent-Keeps (clock clock_id precision p) none s h = clock_time_get-Keeps clock_id precision p s h
  silent-Keeps (report i) none s h =
      Ensures-Settles Kept (invoke-Printed zkvm_libc i 0 s tt) λ _ t p. Printed-Kept h p.1
  silent-Keeps (bare_stub i) none s h =
      Ensures-Settles Kept (bare-Printed zkvm_libc i 0 s tt) λ _ t p. Printed-Kept h p.1
  silent-Keeps (adapter_stub i) none s h =
      Ensures-Settles Kept (adapter-Printed zkvm_libc i 0 s tt) λ _ t p. Printed-Kept h p.1
  silent-Keeps (input_at index) none s h = h
  silent-Keeps input_length none s h = h
  silent-Keeps (print val) none s h = absurd (omega (arith, none))

module _ (wasm : Wasm) (z : Zkvm) where
  print-Settles :
      (val n : ℕ) (s : S wasm n z)
      → Kept wasm (1 + n) z s
      → Settles (perform zkvm_target wasm (print val) s) (Kept wasm n z)
  unfolding perform guest_printk
  print-Settles val n s h =
      Settles-bind (Kept wasm n z) (Kept wasm n z) _ _
        (Settles-over (Intact n z) (Kept wasm n z) _ (printk val s.device) s
          (printk-Intact val n z s.device h) λ t h'. h')
        (λ t h'. h') λ _ t h'. h'

  pub perform-Settles :
      (c : Call wasm.Linear) (n : ℕ) (s : S wasm n z)
      → Kept wasm (hands_over c + n) z s
      → Settles (perform zkvm_target wasm c s) (Kept wasm n z)
  unfolding hands_over
  perform-Settles (print val) n s h = print-Settles val n s h
  perform-Settles c n s h = silent-Keeps wasm n z c refl s (Intact-mono (0 + n) n (omega arith) h)

  pub follow-Settles :
      {A : Type 0} (p : Program wasm.Linear A) (n : ℕ) (s : S wasm n z)
      → HandsAtMost n p
      → Kept wasm n z s
      → Settles (follow zkvm_target wasm p s) (Kept wasm 0 z)
  unfolding follow
  follow-Settles (ret a) n s few h = Intact-mono n 0 (omega arith) h
  follow-Settles (call c next) n s (fits, few) h =
      let later = n - hands_over c in
      Settles-bind (Kept wasm later z) (Kept wasm 0 z) _ _
        (perform-Settles c later s (Intact-mono _ _ (omega (arith, fits)) h))
        (λ t h'. Intact-mono later 0 (omega arith) h')
        λ r t h'. follow-Settles (next r t.memory) later t (few r t.memory) h'

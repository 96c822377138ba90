-- ===== src/Hosted/Library.antt =====
-- The C library of a process as the one that wasi.c is linked with, over whatever holds the process.
use mathlib.Core.Path.{ap₂}
use wasrisc.Base.{ℕ, ◌≡◌, ◌≢◌, refl, ap, List, [], ◌∷◌, ◌++◌, Option, length}
use wasrisc.Host.{Libc}
use wasrisc.Hosted.{Process, Ending, Texts, print, exit}
use wasrisc.Machine.{Cmd, done, Ensures, over, pure, ◌>>◌}
use wasrisc.Machine.Word.{u8}

-- A program's state with its process in it.
pub record Holder : Type 1 where
  pub State : Type 0
  pub process : State → Process
  pub with_process : Process → State → State
  pub Globals : Type 0
  pub globals : State → Globals
  pub process-with_process : (p : Process) (s : State) → process (with_process p s) ≡ p
  pub globals-with_process : (p : Process) (s : State) → globals (with_process p s) ≡ globals s

module _ (texts : Texts) (holder : Holder) where
  abbrev pub on_process : {A : Type 0} → Cmd Process A → Cmd holder.State A
  on_process m s = over holder.with_process (m (holder.process s)) s

  -- What a program holds besides what it has written to the standard output.
  abbrev pub Kept : Type 0
  Kept = holder.Globals × List ℕ × Option Ending

  abbrev pub kept : holder.State → Kept
  kept s = (holder.globals s, (holder.process s).stderr, (holder.process s).ending)

  abbrev pub stdout : holder.State → List ℕ
  stdout s = (holder.process s).stdout

  -- A print that then returns a number.
  pub print_lem :
      (text : List ℕ) (r : ℕ) (s : holder.State)
      → Ensures
          ((on_process (print text) >> pure r) s)
          (λ _ t. (stdout t ≡ stdout s ++ text) × (kept t ≡ kept s) × Unit {0})
  print_lem text r s =
      let p = record (holder.process s) { stdout = stdout s ++ text } in
      (
        r,
        holder.with_process p s,
        refl,
        (
          ap (λ q. q.stdout) (holder.process-with_process p s),
          ap₂ (λ g q. (g, q.stderr, q.ending)) (holder.globals-with_process p s)
              (holder.process-with_process p s),
          tt,
        ),
      )

  pub exit-halts : (status : ℕ) (s t : holder.State) → on_process (exit status) s ≢ done tt t
  exit-halts status s t h = cc h

  -- `printf` and `putchar` return what the C standard says.
  abbrev pub hosted_libc : Libc
  hosted_libc = record {
    Device = holder.State;
    printf = λ fmt args.
        on_process (print (texts.formatted fmt args)) >> pure (length (texts.formatted fmt args));
    putchar = λ c. on_process (print (u8 c ∷ [])) >> pure (u8 c);
    exit = λ status. on_process (exit status);
    output = stdout;
    Rest = Kept;
    rest = kept;
    Accepts = λ n s. Unit {0};
    formatted = texts.formatted;
    printf_lem = λ fmt args n s _. print_lem (texts.formatted fmt args) _ s;
    putchar_lem = λ c n s _. print_lem (u8 c ∷ []) (u8 c) s;
    exit_lem = exit-halts;
  }

-- ===== src/Hosted.antt =====
-- A process of an operating system, on which platform/amd64 and platform/riscv-qemu-user run, and
-- what these targets use of its C library.
pub mod Library
use wasrisc.Base.{ℕ, List, [], ◌∷◌, ◌++◌, Option, some, ◌==◌, ◌&&◌, Bool, true, false}
use wasrisc.Console.Text.{before_nul}
use wasrisc.Machine.{done, halted, Cmd}
use wasrisc.Machine.Word.{u8}
use wasrisc.Zkvm.Port.{Trap}

-- How a process ends of itself: by `exit` with the status that its parent sees, or by `abort`.
pub data Ending : Type 0 where
  exited : ℕ → Ending
  aborted : Ending

pub record Process : Type 0 where
  pub stdout : List ℕ
  pub stderr : List ℕ
  pub ending : Option Ending

-- What `printf` makes of a format and its arguments, and the text that w2c2 has for a trap.
pub record Texts : Type 1 where
  pub formatted : List ℕ → List ℕ → List ℕ
  pub trap_description : Trap → List ℕ

abbrev pub print : List ℕ → Cmd Process (Unit {0})
print text p = done tt (record p { stdout = p.stdout ++ text })

abbrev pub print_error : List ℕ → Cmd Process (Unit {0})
print_error text p = done tt (record p { stderr = p.stderr ++ text })

-- The library's `puts` adds a newline to the bytes before the terminator.
abbrev pub puts : List ℕ → Cmd Process (Unit {0})
puts s = print (before_nul s ++ 10 ∷ [])

abbrev pub exit : ℕ → Cmd Process (Unit {0})
exit status p = halted (record p { ending = some (exited (u8 status)) })

abbrev pub abort : Cmd Process (Unit {0})
abort p = halted (record p { ending = some aborted })

-- `strcmp(s, t) == 0` of two texts without a terminator.
abbrev pub same_text : List ℕ → List ℕ → Bool
same_text [] [] = true
same_text [] (c ∷ t) = false
same_text (c ∷ s) [] = false
same_text (c ∷ s) (c' ∷ t) = (c == c') && same_text s t

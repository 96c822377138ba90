-- ===== src/Wamr.antt =====
-- The programs that start a guest on the WAMR runtime: platform/riscv-wamr-qemu/main.c and
-- platform/riscv-wamr-qemu-aarch64/main.c. The runtime is another project's; a `Runtime` is how it
-- answers, and the calls that it gets are recorded.
pub mod Protocol
pub mod Lines
pub mod Spoken
use wasrisc.Base.{ℕ, ◌*◌, List, [], ◌∷◌, ◌++◌, Option, none, some, Bool, not, codes, if◌then◌else◌}
use wasrisc.Machine.{Run, done, halted, Cmd, pure, ◌>>◌, ◌>>=◌}

-- What `wasm_application_execute_main` does: it returns true, or false with an exception to ask
-- for, or never returns, since the guest calls the native function `shutdown`.
pub data Execution : Type 0 where
  finishes shuts_down : Execution
  fails : List ℕ → Execution

-- The calls, with the arguments that matter: the names of the native functions, the module, the
-- size of the stack.
pub data Event : Type 0 where
  set_log_level : Event
  init : Event
  full_init : List ℕ → List (List ℕ) → Event
  load : Event
  instantiate : ℕ → ℕ → Event
  execute_main : ℕ → Event
  get_exception : ℕ → Event
  unload : ℕ → Event

-- Modules and instances are numbers, and a null pointer is `none`. `says` is what the runtime, and the guest
-- in it, print during a call.
pub record Runtime : Type 0 where
  pub inits : Bool
  pub loads : Option ℕ
  pub instantiates : ℕ → Option ℕ
  pub executes : ℕ → Execution
  pub error_buf : List ℕ
  pub says : Event → List ℕ

pub record Host : Type 0 where
  pub stdout : List ℕ
  pub calls : List Event
  pub status : Option ℕ

-- The program before its first call.
abbrev pub unstarted : Host
unstarted = record { stdout = []; calls = []; status = none }

abbrev pub call : Runtime → Event → Cmd Host (Unit {0})
call rt e h = done tt (record h { calls = h.calls ++ e ∷ []; stdout = h.stdout ++ rt.says e })

abbrev pub print : List ℕ → Cmd Host (Unit {0})
print text h = done tt (record h { stdout = h.stdout ++ text })

-- The C library's `exit`, which does not return.
abbrev pub exit : {A : Type 0} → ℕ → Cmd Host A
exit status h = halted (record h { status = some status })

abbrev pub stack_size : ℕ
stack_size = 16 * 1024 * 1024

-- `pointer_text` is what `%p` prints of a null pointer.
module _ (rt : Runtime) (pointer_text : List ℕ) where
  unfoldable pub unload_module : ℕ → Cmd Host ℕ
  unload_module m = print (codes "wasm_runtime_unload...\n") >> call rt (unload m) >> pure 0

  unfoldable pub after_execute : ℕ → ℕ → Execution → Cmd Host ℕ
  after_execute m i finishes = unload_module m
  after_execute m i (fails exception) = do
    print (codes "error executing main\n")
    call rt (get_exception i)
    print (codes "exception: " ++ (exception ++ codes "\n"))
    unload_module m
  after_execute m i shuts_down = λ h. halted h

  unfoldable pub after_instantiate : ℕ → Option ℕ → Cmd Host ℕ
  after_instantiate m none = do
    print (
        codes "wasm_runtime_instantiate failed as module_inst="
        ++ (pointer_text ++ (codes ": " ++ (rt.error_buf ++ codes "\n"))))
    exit 1
  after_instantiate m (some i) = call rt (execute_main i) >> after_execute m i (rt.executes i)

  unfoldable pub after_load : Option ℕ → Cmd Host ℕ
  after_load none =
      print (codes "runtime load module failed: " ++ (rt.error_buf ++ codes "\n")) >> exit 1
  after_load (some m) =
      call rt (instantiate m stack_size) >> after_instantiate m (rt.instantiates m)

  -- From the test of the initialisation on, which the two programs have alike.
  unfoldable pub after_init : Bool → Cmd Host ℕ
  after_init ok =
      if not ok
      then print (codes "runtime init failed\n") >> exit 1
      else call rt load >> after_load rt.loads

  unfoldable pub qemu_main : Cmd Host ℕ
  qemu_main = do
    call rt set_log_level
    call rt (full_init (codes "testmodule") (codes "shutdown" ∷ []))
    after_init rt.inits

  unfoldable pub aarch64_main : Cmd Host ℕ
  aarch64_main = do call rt set_log_level; call rt init; after_init rt.inits

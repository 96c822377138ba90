-- ===== src/Wamr/Protocol.antt =====
-- The order of calls that the runtime asks for, and that both programs keep it.
use wasrisc.Base.{ℕ, ◌≡◌, List, [], ◌∷◌, ◌++◌, none, some, true, false}
use wasrisc.Machine.{Run, done, halted, Cmd}
use wasrisc.Wamr.{
  finishes, fails, shuts_down, Runtime, Event, set_log_level, init, full_init, load, instantiate,
  execute_main, get_exception, unload, Host,
}

-- What the runtime holds: nothing, itself, a module, a module with an instance of it that may be
-- run, that runs and will not come back, that has an exception, or that has run; `over`, with the
-- module unloaded, or `failed`, when a call failed.
pub data Phase : Type 0 where
  fresh ready over failed : Phase
  loaded : ℕ → Phase
  instantiated left_in raised ran : ℕ → ℕ → Phase

-- The runtime is initialised once and before all else. Only a module that was loaded is instantiated
-- and unloaded, only an instance of it is run, and once, and the exception of a run that had one is
-- asked for before the module goes. After a call that failed there is none.
pub data Allowed (rt : Runtime) : Phase → Event → Phase → Type 0 where
  log_first : Allowed rt fresh set_log_level fresh
  init_done : rt.inits ≡ true → Allowed rt fresh init ready
  init_failed : rt.inits ≡ false → Allowed rt fresh init failed
  full_init_done :
      {name : List ℕ} {natives : List (List ℕ)}
      → rt.inits ≡ true
      → Allowed rt fresh (full_init name natives) ready
  full_init_failed :
      {name : List ℕ} {natives : List (List ℕ)}
      → rt.inits ≡ false
      → Allowed rt fresh (full_init name natives) failed
  load_done : {m : ℕ} → rt.loads ≡ some m → Allowed rt ready load (loaded m)
  load_failed : rt.loads ≡ none → Allowed rt ready load failed
  instantiate_done :
      {m i size : ℕ}
      → rt.instantiates m ≡ some i
      → Allowed rt (loaded m) (instantiate m size) (instantiated m i)
  instantiate_failed :
      {m size : ℕ} → rt.instantiates m ≡ none → Allowed rt (loaded m) (instantiate m size) failed
  execute_done :
      {m i : ℕ}
      → rt.executes i ≡ finishes
      → Allowed rt (instantiated m i) (execute_main i) (ran m i)
  execute_raised :
      {m i : ℕ} {exception : List ℕ}
      → rt.executes i ≡ fails exception
      → Allowed rt (instantiated m i) (execute_main i) (raised m i)
  execute_left :
      {m i : ℕ}
      → rt.executes i ≡ shuts_down
      → Allowed rt (instantiated m i) (execute_main i) (left_in m i)
  exception_after : {m i : ℕ} → Allowed rt (raised m i) (get_exception i) (ran m i)
  unload_last : {m i : ℕ} → Allowed rt (ran m i) (unload m) over

pub data Follows (rt : Runtime) : Phase → List Event → Phase → Type 0 where
  stop : {p : Phase} → Follows rt p [] p
  next :
      {p q r : Phase} {e : Event} {es : List Event}
      → Allowed rt p e q
      → Follows rt q es r
      → Follows rt p (e ∷ es) r

-- How a program ends with the given calls made: it returns 0 when the module was run and unloaded,
-- exits with status 1 when a call failed, or the guest shuts the machine down while it runs.
pub data Ends (r : Run Host ℕ) (calls : List Event) (p : Phase) : Type 0 where
  returned : (h : Host) → r ≡ done 0 h → h.calls ≡ calls → p ≡ over → Ends r calls p
  refused :
      (h : Host) → r ≡ halted h → h.calls ≡ calls → h.status ≡ some 1 → p ≡ failed → Ends r calls p
  in_guest :
      (h : Host) (m i : ℕ)
      → r ≡ halted h
      → h.calls ≡ calls
      → h.status ≡ none
      → p ≡ left_in m i
      → Ends r calls p

module _ (rt : Runtime) (pointer_text : List ℕ) where
  -- From a phase on, the calls of a run follow the protocol up to the one in which it ends.
  abbrev pub Kept : Phase → List Event → Run Host ℕ → Type 0
  Kept p calls r = (es : List Event) × (q : Phase) × Follows rt p es q × Ends r (calls ++ es) q

  abbrev Keeps : Phase → Cmd Host ℕ → Type 0
  Keeps p m = (h : Host) → h.status ≡ none → Kept p h.calls (m h)

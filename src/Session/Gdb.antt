-- ===== src/Session/Gdb.antt =====
-- gdb_session.py: the command lines of gdb, and how a gdb process is ended.
use unikernel_syscall_monito.Base.{
  false, refl, ℕ, ◌≡◌, Bool, true, List, [], ◌∷◌, ◌++◌, arith, flatten, if◌then◌else◌, keep, map,
  sym,
}
use unikernel_syscall_monito.Base.Int.{pos}
use unikernel_syscall_monito.Base.Result.{Result, ok, raise, timeout_expired, os_error, Exception}
use unikernel_syscall_monito.Base.Text.{Text, codes}
use unikernel_syscall_monito.Py.Number.{str}
use unikernel_syscall_monito.Session.Environment.{Environ}
use unikernel_syscall_monito.Session.Script.{
  Script, ◌>>=◌, act, pass, give, ◌>>◌, Effect, interrupt, write_stdin, terminate, spawn, Quiet,
  Quiet-give, touches, talks, Quiet-bind,
}

-- How a gdb process behaves: whether it can be started, whether the pipe takes what is written to
-- load the monitor and to attach, whether it has exited when it is to be ended, whether the pipe
-- takes the two texts then, whether it exits within five seconds of them or of SIGTERM, and
-- `proc._captured_lines` when the wait for the relaying thread ends, which takes at most five seconds
-- more.
pub record Gdb : Type 0 where
  pub spawned : Result {0} Unit
  pub takes_source : Bool
  pub takes_attach : Bool
  pub has_exited : Bool
  pub takes_detach : Bool
  pub takes_quit : Bool
  pub exits_on_quit : Bool
  pub exits_on_terminate : Bool
  pub captured : List Text

unfoldable pub drain_gdb_output : Gdb → Script Text
drain_gdb_output gdb = give (ok (flatten gdb.captured))

-- The two writes, where a broken pipe is passed over.
unfoldable pub ask_to_quit : Gdb → Script Unit
ask_to_quit gdb =
    if gdb.takes_detach
    then (if gdb.takes_quit
        then (do act (write_stdin (codes "detach\n")); act (write_stdin (codes "quit\ny\n")))
        else act (write_stdin (codes "detach\n")))
    else pass

-- `proc.wait(timeout=5)`, with SIGTERM if that times out.
unfoldable pub wait_for_exit : Gdb → Script Unit
wait_for_exit gdb =
    if gdb.exits_on_quit
    then pass
    else (do act terminate; if gdb.exits_on_terminate then pass else give (raise timeout_expired))

unfoldable pub stop_gdb_capture : Gdb → Script Text
unfolding drain_gdb_output ask_to_quit wait_for_exit
stop_gdb_capture gdb =
    if gdb.has_exited
    then drain_gdb_output gdb
    else (do act interrupt; ask_to_quit gdb; wait_for_exit gdb; drain_gdb_output gdb)

-- `_popen_gdb`, which raises if the program cannot be run.
unfoldable pub popen : Gdb → List Text → Environ → Script Unit
popen gdb gdb_cmd env = do give gdb.spawned; act (spawn gdb_cmd env)

-- Texts are written to the pipe by `flush`; a gdb that is gone makes it a BrokenPipeError, which is
-- an OSError.
unfoldable pub flush : Bool → List Text → Script Unit
flush takes texts = if takes then (ok tt, map (λ t. write_stdin t) texts) else give (raise os_error)

unfoldable pub attach_preloaded_gdb : Gdb → ℕ → Script Unit
unfolding flush
attach_preloaded_gdb gdb port =
    flush gdb.takes_attach (
      (codes "target remote 127.0.0.1:" ++ (str (pos port) ++ codes "\n"))
      ∷ codes "continue\n"
      ∷ [])

-- The directory of the scripts and the path of the kernel with its symbols.
module _ (here dbg_kernel : Text) where
  unfoldable pub capture_command : ℕ → List Text
  capture_command port =
      codes "stdbuf"
      ∷ codes "-oL"
      ∷ codes "-eL"
      ∷ codes "gdb"
      ∷ codes "-q"
      ∷ codes "-nx"
      ∷ codes "-ex"
      ∷ (codes "file " ++ dbg_kernel)
      ∷ codes "-ex"
      ∷ (codes "target remote 127.0.0.1:" ++ str (pos port))
      ∷ codes "-x"
      ∷ (here ++ codes "/monitor.py")
      ∷ codes "-ex"
      ∷ codes "continue"
      ∷ []

  unfoldable pub launch_gdb_capture : Gdb → ℕ → Environ → Script Unit
  unfolding popen
  launch_gdb_capture gdb port env = popen gdb (capture_command port) env

  unfoldable pub launch_gdb_preloaded : Gdb → Environ → Script Unit
  unfolding popen flush
  launch_gdb_preloaded gdb env = do
    popen gdb
        (codes "stdbuf"
          ∷ codes "-oL"
          ∷ codes "-eL"
          ∷ codes "gdb"
          ∷ codes "-q"
          ∷ codes "-nx"
          ∷ codes "-ex"
          ∷ (codes "file " ++ dbg_kernel)
          ∷ [])
        env
    flush gdb.takes_source ((codes "source " ++ (here ++ codes "/monitor.py\n")) ∷ [])

pub stop_gdb_capture-Quiet : (gdb : Gdb) → Quiet (stop_gdb_capture gdb)
unfolding stop_gdb_capture
stop_gdb_capture-Quiet gdb = record { quiet = ground arith }

-- Ending gdb: an interrupt, the two texts as far as the pipe takes them, and SIGTERM if it does not
-- exit then.
abbrev pub gdb_ending : Gdb → List Effect
gdb_ending gdb =
    if gdb.has_exited
    then []
    else interrupt
        ∷ (if gdb.takes_detach
            then write_stdin (codes "detach\n")
              ∷ (if gdb.takes_quit then write_stdin (codes "quit\ny\n") ∷ [] else [])
            else [])
      ++ (if gdb.exits_on_quit then [] else terminate ∷ [])

-- All that it does concerns gdb.
pub stop_gdb_capture-talks : (gdb : Gdb) → keep talks (stop_gdb_capture gdb).1 ≡ gdb_ending gdb
unfolding stop_gdb_capture
stop_gdb_capture-talks gdb = ground arith

-- Starting gdb and what follows, if that has these effects once a port is known.
pub popen-follow :
    {B : Type 0} (gdb : Gdb) (gdb_cmd : List Text) (env : Environ) (f : Unit → Script B)
    (effects : Result ℕ → List Effect) (port : ℕ)
    → ((e : Exception) → effects (raise e) ≡ [])
    → spawn gdb_cmd env ∷ keep talks (f tt).1 ≡ effects (ok port)
    → keep talks (popen gdb gdb_cmd env >>= f).1
      ≡ effects (give gdb.spawned >>= λ _. give (ok port)).0
unfolding popen
popen-follow gdb gdb_cmd env f effects port none h =
    elim gdb.spawned
      as (λ r.
        keep talks ((give r >>= λ _. act (spawn gdb_cmd env)) >>= f).1
        ≡ effects (give r >>= λ _. give (ok port)).0) [ raise e ↦ sym (none e) | ok u ↦ h ]

pub popen-Quiet : (gdb : Gdb) (gdb_cmd : List Text) (env : Environ) → Quiet (popen gdb gdb_cmd env)
unfolding popen
popen-Quiet gdb gdb_cmd env = Quiet-give gdb.spawned _ (λ _. record { quiet = refl })

writes-Quiet : (texts : List Text) → keep touches (map (λ t. write_stdin t) texts) ≡ []
writes-Quiet [] = refl
writes-Quiet (t ∷ texts) = writes-Quiet texts

pub flush-Quiet : (takes : Bool) (texts : List Text) → Quiet (flush takes texts)
unfolding flush
flush-Quiet true texts = record { quiet = writes-Quiet texts }
flush-Quiet false texts = record { quiet = refl }

pub attach_preloaded_gdb-Quiet : (gdb : Gdb) (port : ℕ) → Quiet (attach_preloaded_gdb gdb port)
unfolding attach_preloaded_gdb
attach_preloaded_gdb-Quiet gdb port =
    flush-Quiet gdb.takes_attach (
      (codes "target remote 127.0.0.1:" ++ (str (pos port) ++ codes "\n"))
      ∷ codes "continue\n"
      ∷ [])

-- Whether gdb can be started and takes the command to read the monitor.
abbrev pub loaded : Gdb → Script Unit
loaded gdb = give gdb.spawned >> give (if gdb.takes_source then ok tt else raise os_error)

module _ (here dbg_kernel : Text) (gdb : Gdb) (env : Environ) where
  pub launch_gdb_preloaded-Quiet : Quiet (launch_gdb_preloaded here dbg_kernel gdb env)
  unfolding launch_gdb_preloaded
  launch_gdb_preloaded-Quiet = Quiet-bind (popen gdb _ env) _ (popen-Quiet gdb _ env) (λ _.
      flush-Quiet gdb.takes_source ((codes "source " ++ (here ++ codes "/monitor.py\n")) ∷ []))

  pub launch_gdb_preloaded-loaded :
      (launch_gdb_preloaded here dbg_kernel gdb env).0 ≡ (loaded gdb).0
  unfolding launch_gdb_preloaded popen flush
  launch_gdb_preloaded-loaded = ground arith

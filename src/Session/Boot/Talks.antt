-- ===== src/Session/Boot/Talks.antt =====
-- The gdb process of run_capture_from_boot.py.
use unikernel_syscall_monito.Base.{
  ℕ, ◌≡◌, refl, ap, ◌∙◌, List, [], ◌∷◌, ◌++◌, keep, Bool, true, false, if◌then◌else◌, Bool-cases,
  inl, inr,
}
use unikernel_syscall_monito.Base.Int.{pos}
use unikernel_syscall_monito.Base.Result.{Result, ok, raise}
use unikernel_syscall_monito.Base.Text.{Text, codes}
use unikernel_syscall_monito.Py.Number.{str}
use unikernel_syscall_monito.Gdbstub.Port.{find_free_port}
use unikernel_syscall_monito.Gdbstub.Hmp.{recv_until_prompt}
use unikernel_syscall_monito.Session.Chain.{bind-Silent, Silent-follow}
use unikernel_syscall_monito.Session.Environment.{Args, Environ, environment}
use unikernel_syscall_monito.Session.Gdb.{
  popen, flush, launch_gdb_preloaded, attach_preloaded_gdb, drain_gdb_output,
  stop_gdb_capture-talks, gdb_ending,
}
use unikernel_syscall_monito.Session.Host.{stop_and_remove}
use unikernel_syscall_monito.Session.Host.Laws.{returns}
use unikernel_syscall_monito.Session.Script.{
  Effect, Script, ◌>>=◌, ◌>>◌, spawn, give, act, run_instance, write_stdin, talks,
}
use unikernel_syscall_monito.Session.Boot.{
  World, arm, wait_for_gdb, capture_at, capture_in, capture, finish, boot, main,
}

module _ (args : Args) (w : World) where
  -- gdb is ended only if it does not exit within the duration.
  abbrev pub ending : List Effect
  ending = if w.exits_in_time then [] else gdb_ending w.gdb

  -- What gdb is told once a stub waits on a port.
  abbrev pub attached : Result ℕ → List Effect
  attached (raise e) = []
  attached (ok port) =
      if w.gdb.takes_attach
      then write_stdin (codes "target remote 127.0.0.1:" ++ (str (pos port) ++ codes "\n"))
        ∷ write_stdin (codes "continue\n")
        ∷ (if returns w.kraft_ends then ending else [])
      else []

  -- How gdb is started, and what it is told then, and what follows if it takes that.
  abbrev pub preloaded : List Effect → List Effect
  preloaded rest =
      if returns w.gdb.spawned
      then spawn
          (codes "stdbuf"
            ∷ codes "-oL"
            ∷ codes "-eL"
            ∷ codes "gdb"
            ∷ codes "-q"
            ∷ codes "-nx"
            ∷ codes "-ex"
            ∷ (codes "file " ++ w.dbg_kernel)
            ∷ [])
          (environment args w.os_environ)
        ∷ (if w.gdb.takes_source
            then write_stdin (codes "source " ++ (w.here ++ codes "/monitor.py\n")) ∷ rest
            else [])
      else []

  -- How far the script gets: to the command for a stub on this port.
  abbrev armed_at : Text → ℕ → List Text → Script ℕ
  armed_at dir port left = arm args w dir port left >>= λ _. give (ok port)

  abbrev armed_on : Text → List Text → Script ℕ
  armed_on dir left = give (find_free_port w.can_bind 1234) >>= λ port. armed_at dir port left

  abbrev armed_behind : Text → Script ℕ
  armed_behind dir = give (recv_until_prompt [] w.monitor.incoming).0 >>= λ _.
      armed_on dir (recv_until_prompt [] w.monitor.incoming).1

  abbrev armed_in : Text → Script ℕ
  armed_in dir = give (w.path_appears (dir ++ codes "/mon.sock")) >>= λ _.
      (give (w.connects (dir ++ codes "/mon.sock")) >>= λ _. armed_behind dir)

  abbrev booted : List Text → Script ℕ
  booted before = give w.kraft_spawned >>= λ _.
      (act (run_instance args.name) >>= λ _. (give (w.new_dir before) >>= λ dir. armed_in dir))

  pub until_armed : Script ℕ
  until_armed = give w.before >>= λ before. booted before

  wait_for_gdb-talks : keep talks (wait_for_gdb args w).1 ≡ ending
  unfolding wait_for_gdb drain_gdb_output
  wait_for_gdb-talks = elim (Bool-cases w.exits_in_time) [
    | inl e ↦ rw e refl
    | inr e ↦ rw e (stop_gdb_capture-talks w.gdb)
  ]

  after_kraft :
      (r : Result {0} Unit)
      → keep talks (give r >>= λ _. wait_for_gdb args w).1 ≡ (if returns r then ending else [])
  after_kraft (raise e) = refl
  after_kraft (ok u) = wait_for_gdb-talks

  attach-talks :
      (port : ℕ)
      → keep talks
          (attach_preloaded_gdb w.gdb port >>= λ _.
            (give w.kraft_ends >>= λ _. wait_for_gdb args w)).1
        ≡ attached (ok port)
  unfolding attach_preloaded_gdb flush
  attach-talks port = elim (Bool-cases w.gdb.takes_attach) [
    | inr broken ↦ simp broken refl
    | inl takes ↦ simp takes (
        ap
          (λ es.
            write_stdin (codes "target remote 127.0.0.1:" ++ (str (pos port) ++ codes "\n"))
            ∷ write_stdin (codes "continue\n")
            ∷ es)
          (after_kraft w.kraft_ends))
  ]

  capture_at-talks :
      (dir : Text) (port : ℕ) (left : List Text)
      → keep talks (capture_at args w dir port left).1 ≡ attached (armed_at dir port left).0
  unfolding capture_at
  capture_at-talks dir port left =
      Silent-follow talks attached (λ e. refl) (arm args w dir port left) _ (λ _. give (ok port))
        (unfold arm in refl) (λ _. attach-talks port)

  capture_in-talks : (dir : Text) → keep talks (capture_in args w dir).1 ≡ attached (armed_in dir).0
  unfolding capture_in
  capture_in-talks dir =
      let left = (recv_until_prompt [] w.monitor.incoming).1 in
      Silent-follow talks attached (λ e. refl) (give (w.path_appears (dir ++ codes "/mon.sock"))) _
        _ refl
        (λ _.
          Silent-follow talks attached (λ e. refl) (give (w.connects (dir ++ codes "/mon.sock"))) _
            _ refl
            (λ _.
              Silent-follow talks attached (λ e. refl)
                (give (recv_until_prompt [] w.monitor.incoming).0) _ _ refl
                (λ _.
                  Silent-follow talks attached (λ e. refl) (give (find_free_port w.can_bind 1234)) _
                    _ refl (λ port. capture_at-talks dir port left))))

  boot-talks : (before : List Text) → keep talks (boot args w before).1 ≡ attached (booted before).0
  unfolding boot capture finish stop_and_remove
  boot-talks before =
      Silent-follow talks attached (λ e. refl) (give w.kraft_spawned) _ _ refl
        (λ _.
          bind-Silent talks (capture args w before) (λ _. finish args w) (λ _. refl)
          ∙ Silent-follow talks attached (λ e. refl) (give (w.new_dir before)) _ _ refl
              (λ dir. capture_in-talks dir))

  preload-talks :
      (spawned : Result {0} Unit) (takes : Bool) (gdb_cmd : List Text) (env : Environ) (line : Text)
      (f : Unit → Script ℕ)
      → keep talks (((give spawned >> act (spawn gdb_cmd env)) >> flush takes (line ∷ [])) >>= f).1
        ≡ (if returns spawned
            then spawn gdb_cmd env ∷ (if takes then write_stdin line ∷ keep talks (f tt).1 else [])
            else [])
  unfolding flush
  preload-talks (raise e) takes gdb_cmd env line f = refl
  preload-talks (ok _) true gdb_cmd env line f = refl
  preload-talks (ok _) false gdb_cmd env line f = refl

  -- gdb is started first, if it can be, and told to read the monitor. If it takes that, it is told to
  -- attach exactly if everything up to the command for a stub returns, on the port of that stub; if
  -- it takes that too, kraft ends then, and gdb does not exit within the duration, it is ended: by an
  -- interrupt, `detach` and `quit` as far as it takes them, and SIGTERM if it does not exit then.
  -- Nothing else is done with it: whatever is raised in between leaves it running.
  pub main-tells : keep talks (main args w).1 ≡ preloaded (attached until_armed.0)
  unfolding main launch_gdb_preloaded popen until_armed
  main-tells =
      preload-talks w.gdb.spawned w.gdb.takes_source _ (environment args w.os_environ) _
        (λ _. give w.before >>= λ before. boot args w before)
      ∙ ap preloaded (
          Silent-follow talks attached (λ e. refl) (give w.before) (λ before. boot args w before)
            booted refl boot-talks)

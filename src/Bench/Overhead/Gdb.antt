-- ===== src/Bench/Overhead/Gdb.antt =====
-- The gdb process of bench_overhead.py.
use unikernel_syscall_monito.Base.{
  ℕ, ◌≡◌, refl, ap, ◌∙◌, Bool, true, false, List, [], ◌∷◌, keep, not,
}
use unikernel_syscall_monito.Base.Result.{Result, ok, raise}
use unikernel_syscall_monito.Base.Text.{Text}
use unikernel_syscall_monito.Gdbstub.Port.{find_free_port}
use unikernel_syscall_monito.Session.Gdb.{
  launch_gdb_capture, stop_gdb_capture-talks, gdb_ending, capture_command, popen-follow,
}
use unikernel_syscall_monito.Session.Host.{
  is_running, find_dir, attach, start_instance, stop_and_remove,
}
use unikernel_syscall_monito.Session.Chain.{Silent, Silent-bind, bind-Silent, Silent-follow}
use unikernel_syscall_monito.Session.Script.{Effect, Script, ◌>>=◌, give, spawn, talks}
use unikernel_syscall_monito.Bench.Compare.{throughput_change}
use unikernel_syscall_monito.Bench.Overhead.{
  Library, World, Summary, repeated, summary_of, monitored_reps, gdb_environ, monitor_at,
  monitor_in, monitor, run_baseline, run_monitored, measure, start_if, stop_if, show_change, finish,
  measure_and_finish, session, main, figures,
}

module _ {Float : Type 0} (lib : Library Float) (name : Text) (w : World) where
  -- The life of gdb: it is started and then ended.
  abbrev pub gdb_life : Result ℕ → List Effect
  gdb_life (raise e) = []
  gdb_life (ok port) =
      spawn (capture_command w.host.here w.host.dbg_kernel port) (gdb_environ lib name w)
      ∷ gdb_ending w.host.gdb

  -- How far the script gets: to a gdb that can be run, on the port of the stub.
  abbrev launched : ℕ → Script ℕ
  launched port = give w.host.gdb.spawned >>= λ _. give (ok port)

  abbrev attached_at : Text → ℕ → Script ℕ
  attached_at dir port = attach name w.host dir port >>= λ _. launched port

  abbrev attached_in : Text → Script ℕ
  attached_in dir = give (find_free_port w.host.can_bind 1234) >>= λ port. attached_at dir port

  abbrev attached : Script ℕ
  attached = find_dir name w.host >>= λ dir. attached_in dir

  abbrev measured : Script ℕ
  measured = run_baseline lib name w >>= λ _. attached

  abbrev started : Bool → Script ℕ
  started running = start_if lib name w (not running) >>= λ _. measured

  pub until_attached : Script ℕ
  until_attached = is_running name w.host >>= λ running. started running

  monitor_at-talks :
      (dir : Text) (port : ℕ)
      → keep talks (monitor_at lib name w dir port).1 ≡ gdb_life (attached_at dir port).0
  unfolding monitor_at launch_gdb_capture monitored_reps
  monitor_at-talks dir port =
      Silent-follow talks gdb_life (λ e. refl) (attach name w.host dir port) _ (λ _. launched port)
        (unfold attach in refl)
        (λ _.
          popen-follow w.host.gdb _ _ (λ _. monitored_reps lib name w) gdb_life port (λ e. refl)
            (ap
              (λ es.
                spawn (capture_command w.host.here w.host.dbg_kernel port) (gdb_environ lib name w)
                ∷ es)
              (stop_gdb_capture-talks w.host.gdb)))

  monitor-talks : keep talks (monitor lib name w).1 ≡ gdb_life attached.0
  unfolding monitor monitor_in find_dir
  monitor-talks =
      Silent-follow talks gdb_life (λ e. refl) (find_dir name w.host)
        (λ dir. monitor_in lib name w dir) attached_in
        (Silent-bind talks (give w.host.full_listing) _ refl (λ _. refl))
        (λ dir.
          Silent-follow talks gdb_life (λ e. refl) (give (find_free_port w.host.can_bind 1234))
            (λ port. monitor_at lib name w dir port) (attached_at dir) refl
            (λ port. monitor_at-talks dir port))

  run_baseline-Silent : Silent talks (run_baseline lib name w)
  unfolding run_baseline
  run_baseline-Silent = Silent-bind talks (give (figures lib w.warmup)) _ refl (λ _.
      Silent-bind talks (repeated lib w.baseline) (λ reps. summary_of lib reps) refl (λ _. refl))

  run_monitored-talks : keep talks (run_monitored lib name w).1 ≡ gdb_life attached.0
  unfolding run_monitored
  run_monitored-talks =
      bind-Silent talks (monitor lib name w) (λ reps. summary_of lib reps) (λ _. refl)
      ∙ monitor-talks

  measure-talks : keep talks (measure lib name w).1 ≡ gdb_life measured.0
  unfolding measure
  measure-talks =
      Silent-follow talks gdb_life (λ e. refl) (run_baseline lib name w) _ (λ _. attached)
        run_baseline-Silent
        (λ b.
          bind-Silent talks (run_monitored lib name w) (λ m. give (ok (b, m))) (λ _. refl)
          ∙ run_monitored-talks)

  show_change-Silent : (s : Summary lib × Summary lib) → Silent talks (show_change lib s)
  unfolding show_change
  show_change-Silent s =
      Silent-bind talks (give (throughput_change lib.floats s.0 s.1)) _ refl (λ _. refl)

  finish-Silent :
      (running : Bool) (s : Summary lib × Summary lib) → Silent talks (finish lib name w running s)
  unfolding finish stop_if stop_and_remove
  finish-Silent true s = Silent-bind talks (give w.written) _ refl (λ _. show_change-Silent s)
  finish-Silent false s = Silent-bind talks (give w.written) _ refl (λ _. show_change-Silent s)

  start_if-Silent : (b : Bool) → Silent talks (start_if lib name w b)
  unfolding start_if start_instance
  start_if-Silent true = refl
  start_if-Silent false = refl

  session-talks :
      (running : Bool) → keep talks (session lib name w running).1 ≡ gdb_life (started running).0
  unfolding session measure_and_finish
  session-talks running =
      Silent-follow talks gdb_life (λ e. refl) (start_if lib name w (not running)) _ (λ _. measured)
        (start_if-Silent (not running))
        (λ _.
          bind-Silent talks (measure lib name w) (λ s. finish lib name w running s)
            (λ s. finish-Silent running s)
          ∙ measure-talks)

  -- gdb is started exactly if everything before it returns, which ends with a stub on a free port, and
  -- its program can be run; it is started once, on that port, and then ended, unless it has exited:
  -- by an interrupt, `detach` and `quit` as far as it takes them, and SIGTERM if it does not exit
  -- then. Nothing else is done with it, whatever is raised afterwards.
  pub main-talks : keep talks (main lib name w).1 ≡ gdb_life until_attached.0
  unfolding main is_running until_attached
  main-talks =
      Silent-follow talks gdb_life (λ e. refl) (is_running name w.host)
        (λ running. session lib name w running) started
        (Silent-bind talks (give w.host.listing) _ refl (λ _. refl)) session-talks

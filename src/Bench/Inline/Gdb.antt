-- ===== src/Bench/Inline/Gdb.antt =====
-- The gdb process of the third condition of bench_overhead_inline.py.
use unikernel_syscall_monito.Base.{
  ℕ, ◌≡◌, refl, ap, ◌∙◌, Bool, true, false, List, [], ◌∷◌, ◌++◌, keep, keep-append, append-nil,
  if◌then◌else◌,
}
use unikernel_syscall_monito.Base.Int.{ℤ}
use unikernel_syscall_monito.Base.Result.{Result, ok, raise}
use unikernel_syscall_monito.Base.Text.{Text, codes}
use unikernel_syscall_monito.Gdbstub.Port.{find_free_port}
use unikernel_syscall_monito.Session.Environment.{Environ}
use unikernel_syscall_monito.Session.Gdb.{
  launch_gdb_capture, stop_gdb_capture, stop_gdb_capture-talks, gdb_ending, capture_command,
  popen-follow,
}
use unikernel_syscall_monito.Session.Host.{find_dir, attach, stop_and_remove}
use unikernel_syscall_monito.Session.Chain.{Silent, Silent-bind, bind-Silent, Silent-follow}
use unikernel_syscall_monito.Session.Script.{Effect, Script, ◌>>=◌, give, try_finally, spawn, talks}
use unikernel_syscall_monito.Bench.Compare.{print_changes}
use unikernel_syscall_monito.Bench.Overhead.{Library, Summary, summary_of, figures}
use unikernel_syscall_monito.Bench.Inline.{
  Condition, World, kraft_run, custom_environ, gdb_name, benchmark, run_condition_custom_qemu,
  gdb_environ, gdb_at, gdb_in, with_gdb, run_condition_gdb, third, second, first, failure, main,
}

-- Ending the instance does nothing with gdb.
try_finally-talks :
    {A : Type 0} (m : Script A) (name : Text)
    → keep talks (try_finally m (stop_and_remove name)).1 ≡ keep talks m.1
unfolding stop_and_remove
try_finally-talks m name = keep-append talks m.1 _ ∙ append-nil (keep talks m.1)

kraft_run-Silent :
    (name : Text) (patched : Bool) (env : Environ) (started : Result {0} Unit)
    → Silent talks (kraft_run name patched env started)
unfolding kraft_run
kraft_run-Silent name true env started = refl
kraft_run-Silent name false env started = refl

module _ {Float : Type 0} (lib : Library Float) (w : World) where
  -- The life of gdb: it is started and then ended.
  abbrev pub gdb_life : Result ℕ → List Effect
  gdb_life (raise e) = []
  gdb_life (ok port) =
      spawn (capture_command w.host.here w.host.dbg_kernel port) (gdb_environ lib w)
      ∷ gdb_ending w.host.gdb

  -- How far the script gets: to a gdb that can be run, on the port of the stub.
  abbrev launched : ℕ → Script ℕ
  launched port = give w.host.gdb.spawned >>= λ _. give (ok port)

  abbrev attached_at : Text → ℕ → Script ℕ
  attached_at dir port = attach gdb_name w.host dir port >>= λ _. launched port

  abbrev attached_in : Text → Script ℕ
  attached_in dir = give (find_free_port w.host.can_bind 1234) >>= λ port. attached_at dir port

  abbrev attached : Script ℕ
  attached = find_dir gdb_name w.host >>= λ dir. attached_in dir

  abbrev until_third : Script ℕ
  until_third = kraft_run gdb_name false w.host.os_environ w.gdb_rsp.started >>= λ _. attached

  abbrev until_second : ℤ → Script ℕ
  until_second addr =
      run_condition_custom_qemu lib w (codes "vmibench3inline") addr true w.inline >>= λ reps.
      (summary_of lib reps >>= λ _. until_third)

  abbrev until_first : ℤ → Script ℕ
  until_first addr =
      run_condition_custom_qemu lib w (codes "vmibench3base") addr false w.baseline >>= λ reps.
      (summary_of lib reps >>= λ _. until_second addr)

  pub until_attached : Script ℕ
  until_attached = give w.addr >>= λ addr. until_first addr

  benchmark-Silent : (c : Condition) → Silent talks (benchmark lib w c)
  unfolding benchmark
  benchmark-Silent c = Silent-bind talks (give (figures lib c.warmup)) _ refl (λ _. refl)

  custom-Silent :
      (name : Text) (addr : ℤ) (monitor_enabled : Bool) (c : Condition)
      → Silent talks (run_condition_custom_qemu lib w name addr monitor_enabled c)
  unfolding run_condition_custom_qemu
  custom-Silent name addr monitor_enabled c =
      let env = custom_environ w.host.here name addr monitor_enabled w.host.os_environ in
      Silent-bind talks (kraft_run name true env c.started) _
        (kraft_run-Silent name true env c.started)
        (λ _. try_finally-talks (benchmark lib w c) name ∙ benchmark-Silent c)

  gdb_at-talks :
      (c : Condition) (dir : Text) (port : ℕ)
      → keep talks (gdb_at lib w c dir port).1 ≡ gdb_life (attached_at dir port).0
  unfolding gdb_at launch_gdb_capture
  gdb_at-talks c dir port =
      Silent-follow talks gdb_life (λ e. refl) (attach gdb_name w.host dir port) _
        (λ _. launched port) (unfold attach in refl)
        (λ _.
          popen-follow w.host.gdb _ _
            (λ _. try_finally (benchmark lib w c) (stop_gdb_capture w.host.gdb)) gdb_life port
            (λ e. refl)
            (ap
              (λ es.
                spawn (capture_command w.host.here w.host.dbg_kernel port) (gdb_environ lib w) ∷ es)
              (keep-append talks (benchmark lib w c).1 (stop_gdb_capture w.host.gdb).1
                ∙ ap (λ es. es ++ keep talks (stop_gdb_capture w.host.gdb).1) (benchmark-Silent c)
                ∙ stop_gdb_capture-talks w.host.gdb)))

  with_gdb-talks : (c : Condition) → keep talks (with_gdb lib w c).1 ≡ gdb_life attached.0
  unfolding with_gdb gdb_in find_dir
  with_gdb-talks c =
      Silent-follow talks gdb_life (λ e. refl) (find_dir gdb_name w.host) _ attached_in
        (Silent-bind talks (give w.host.full_listing) _ refl (λ _. refl))
        (λ dir.
          Silent-follow talks gdb_life (λ e. refl) (give (find_free_port w.host.can_bind 1234)) _
            (attached_at dir) refl (λ port. gdb_at-talks c dir port))

  run_condition_gdb-talks :
      keep talks (run_condition_gdb lib w w.gdb_rsp).1 ≡ gdb_life until_third.0
  unfolding run_condition_gdb
  run_condition_gdb-talks =
      Silent-follow talks gdb_life (λ e. refl)
        (kraft_run gdb_name false w.host.os_environ w.gdb_rsp.started) _ (λ _. attached)
        (kraft_run-Silent gdb_name false w.host.os_environ w.gdb_rsp.started)
        (λ _. try_finally-talks (with_gdb lib w w.gdb_rsp) gdb_name ∙ with_gdb-talks w.gdb_rsp)

  third-talks : (a b : Summary lib) → keep talks (third lib w a b).1 ≡ gdb_life until_third.0
  unfolding third
  third-talks a b =
      bind-Silent talks (run_condition_gdb lib w w.gdb_rsp) _ (λ reps.
        Silent-bind talks (summary_of lib reps) _ refl (λ c.
          Silent-bind talks (give w.written) _ refl
            (λ _. Silent-bind talks (give (print_changes lib.floats a b c)) _ refl (λ _. refl))))
      ∙ run_condition_gdb-talks

  second-talks :
      (addr : ℤ) (a : Summary lib)
      → keep talks (second lib w addr a).1 ≡ gdb_life (until_second addr).0
  unfolding second
  second-talks addr a =
      Silent-follow talks gdb_life (λ e. refl)
        (run_condition_custom_qemu lib w (codes "vmibench3inline") addr true w.inline) _ _
        (custom-Silent (codes "vmibench3inline") addr true w.inline)
        (λ reps.
          Silent-follow talks gdb_life (λ e. refl) (summary_of lib reps) _ (λ _. until_third) refl
            (λ b. third-talks a b))

  first-talks : (addr : ℤ) → keep talks (first lib w addr).1 ≡ gdb_life (until_first addr).0
  unfolding first
  first-talks addr =
      Silent-follow talks gdb_life (λ e. refl)
        (run_condition_custom_qemu lib w (codes "vmibench3base") addr false w.baseline) _ _
        (custom-Silent (codes "vmibench3base") addr false w.baseline)
        (λ reps.
          Silent-follow talks gdb_life (λ e. refl) (summary_of lib reps) _ (λ _. until_second addr)
            refl (λ a. second-talks addr a))

  guarded :
      (b : Bool)
      → keep talks (if b then (give w.addr >>= λ addr. first lib w addr) else give (ok failure)).1
        ≡ (if b then gdb_life until_attached.0 else [])
  unfolding until_attached
  guarded true =
      Silent-follow talks gdb_life (λ e. refl) (give w.addr) (λ addr. first lib w addr) until_first
        refl first-talks
  guarded false = refl

  -- If QEMU's file is there, gdb is started exactly if everything before it returns: the first two
  -- conditions with their summaries, the start of the third instance, and all up to a stub on a free
  -- port; and its program can be run. It is started once, on that port, and then ended, unless it has
  -- exited: by an interrupt, `detach` and `quit` as far as it takes them, and SIGTERM if it does not
  -- exit then. Nothing else is done with it, whatever is raised afterwards.
  pub main-gdb_life :
      keep talks (main lib w).1 ≡ (if w.qemu_is_file then gdb_life until_attached.0 else [])
  unfolding main
  main-gdb_life = guarded w.qemu_is_file

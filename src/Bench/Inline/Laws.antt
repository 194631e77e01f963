-- ===== src/Bench/Inline/Laws.antt =====
-- Which instances bench_overhead_inline.py starts and ends, and the environments it gives them.
use unikernel_syscall_monito.Base.{
  ℕ, ◌≡◌, refl, ap, ◌∙◌, Bool, true, false, List, [], ◌∷◌, ◌++◌, keep, keep-append, if◌then◌else◌,
  some,
}
use unikernel_syscall_monito.Base.Int.{ℤ}
use unikernel_syscall_monito.Base.Result.{Result, ok, raise}
use unikernel_syscall_monito.Base.Text.{Text, codes}
use unikernel_syscall_monito.Py.Number.{hex}
use unikernel_syscall_monito.Session.Environment.{Environ, get}
use unikernel_syscall_monito.Session.Gdb.{
  launch_gdb_capture, popen-Quiet, stop_gdb_capture, stop_gdb_capture-Quiet,
}
use unikernel_syscall_monito.Session.Host.{find_dir, attach, stop_and_remove}
use unikernel_syscall_monito.Session.Host.Laws.{returns, find_dir-Quiet, attach-Quiet}
use unikernel_syscall_monito.Session.Chain.{Silent-bind, bind-Silent, bind-part}
use unikernel_syscall_monito.Session.Script.{
  Effect, Script, ◌>>◌, ◌>>=◌, give, try_finally, run_instance, run_patched, stop_instance,
  remove_instance, touches, Quiet, Quiet-bind, Quiet-give, Quiet-try_finally,
}
use unikernel_syscall_monito.Bench.Compare.{print_changes}
use unikernel_syscall_monito.Bench.Overhead.{Library, Summary, summary_of, figures}
use unikernel_syscall_monito.Bench.Inline.{
  Condition, World, run_effect, kraft_run, custom_environ, gdb_name, benchmark,
  run_condition_custom_qemu, gdb_environ, gdb_at, gdb_in, with_gdb, run_condition_gdb, third,
  second, first, failure, main,
}

-- An instance that could be started is stopped and then removed.
abbrev pub life : Text → Effect → Result {0} Unit → List Effect
life name run started =
    run ∷ (if returns started then stop_instance name ∷ remove_instance name ∷ [] else [])

try_finally-stop :
    {A : Type 0} (m : Script A) (name : Text)
    → Quiet m
    → keep touches (try_finally m (stop_and_remove name)).1
      ≡ stop_instance name ∷ remove_instance name ∷ []
unfolding stop_and_remove
try_finally-stop m name q =
    keep-append touches m.1 _
    ∙ ap (λ es. es ++ stop_instance name ∷ remove_instance name ∷ []) q.quiet

run_effect-touches :
    (name : Text) (patched : Bool) (env : Environ) → touches (run_effect name patched env) ≡ true
run_effect-touches name true env = refl
run_effect-touches name false env = refl

-- A condition starts its instance, and ends it if it could be started, whatever happens meanwhile.
condition_life :
    {A : Type 0} (name : Text) (patched : Bool) (env : Environ) (started : Result {0} Unit)
    (body : Script A)
    → Quiet body
    → keep touches (kraft_run name patched env started >> try_finally body (stop_and_remove name)).1
      ≡ life name (run_effect name patched env) started
unfolding kraft_run
condition_life name patched env (raise e) body q = rw (run_effect-touches name patched env) refl
condition_life name patched env (ok u) body q =
    rw (run_effect-touches name patched env)
      (ap (λ es. run_effect name patched env ∷ es) (try_finally-stop body name q))

module _ {Float : Type 0} (lib : Library Float) (w : World) where
  benchmark-Quiet : (c : Condition) → Quiet (benchmark lib w c)
  unfolding benchmark
  benchmark-Quiet c = Quiet-give (figures lib c.warmup) _ (λ _. record { quiet = refl })

  gdb_at-Quiet : (c : Condition) (dir : Text) (port : ℕ) → Quiet (gdb_at lib w c dir port)
  unfolding gdb_at launch_gdb_capture
  gdb_at-Quiet c dir port =
      Quiet-bind (attach gdb_name w.host dir port) _ (attach-Quiet gdb_name w.host dir port) (λ _.
        Quiet-bind
          (launch_gdb_capture w.host.here w.host.dbg_kernel w.host.gdb port (gdb_environ lib w)) _
          (popen-Quiet w.host.gdb _ _)
          (λ _.
            Quiet-try_finally (benchmark lib w c) (stop_gdb_capture w.host.gdb) (benchmark-Quiet c)
              (stop_gdb_capture-Quiet w.host.gdb)))

  with_gdb-Quiet : (c : Condition) → Quiet (with_gdb lib w c)
  unfolding with_gdb gdb_in
  with_gdb-Quiet c =
      Quiet-bind (find_dir gdb_name w.host) _ (find_dir-Quiet gdb_name w.host)
        (λ dir. Quiet-give _ (λ port. gdb_at lib w c dir port) (λ port. gdb_at-Quiet c dir port))

  custom_life :
      (name : Text) (addr : ℤ) (monitor_enabled : Bool) (c : Condition)
      → keep touches (run_condition_custom_qemu lib w name addr monitor_enabled c).1
        ≡ life name
            (run_patched name
              (custom_environ w.host.here name addr monitor_enabled w.host.os_environ))
            c.started
  unfolding run_condition_custom_qemu
  custom_life name addr monitor_enabled c =
      condition_life name true _ c.started (benchmark lib w c) (benchmark-Quiet c)

  gdb_life :
      (c : Condition)
      → keep touches (run_condition_gdb lib w c).1 ≡ life gdb_name (run_instance gdb_name) c.started
  unfolding run_condition_gdb
  gdb_life c =
      condition_life gdb_name false w.host.os_environ c.started (with_gdb lib w c)
        (with_gdb-Quiet c)

  -- The first two conditions with their summaries.
  abbrev pub baseline_summary : ℤ → Script (Summary lib)
  baseline_summary addr =
      run_condition_custom_qemu lib w (codes "vmibench3base") addr false w.baseline >>= λ reps.
      summary_of lib reps

  abbrev pub inline_summary : ℤ → Script (Summary lib)
  inline_summary addr =
      run_condition_custom_qemu lib w (codes "vmibench3inline") addr true w.inline >>= λ reps.
      summary_of lib reps

  abbrev pub custom : Text → ℤ → Bool → Effect
  custom name addr monitor_enabled =
      run_patched name (custom_environ w.host.here name addr monitor_enabled w.host.os_environ)

  -- The effects on instances: of the third condition, from the second one on, and of all.
  abbrev pub third_lives : List Effect
  third_lives = life gdb_name (run_instance gdb_name) w.gdb_rsp.started

  abbrev pub second_lives : ℤ → List Effect
  second_lives addr =
      life (codes "vmibench3inline") (custom (codes "vmibench3inline") addr true) w.inline.started
      ++ (if returns (inline_summary addr).0 then third_lives else [])

  abbrev pub lives : Result ℤ → List Effect
  lives (raise e) = []
  lives (ok addr) =
      life (codes "vmibench3base") (custom (codes "vmibench3base") addr false) w.baseline.started
      ++ (if returns (baseline_summary addr).0 then second_lives addr else [])

  third_lem : (a b : Summary lib) → keep touches (third lib w a b).1 ≡ third_lives
  unfolding third
  third_lem a b =
      bind-Silent touches (run_condition_gdb lib w w.gdb_rsp) _ (λ reps.
        Silent-bind touches (summary_of lib reps) _ refl (λ c.
          Silent-bind touches (give w.written) _ refl
            (λ _. Silent-bind touches (give (print_changes lib.floats a b c)) _ refl (λ _. refl))))
      ∙ gdb_life w.gdb_rsp

  second_lem :
      (addr : ℤ) (a : Summary lib) → keep touches (second lib w addr a).1 ≡ second_lives addr
  unfolding second
  second_lem addr a =
      bind-part touches
        (run_condition_custom_qemu lib w (codes "vmibench3inline") addr true w.inline)
        (λ reps. summary_of lib reps) (λ b. third lib w a b) _ third_lives
        (custom_life (codes "vmibench3inline") addr true w.inline) (λ _. refl) (λ b. third_lem a b)

  first_lem : (addr : ℤ) → keep touches (first lib w addr).1 ≡ lives (ok addr)
  unfolding first
  first_lem addr =
      bind-part touches
        (run_condition_custom_qemu lib w (codes "vmibench3base") addr false w.baseline)
        (λ reps. summary_of lib reps) (λ a. second lib w addr a) _ (second_lives addr)
        (custom_life (codes "vmibench3base") addr false w.baseline) (λ _. refl)
        (λ a. second_lem addr a)

  resolved : (r : Result ℤ) → keep touches (give r >>= λ addr. first lib w addr).1 ≡ lives r
  resolved (raise e) = refl
  resolved (ok addr) = first_lem addr

  guarded :
      (b : Bool)
      → keep touches (if b then (give w.addr >>= λ addr. first lib w addr) else give (ok failure)).1
        ≡ (if b then lives w.addr else [])
  guarded true = resolved w.addr
  guarded false = refl

  -- If QEMU's path is a file and the address is resolved, and only then, the first condition is run.
  -- The second one is run exactly if the first one returns and is summarized, and so is the third
  -- one after the second. In each of them the instance is started, and then stopped and removed
  -- exactly if it could be started, before the next one is started; nothing else is done to
  -- instances, whatever is raised.
  pub main-lives : keep touches (main lib w).1 ≡ (if w.qemu_is_file then lives w.addr else [])
  unfolding main
  main-lives = guarded w.qemu_is_file

-- The instance that runs with the monitor gets its address and its log file, whatever was inherited.
-- The baseline gets exactly what was inherited, with the address of a monitor if there was one.
pub custom_environ_lem :
    (here name : Text) (addr : ℤ) (os_environ : Environ)
    → (get (codes "VMI_MONITOR_ADDR") (custom_environ here name addr true os_environ)
        ≡ some (hex addr))
      × (get (codes "VMI_MONITOR_LOG") (custom_environ here name addr true os_environ)
          ≡ some (here ++ codes "/logs/bench_inline_" ++ name ++ codes ".jsonl"))
      × ((key : Text)
          → get key (custom_environ here name addr false os_environ) ≡ get key os_environ)
unfolding custom_environ
custom_environ_lem here name addr os_environ = (refl, refl, λ key. refl)

-- ===== src/Bench/Overhead/Laws.antt =====
-- Which instances and which gdb processes bench_overhead.py starts and ends.
use unikernel_syscall_monito.Base.{
  ℕ, ◌≡◌, refl, ap, Bool, true, false, List, [], ◌∷◌, keep, if◌then◌else◌,
}
use unikernel_syscall_monito.Base.Result.{ok}
use unikernel_syscall_monito.Base.Text.{Text}
use unikernel_syscall_monito.Session.Gdb.{launch_gdb_capture, popen-Quiet, stop_gdb_capture-Quiet}
use unikernel_syscall_monito.Session.Host.{
  is_running, find_dir, attach, start_instance, stop_and_remove,
}
use unikernel_syscall_monito.Session.Host.Laws.{
  returns, keep-and_then, run_then, and_then_of, is_running-Quiet, find_dir-Quiet, attach-Quiet,
}
use unikernel_syscall_monito.Session.Script.{
  Effect, run_instance, stop_instance, remove_instance, touches, Quiet, Quiet-bind, Quiet-give,
}
use unikernel_syscall_monito.Bench.Compare.{throughput_change}
use unikernel_syscall_monito.Bench.Overhead.{
  Library, World, Summary, repeated, summary_of, monitored_reps, gdb_environ, monitor_at,
  monitor_in, monitor, run_baseline, run_monitored, measure, start_if, stop_if, show_change, finish,
  measure_and_finish, session, main, figures,
}

module _ {Float : Type 0} (lib : Library Float) (name : Text) (w : World) where
  monitored_reps-Quiet : Quiet (monitored_reps lib name w)
  unfolding monitored_reps
  monitored_reps-Quiet = record { quiet = (stop_gdb_capture-Quiet w.host.gdb).quiet }

  monitor_at-Quiet : (dir : Text) (port : ℕ) → Quiet (monitor_at lib name w dir port)
  unfolding monitor_at launch_gdb_capture
  monitor_at-Quiet dir port =
      Quiet-bind (attach name w.host dir port) _ (attach-Quiet name w.host dir port) (λ _.
        Quiet-bind
          (launch_gdb_capture w.host.here w.host.dbg_kernel w.host.gdb port
            (gdb_environ lib name w))
          _ (popen-Quiet w.host.gdb _ _) (λ _. monitored_reps-Quiet))

  monitor-Quiet : Quiet (monitor lib name w)
  unfolding monitor monitor_in
  monitor-Quiet = Quiet-bind (find_dir name w.host) _ (find_dir-Quiet name w.host) (λ dir.
      Quiet-give _ (λ port. monitor_at lib name w dir port) (λ port. monitor_at-Quiet dir port))

  run_baseline-Quiet : Quiet (run_baseline lib name w)
  unfolding run_baseline
  run_baseline-Quiet = Quiet-give (figures lib w.warmup) _ (λ _.
      Quiet-bind (repeated lib w.baseline) (λ reps. summary_of lib reps) (record { quiet = refl })
        (λ reps. record { quiet = refl }))

  measure-Quiet : Quiet (measure lib name w)
  unfolding measure run_monitored
  measure-Quiet = Quiet-bind (run_baseline lib name w) _ run_baseline-Quiet (λ _.
      Quiet-bind (run_monitored lib name w) _
        (Quiet-bind (monitor lib name w) _ monitor-Quiet (λ reps. record { quiet = refl }))
        (λ _. record { quiet = refl }))

  -- What becomes of the instance that the script has started.
  abbrev pub cleanup : List Effect
  cleanup =
      if returns (measure lib name w).0 then stop_instance name ∷ remove_instance name ∷ [] else []

  abbrev pub owned : Bool → List Effect
  owned true = []
  owned false = run_instance name ∷ (if returns w.host.started then cleanup else [])

  show_change-Quiet : (s : Summary lib × Summary lib) → Quiet (show_change lib s)
  unfolding show_change
  show_change-Quiet s =
      Quiet-give (throughput_change lib.floats s.0 s.1) _ (λ _. record { quiet = refl })

  finish-ours :
      (s : Summary lib × Summary lib)
      → keep touches (finish lib name w false s).1 ≡ stop_instance name ∷ remove_instance name ∷ []
  unfolding finish stop_if stop_and_remove
  finish-ours s =
      ap (λ es. stop_instance name ∷ remove_instance name ∷ es)
        (Quiet-give w.written _ (λ _. show_change-Quiet s)).quiet

  finish-theirs : (s : Summary lib × Summary lib) → Quiet (finish lib name w true s)
  unfolding finish stop_if
  finish-theirs s = Quiet-give w.written _ (λ _. show_change-Quiet s)

  session_lem : (running : Bool) → keep touches (session lib name w running).1 ≡ owned running
  unfolding session start_if start_instance measure_and_finish
  session_lem true = (Quiet-bind (measure lib name w) _ measure-Quiet (λ s. finish-theirs s)).quiet
  session_lem false =
      run_then w.host.started name (λ _. measure_and_finish lib name w false) cleanup
        (λ _.
          keep-and_then (measure lib name w).0 (measure lib name w).1 _ _ measure-Quiet.quiet
            finish-ours)

  -- Where it is found out whether the instance runs: one that runs already is neither started nor
  -- stopped nor removed, and one that does not run is started, once, and it is stopped and then
  -- removed exactly if it could be started and both conditions were measured; after an exception
  -- before that it is left running.
  pub main-touches :
      (running : Bool)
      → (is_running name w.host).0 ≡ ok running
      → keep touches (main lib name w).1 ≡ owned running
  unfolding main
  main-touches running h =
      and_then_of (is_running name w.host) (λ r. session lib name w r) running _
        (is_running-Quiet name w.host) h (session_lem running)

-- ===== src/Session/Capture/Laws.antt =====
-- Which instances run_capture.py starts, stops and removes.
use unikernel_syscall_monito.Base.{
  ℕ, ◌≡◌, refl, Bool, true, false, List, [], ◌∷◌, keep, if◌then◌else◌, Bool-cases, inl, inr,
}
use unikernel_syscall_monito.Base.Result.{ok}
use unikernel_syscall_monito.Base.Text.{Text}
use unikernel_syscall_monito.Session.Environment.{Args}
use unikernel_syscall_monito.Session.Gdb.{
  launch_gdb_capture, popen-Quiet, drain_gdb_output, stop_gdb_capture-Quiet,
}
use unikernel_syscall_monito.Session.Script.{
  Effect, run_instance, stop_instance, remove_instance, touches, Quiet, Quiet-bind, Quiet-give,
}
use unikernel_syscall_monito.Session.Host.{
  start_instance, stop_and_remove, is_running, attach, find_dir,
}
use unikernel_syscall_monito.Session.Host.Laws.{
  returns, keep-and_then, run_then, and_then_of, is_running-Quiet, find_dir-Quiet, attach-Quiet,
}
use unikernel_syscall_monito.Session.Capture.{
  World, capture, start_if, stop_if, session, finish, capture_and_finish, wait_for_gdb, capture_at,
  capture_in, main,
}

module _ (args : Args) (w : World) where
  wait_for_gdb-Quiet : Quiet (wait_for_gdb args w)
  unfolding wait_for_gdb drain_gdb_output
  wait_for_gdb-Quiet = elim (Bool-cases w.exits_in_time) [
    | inl e ↦ rw e (record { quiet = refl })
    | inr e ↦ rw e (stop_gdb_capture-Quiet w.host.gdb)
  ]

  capture_at-Quiet : (dir : Text) (port : ℕ) → Quiet (capture_at args w dir port)
  unfolding capture_at launch_gdb_capture
  capture_at-Quiet dir port =
      Quiet-bind (attach args.name w.host dir port) _ (attach-Quiet args.name w.host dir port) (λ _.
        Quiet-bind (launch_gdb_capture w.host.here w.host.dbg_kernel w.host.gdb port _) _
          (popen-Quiet w.host.gdb _ _) (λ _. wait_for_gdb-Quiet))

  capture_in-Quiet : (dir : Text) → Quiet (capture_in args w dir)
  unfolding capture_in
  capture_in-Quiet dir =
      Quiet-give _ (λ port. capture_at args w dir port) (λ port. capture_at-Quiet dir port)

  capture-Quiet : Quiet (capture args w)
  unfolding capture
  capture-Quiet =
      Quiet-bind (find_dir args.name w.host) (λ dir. capture_in args w dir)
        (find_dir-Quiet args.name w.host) capture_in-Quiet

  -- What becomes of the instance that the script has started.
  abbrev pub cleanup : List Effect
  cleanup =
      if returns (capture args w).0
      then stop_instance args.name ∷ remove_instance args.name ∷ []
      else []

  -- The effects on instances of a script that has found out whether the instance runs.
  abbrev pub owned : Bool → List Effect
  owned true = []
  owned false = run_instance args.name ∷ (if returns w.host.started then cleanup else [])

  capture_and_finish-ours : keep touches (capture_and_finish args w false).1 ≡ cleanup
  unfolding capture_and_finish finish stop_if stop_and_remove
  capture_and_finish-ours =
      keep-and_then (capture args w).0 (capture args w).1 (λ _. finish args w false) _
        capture-Quiet.quiet (λ _. refl)

  capture_and_finish-theirs : Quiet (capture_and_finish args w true)
  unfolding capture_and_finish finish stop_if
  capture_and_finish-theirs =
      Quiet-bind (capture args w) (λ _. finish args w true) capture-Quiet
        (λ _. record { quiet = refl })

  session_lem : (running : Bool) → keep touches (session args w running).1 ≡ owned running
  unfolding session start_if start_instance
  session_lem true = capture_and_finish-theirs.quiet
  session_lem false =
      run_then w.host.started args.name (λ _. capture_and_finish args w false) cleanup
        (λ _. capture_and_finish-ours)

  -- An instance that runs already is neither started nor stopped nor removed, whatever happens.
  -- One that does not run is started, once, and it is stopped and then removed exactly if it could
  -- be started and nothing was raised before the end of gdb: after an exception it is left running.
  pub main_lem :
      (running : Bool)
      → (is_running args.name w.host).0 ≡ ok running
      → keep touches (main args w).1 ≡ owned running
  unfolding main
  main_lem running h =
      and_then_of (is_running args.name w.host) (λ r. session args w r) running _
        (is_running-Quiet args.name w.host) h (session_lem running)

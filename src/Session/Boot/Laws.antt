-- ===== src/Session/Boot/Laws.antt =====
-- The instance of run_capture_from_boot.py.
use unikernel_syscall_monito.Base.{
  ℕ, ◌≡◌, refl, ap, ◌∙◌, List, [], ◌∷◌, ◌++◌, keep, if◌then◌else◌, Bool-cases, inl, inr,
}
use unikernel_syscall_monito.Base.Result.{Result, ok, raise}
use unikernel_syscall_monito.Base.Text.{Text, codes}
use unikernel_syscall_monito.Gdbstub.Port.{find_free_port}
use unikernel_syscall_monito.Gdbstub.Hmp.{recv_until_prompt}
use unikernel_syscall_monito.Session.Environment.{Args, environment}
use unikernel_syscall_monito.Session.Chain.{Silent-follow, result-bind}
use unikernel_syscall_monito.Session.Gdb.{
  loaded, launch_gdb_preloaded-Quiet, launch_gdb_preloaded-loaded, launch_gdb_preloaded,
  attach_preloaded_gdb, attach_preloaded_gdb-Quiet, drain_gdb_output, stop_gdb_capture-Quiet,
}
use unikernel_syscall_monito.Session.Host.{stop_and_remove}
use unikernel_syscall_monito.Session.Host.Laws.{returns, keep-and_then}
use unikernel_syscall_monito.Session.Script.{
  Script, Effect, ◌>>=◌, ◌>>◌, act, give, run_instance, stop_instance, remove_instance, touches,
  Quiet, Quiet-bind, Quiet-give,
}
use unikernel_syscall_monito.Session.Boot.{
  World, arm, wait_for_gdb, capture_at, capture_in, capture, finish, boot, main,
}

module _ (args : Args) (w : World) where
  wait_for_gdb-Quiet : Quiet (wait_for_gdb args w)
  unfolding wait_for_gdb drain_gdb_output
  wait_for_gdb-Quiet = elim (Bool-cases w.exits_in_time) [
    | inl e ↦ rw e (record { quiet = refl })
    | inr e ↦ rw e (stop_gdb_capture-Quiet w.gdb)
  ]

  capture_at-Quiet :
      (dir : Text) (port : ℕ) (left : List Text) → Quiet (capture_at args w dir port left)
  unfolding capture_at arm
  capture_at-Quiet dir port left =
      Quiet-bind (arm args w dir port left) _ (record { quiet = refl })
        (λ _.
          Quiet-bind (attach_preloaded_gdb w.gdb port) _ (attach_preloaded_gdb-Quiet w.gdb port)
            (λ _. Quiet-give w.kraft_ends _ (λ _. wait_for_gdb-Quiet)))

  capture-Quiet : (before : List Text) → Quiet (capture args w before)
  unfolding capture capture_in
  capture-Quiet before =
      Quiet-give (w.new_dir before) (λ dir. capture_in args w dir)
        (λ dir. Quiet-give (w.path_appears (dir ++ codes "/mon.sock")) _ (λ _.
          Quiet-give (w.connects (dir ++ codes "/mon.sock")) _ (λ _.
            Quiet-give (recv_until_prompt [] w.monitor.incoming).0 _ (λ _.
              Quiet-give (find_free_port w.can_bind 1234) _
                (λ port. capture_at-Quiet dir port (recv_until_prompt [] w.monitor.incoming).1)))))

  -- What comes before the instance: gdb is started and takes the command to read the monitor, the
  -- runtime directory is listed, and kraft can be run.
  abbrev pub listed : Script (List Text)
  listed = do before ← give w.before; give w.kraft_spawned; give (ok before)

  abbrev pub prepared : Script (List Text)
  prepared = loaded w.gdb >> listed

  -- The effects on instances: it is stopped and removed exactly if nothing was raised before.
  abbrev pub life : Result (List Text) → List Effect
  life (raise e) = []
  life (ok before) =
      run_instance args.name
      ∷ (if returns (capture args w before).0
          then stop_instance args.name ∷ remove_instance args.name ∷ []
          else [])

  boot_lem :
      (before : List Text)
      → keep touches (boot args w before).1
        ≡ life (give w.kraft_spawned >>= λ _. give (ok before)).0
  unfolding boot finish stop_and_remove
  boot_lem before =
      elim w.kraft_spawned
        as (λ k.
          keep touches
            (give k >> (act (run_instance args.name) >> (capture args w before >> finish args w))).1
          ≡ life (give k >>= λ _. give (ok before)).0) [
            | raise e ↦ refl
            | ok _ ↦
                ap (λ es. run_instance args.name ∷ es)
                  (keep-and_then (capture args w before).0 (capture args w before).1
                    (λ _. finish args w) _ (capture-Quiet before).quiet (λ _. refl))
          ]

  after_listing :
      (r : Result (List Text))
      → keep touches (give r >>= λ before. boot args w before).1
        ≡ life (give r >>= λ before. (give w.kraft_spawned >>= λ _. give (ok before))).0
  after_listing (raise e) = refl
  after_listing (ok before) = boot_lem before

  -- The instance is started exactly if gdb can be started and takes the command to read the monitor,
  -- the runtime directory can be listed and kraft can be run; and it is stopped and then removed
  -- exactly if nothing was raised until gdb had ended; otherwise it is left running.
  pub main-life : keep touches (main args w).1 ≡ life prepared.0
  unfolding main
  main-life =
      let env = environment args w.os_environ in
      let launch = launch_gdb_preloaded w.here w.dbg_kernel w.gdb env in
      Silent-follow touches life (λ e. refl) launch
        (λ _. give w.before >>= λ before. boot args w before) (λ _. listed)
        (launch_gdb_preloaded-Quiet w.here w.dbg_kernel w.gdb env).quiet
        (λ _. after_listing w.before)
      ∙ ap life (
          result-bind launch (loaded w.gdb) (λ _. listed)
            (launch_gdb_preloaded-loaded w.here w.dbg_kernel w.gdb env))

-- ===== src/Inline/Start/Laws.antt =====
-- When run_capture_inline.py starts and ends an instance, and which variables QEMU gets.
use unikernel_syscall_monito.Base.{
  ℕ, ◌≡◌, refl, Bool, true, false, Option, none, some, List, [], ◌∷◌, keep, ◌⊎◌, if◌then◌else◌,
  Bool-cases, inl, inr,
}
use unikernel_syscall_monito.Base.Int.{ℤ}
use unikernel_syscall_monito.Base.Result.{Result, Exception, ok, raise, Result-cases}
use unikernel_syscall_monito.Base.Text.{Text, codes, text_eq}
use unikernel_syscall_monito.Gdbstub.Instance.{instance_is_running}
use unikernel_syscall_monito.Py.Number.{hex}
use unikernel_syscall_monito.Inline.Resolve.{find_addr, find_ret_addr}
use unikernel_syscall_monito.Inline.Live.{lines_or, count_events}
use unikernel_syscall_monito.Session.Host.{stop_and_remove}
use unikernel_syscall_monito.Session.Environment.{Environ, get}
use unikernel_syscall_monito.Session.Host.Laws.{returns}
use unikernel_syscall_monito.Session.Script.{
  Effect, give, run_patched, stop_instance, remove_instance, touches, and_then,
}
use unikernel_syscall_monito.Inline.Start.{
  pop, monitor_environ, map_hex, World, captured, start_instance, view, monitored, start_if_free,
  resolved, main, final_log,
}

module _ (name log : Text) (w : World) where
  -- The effects on instances of the part that has one of its own.
  abbrev pub lifetime : Environ → List Effect
  lifetime env =
      run_patched name env
      ∷ (if returns w.started
          then (if returns w.armed then stop_instance name ∷ remove_instance name ∷ [] else [])
          else [])

  one_life :
      (e : Effect) (started : Result {0} Unit) (armed : Result Bool) (viewed : Result ℕ)
      → touches e ≡ true
      → keep touches
          (and_then started (e ∷ []) (λ _. and_then armed [] (λ _.
            and_then viewed
              (stop_instance name ∷ remove_instance name ∷ [])
              (λ n. give (ok (captured (lines_or n (final_log name log w)))))))).1
        ≡ e
          ∷ (if returns started
              then (if returns armed then stop_instance name ∷ remove_instance name ∷ [] else [])
              else [])
  one_life e (raise x) armed viewed h = rw h refl
  one_life e (ok _) (raise x) viewed h = rw h refl
  one_life e (ok _) (ok _) (raise x) h = rw h refl
  one_life e (ok _) (ok _) (ok n) h = rw h refl

  monitored_lem :
      (addr : ℤ) (ret_addr : Option ℤ) (path : Text)
      → w.resolve log ≡ ok path
      → keep touches (monitored name log w addr ret_addr).1
        ≡ lifetime (monitor_environ addr ret_addr path w.os_environ)
  unfolding monitored start_instance view stop_and_remove
  monitored_lem addr ret_addr path e =
      rw e (one_life _ w.started w.armed (count_events w.watch) refl)

  unresolved :
      (addr : ℤ) (ret_addr : Option ℤ) (e : Exception)
      → w.resolve log ≡ raise e
      → keep touches (monitored name log w addr ret_addr).1 ≡ []
  unfolding monitored start_instance
  unresolved addr ret_addr e h = rw h refl

  -- What is found where an instance is started: QEMU, both addresses, that the old log files are
  -- gone, that no instance of the name runs, and the absolute path of the log.
  pub record Ready (addr : ℤ) (ret_addr : Option ℤ) (path : Text) : Type 0 where
    pub there : w.qemu_is_file ≡ true
    pub found_addr : find_addr w.given_addr w.nm ≡ ok addr
    pub found_ret : find_ret_addr w.no_ret w.given_ret_addr (w.objdump addr) ≡ ok ret_addr
    pub fresh : w.logs_removed ≡ ok tt
    pub out : Text
    pub listed : w.listing ≡ ok out
    pub free : instance_is_running name out ≡ ok false
    pub resolves : w.resolve log ≡ ok path

  pub record Startable : Type 0 where
    pub addr : ℤ
    pub ret_addr : Option ℤ
    pub path : Text
    pub ready : Ready addr ret_addr path

  -- The instance is started with the addresses that were found, and has this life.
  pub record Launched (effects : List Effect) : Type 0 where
    pub addr : ℤ
    pub ret_addr : Option ℤ
    pub path : Text
    pub ready : Ready addr ret_addr path
    pub life : effects ≡ lifetime (monitor_environ addr ret_addr path w.os_environ)

  main_of_Ready :
      {addr : ℤ} {ret_addr : Option ℤ} {path : Text}
      → Ready addr ret_addr path
      → keep touches (main name log w).1
        ≡ lifetime (monitor_environ addr ret_addr path w.os_environ)
  unfolding main resolved start_if_free monitored final_log
  main_of_Ready {addr} {ret_addr} {path} r =
      rw (r.there, r.found_addr, r.found_ret, r.fresh, r.listed, r.free)
        (monitored_lem addr ret_addr path r.resolves)

  idle_or_ready : (keep touches (main name log w).1 ≡ []) ⊎ Startable
  unfolding main resolved start_if_free monitored final_log
  idle_or_ready = elim (Bool-cases w.qemu_is_file) [
    | inr missing ↦ inl (rw missing refl)
    | inl there ↦ elim (Result-cases (find_addr w.given_addr w.nm)) [
      | inl (e, a) ↦ inl (rw (there, a) refl)
      | inr (addr, a) ↦
          elim (Result-cases (find_ret_addr w.no_ret w.given_ret_addr (w.objdump addr))) [
            | inl (e, b) ↦ inl (rw (there, a, b) refl)
            | inr (ret_addr, b) ↦ elim (Result-cases w.logs_removed) [
              | inl (e, c) ↦ inl (rw (there, a, b, c) refl)
              | inr (_, c) ↦ elim (Result-cases w.listing) [
                | inl (e, d) ↦ inl (rw (there, a, b, c, d) refl)
                | inr (out, d) ↦ elim (Result-cases (instance_is_running name out)) [
                  | inl (e, k) ↦ inl (rw (there, a, b, c, d, k) refl)
                  | inr (true, k) ↦ inl (rw (there, a, b, c, d, k) refl)
                  | inr (false, k) ↦ elim (Result-cases (w.resolve log)) [
                    | inl (e, p) ↦ inl (rw (there, a, b, c, d, k) (unresolved addr ret_addr e p))
                    | inr (path, p) ↦ inr (record {
                      addr = addr;
                      ret_addr = ret_addr;
                      path = path;
                      ready = record {
                        there = there;
                        found_addr = a;
                        found_ret = b;
                        fresh = c;
                        out = out;
                        listed = d;
                        free = k;
                        resolves = p;
                      };
                    })
                  ]
                ]
              ]
            ]
          ]
    ]
  ]

  -- Either something of that was not found, and no instance is touched; or QEMU and both addresses
  -- were found, the old log files are gone, no instance of the name ran and the path of the log is
  -- resolved, and then one is started once, with these in its environment, and it is stopped and then removed, however the
  -- view ends, exactly if it could be started and the wait for the breakpoint returned.
  pub main-Launched :
      ((¬ Startable) × (keep touches (main name log w).1 ≡ []))
      ⊎ Launched (keep touches (main name log w).1)
  main-Launched = elim idle_or_ready [
    | inl idle ↦ inl ((λ s. cc (main_of_Ready s.ready, idle)), idle)
    | inr s ↦ inr (record {
      addr = s.addr;
      ret_addr = s.ret_addr;
      path = s.path;
      ready = s.ready;
      life = main_of_Ready s.ready;
    })
  ]

get-pop : (key : Text) (env : Environ) → get key (pop key env) ≡ none
unfolding pop
get-pop key [] = refl
get-pop key ((k, v) ∷ env) = elim (Bool-cases (text_eq key k)) [
  | inl same ↦ rw same (get-pop key env)
  | inr other ↦ rw (other, other) (get-pop key env)
]

-- The variables that QEMU gets, whatever was inherited: the address of the hook, the file of the
-- log, and the address of the return hook, or no such variable.
pub monitor_environ_lem :
    (addr : ℤ) (ret_addr : Option ℤ) (log : Text) (os_environ : Environ)
    → (get (codes "VMI_MONITOR_ADDR") (monitor_environ addr ret_addr log os_environ)
        ≡ some (hex addr))
      × (get (codes "VMI_MONITOR_LOG") (monitor_environ addr ret_addr log os_environ) ≡ some log)
      × (get (codes "VMI_MONITOR_RET_ADDR") (monitor_environ addr ret_addr log os_environ)
          ≡ map_hex ret_addr)
unfolding monitor_environ pop
monitor_environ_lem addr none log os_environ =
    (refl, refl, get-pop (codes "VMI_MONITOR_RET_ADDR") os_environ)
monitor_environ_lem addr (some r) log os_environ = (refl, refl, refl)

-- If the path of the log is resolved, the one call of `kraft run` has in its environment, whatever
-- was inherited, the address of the hook, the resolved path, and the address of the return hook or
-- no such variable.
pub start_instance-environ :
    (name log : Text) (w : World) (addr : ℤ) (ret_addr : Option ℤ) (path : Text)
    → w.resolve log ≡ ok path
    → (env : Environ) × ((start_instance name log w addr ret_addr).1 ≡ run_patched name env ∷ [])
      × (get (codes "VMI_MONITOR_ADDR") env ≡ some (hex addr))
      × (get (codes "VMI_MONITOR_LOG") env ≡ some path)
      × (get (codes "VMI_MONITOR_RET_ADDR") env ≡ map_hex ret_addr)
unfolding start_instance
start_instance-environ name log w addr ret_addr path e =
    let (hook, file, ret_hook) = monitor_environ_lem addr ret_addr path w.os_environ in
    (monitor_environ addr ret_addr path w.os_environ, rw e refl, hook, file, ret_hook)

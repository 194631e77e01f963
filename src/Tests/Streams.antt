-- ===== src/Tests/Streams.antt =====
-- The relaying thread after a few steps, and a boot that fails.
use unikernel_syscall_monito.Base.{◌≡◌, ◌↔◌, flatten, ◌++◌, refl, true, false, none, [], ◌∷◌, keep}
use unikernel_syscall_monito.Base.Result.{ok, raise, timeout_error}
use unikernel_syscall_monito.Base.Text.{Text, codes}
use unikernel_syscall_monito.Session.Script.{talks, touches, run_instance}
use unikernel_syscall_monito.Session.Stream.{
  Stream, popen_gdb, stream_to_stdout, writing, prints, relays, Reach, start, later,
}
use unikernel_syscall_monito.Session.Stream.Invariant.{Inv, Reach-Inv, held}
use unikernel_syscall_monito.Session.Stream.Ending.{Exits, stop_gdb_capture-Reach}
use unikernel_syscall_monito.Session.Gdb.{Gdb, stop_gdb_capture, launch_gdb_preloaded, popen, flush}
use unikernel_syscall_monito.Session.Boot
use unikernel_syscall_monito.Session.Boot.{main}
use unikernel_syscall_monito.Session.Boot.Talks.{attached, preloaded, until_armed, main-tells}
use unikernel_syscall_monito.Session.Boot.Laws.{life, main-life, prepared}
use unikernel_syscall_monito.Session.Environment.{Args}

abbrev line : Text
line = codes "(gdb) \n"

-- The line has been read and appended, and is about to be shown.
abbrev halfway : Stream
halfway = record {
  printed = line ∷ [];
  is_closed = false;
  unread = [];
  captured = line ∷ [];
  shown = [];
  pc = writing line;
}

halfway-Reach : Reach halfway
unfolding popen_gdb stream_to_stdout
halfway-Reach = later (later (later start (prints line refl)) relays) relays

Reach-Inv_example : Inv halfway halfway.pc
Reach-Inv_example = Reach-Inv {s = halfway} halfway-Reach

-- A gdb that must be terminated, while the thread is halfway.
abbrev stuck_gdb : Gdb
stuck_gdb = record {
  spawned = ok tt;
  takes_source = true;
  takes_attach = true;
  has_exited = false;
  takes_detach = true;
  takes_quit = true;
  exits_on_quit = false;
  exits_on_terminate = true;
  captured = line ∷ [];
}

stop_gdb_capture-Reach_example :
    (((stop_gdb_capture stuck_gdb).0 ≡ ok line)
      ↔ (Exits stuck_gdb × (line ≡ flatten halfway.captured)))
    × (flatten halfway.printed
        ≡ flatten halfway.captured ++ flatten (held halfway.pc ++ halfway.unread))
stop_gdb_capture-Reach_example =
    stop_gdb_capture-Reach stuck_gdb {s = halfway} line halfway-Reach refl

abbrev args : Args
args = record {
  name = codes "vm";
  log = codes "log";
  include = [];
  exclude = [];
  max_events = none;
}

-- No new runtime directory appears.
abbrev world : Boot.World
world = record {
  here = codes "/vmi";
  dbg_kernel = codes "/k.dbg";
  os_environ = [];
  decode = λ s. s;
  before = ok [];
  kraft_spawned = ok tt;
  new_dir = λ _. raise timeout_error;
  path_appears = λ _. ok tt;
  connects = λ _. ok tt;
  monitor = record { there = true; accepts = true; is_open = true; incoming = []; sent = [] };
  can_bind = λ _. true;
  kraft_ends = ok tt;
  gdb = record {
    spawned = ok tt;
    takes_source = true;
    takes_attach = true;
    has_exited = false;
    takes_detach = true;
    takes_quit = true;
    exits_on_quit = true;
    exits_on_terminate = true;
    captured = [];
  };
  exits_in_time = true;
  log_lines = none;
}

left_running : keep touches (main args world).1 ≡ run_instance (codes "vm") ∷ []
unfolding main launch_gdb_preloaded popen flush
left_running = refl

main-life_example : keep touches (main args world).1 ≡ life args world (prepared args world).0
main-life_example = main-life args world

-- A directory appears, the monitor answers, and gdb has to be ended.
abbrev armed_world : Boot.World
armed_world = record world {
  new_dir = λ _. ok (codes "/run/vm");
  monitor = record {
    there = true;
    accepts = true;
    is_open = true;
    incoming = codes "QEMU 6.2\r\n(qemu) " ∷ codes "gdbserver\r\nWaiting\r\n(qemu) " ∷ [];
    sent = [];
  };
  exits_in_time = false;
}

main-tells_example :
    keep talks (main args armed_world).1
    ≡ preloaded args armed_world (attached args armed_world (until_armed args armed_world).0)
main-tells_example = main-tells args armed_world

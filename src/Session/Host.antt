-- ===== src/Session/Host.antt =====
-- What the scripts that attach gdb to an instance find outside, and the steps that they share.
pub mod Laws
use unikernel_syscall_monito.Base.{ℕ, Bool, ◌++◌}
use unikernel_syscall_monito.Base.Result.{Result}
use unikernel_syscall_monito.Base.Text.{Text, codes}
use unikernel_syscall_monito.Gdbstub.Attach.{Socket, attach_gdbserver}
use unikernel_syscall_monito.Gdbstub.Instance.{find_instance_runtime_dir, instance_is_running}
use unikernel_syscall_monito.Session.Environment.{Environ}
use unikernel_syscall_monito.Session.Gdb.{Gdb}
use unikernel_syscall_monito.Session.Script.{
  Script, act, give, ◌>>=◌, ◌>>◌, run_instance, stop_instance, remove_instance, open_stub,
}

-- The outputs of the two calls of `kraft ps`, or their exceptions, the result of `kraft run`, the
-- ports that can be bound, QEMU's socket at a path and the gdb process.
pub record Host : Type 0 where
  pub here : Text
  pub dbg_kernel : Text
  pub runtime_root : Text
  pub os_environ : Environ
  pub decode : Text → Text
  pub listing : Result Text
  pub started : Result {0} Unit
  pub full_listing : Result Text
  pub can_bind : ℕ → Bool
  pub socket_at : Text → Socket
  pub gdb : Gdb

unfoldable pub start_instance : Text → Result {0} Unit → Script Unit
start_instance name started = do act (run_instance name); give started

-- The results of the two calls are not looked at (`check=False`).
unfoldable pub stop_and_remove : Text → Script Unit
stop_and_remove name = do act (stop_instance name); act (remove_instance name)

module _ (name : Text) (h : Host) where
  unfoldable pub is_running : Script Bool
  is_running = do out ← give h.listing; give (instance_is_running name out)

  unfoldable pub find_dir : Script Text
  find_dir = do out ← give h.full_listing; give (find_instance_runtime_dir h.runtime_root name out)

  unfoldable pub attach : Text → ℕ → Script Text
  attach dir port = do
    act (open_stub dir port)
    give (attach_gdbserver h.decode port (h.socket_at (dir ++ codes "/mon.sock"))).0

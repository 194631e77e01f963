-- ===== src/Gdbstub/Main.antt =====
-- `main` of attach_gdbstub.py, from the parsed command line on.
use unikernel_syscall_monito.Base.{ℕ, Bool, Option, none, some, List, [], ◌∷◌, ◌++◌}
use unikernel_syscall_monito.Base.Int.{pos}
use unikernel_syscall_monito.Base.Result.{Result, ok, ◌>>=◌}
use unikernel_syscall_monito.Base.Text.{Text, codes}
use unikernel_syscall_monito.Py.Number.{str}
use unikernel_syscall_monito.Py.Strip.{strip}
use unikernel_syscall_monito.Gdbstub.Attach.{Socket, attach_gdbserver}
use unikernel_syscall_monito.Gdbstub.Instance.{find_instance_runtime_dir}
use unikernel_syscall_monito.Gdbstub.Port.{find_free_port}

-- A port that is given is not tried first.
unfoldable pub choose_port : (ℕ → Bool) → Option ℕ → Result ℕ
choose_port can_bind none = find_free_port can_bind 1234
choose_port can_bind (some port) = ok port

-- The lines that are printed, from the output of `kraft ps`, the ports that can be bound and QEMU's
-- socket at a path.
unfoldable pub main :
    (Text → Text)
    → Text
    → Result Text
    → (ℕ → Bool)
    → (Text → Socket)
    → Text
    → Option ℕ
    → Result (List Text)
unfolding choose_port
main decode runtime_root full_listing can_bind socket_at name given = do
  out ← full_listing
  dir ← find_instance_runtime_dir runtime_root name out
  port ← choose_port can_bind given
  reply ← (attach_gdbserver decode port (socket_at (dir ++ codes "/mon.sock"))).0
  ok ((codes "gdbstub attached: " ++ strip reply) ∷ (codes "PORT=" ++ str (pos port)) ∷ [])

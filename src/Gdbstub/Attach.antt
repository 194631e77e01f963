-- ===== src/Gdbstub/Attach.antt =====
-- `hmp_command` and `attach_gdbserver`, over the socket of the monitor.
pub mod Laws
use unikernel_syscall_monito.Base.{
  ℕ, ◌+◌, ◌≡◌, ◌≢◌, Bool, true, false, ◌||◌, ◌⊎◌, List, [], ◌∷◌, ◌++◌, map, arith, between,
  if◌then◌else◌,
}
use unikernel_syscall_monito.Base.Int.{pos}
use unikernel_syscall_monito.Base.Result.{Result, ok, raise, runtime_error, os_error}
use unikernel_syscall_monito.Base.Text.{Text, codes}
use unikernel_syscall_monito.Gdbstub.Hmp.{clean_reply, recv_until_prompt, is_empty}
use unikernel_syscall_monito.Py.Number.{str}
use unikernel_syscall_monito.Py.Strip.{contains}

-- The socket file, whether QEMU accepts a connection, what it will send, and what was sent to it.
pub record Socket : Type 0 where
  pub there : Bool
  pub accepts : Bool
  pub is_open : Bool
  pub incoming : List Text
  pub sent : List Text

-- `str.lower`, which for the words looked for matters on ASCII letters alone.
abbrev pub lower : Text → Text
lower = map (λ c. if between b'A' b'Z' c then c + 32 else c)

module _ (decode : Text → Text) where
  abbrev pub reply_of : Result Text → Result Text
  reply_of (ok raw) = ok (clean_reply decode raw)
  reply_of (raise e) = raise e

  unfoldable pub hmp_command : Text → Socket → Result Text × Socket
  hmp_command cmdline s =
      let (r, left) = recv_until_prompt [] s.incoming in
      (reply_of r, record s { incoming = left; sent = s.sent ++ (cmdline ++ 10 ∷ []) ∷ [] })

  -- The tests on the reply.
  unfoldable pub check_reply : Result Text → Result Text
  check_reply (raise e) = raise e
  check_reply (ok reply) =
      if contains (lower reply) (codes "could not open gdbserver")
        || contains (lower reply) (codes "error")
      then raise runtime_error
      else if is_empty reply
      then raise runtime_error
      else ok reply

  abbrev pub command : ℕ → Text
  command port = codes "gdbserver tcp:127.0.0.1:" ++ str (pos port)

  -- The first prompt is awaited, and then the command is given.
  unfoldable pub converse : ℕ → Result Text → Socket → Result Text × Socket
  unfolding hmp_command
  converse port (raise e) s = (raise e, s)
  converse port (ok banner) s = let (r, s') = hmp_command (command port) s in (check_reply r, s')

  -- `finally: sock.close()`
  abbrev pub closing : Result Text × Socket → Result Text × Socket
  closing (r, s) = (r, record s { is_open = false })

  unfoldable pub attach_gdbserver : ℕ → Socket → Result Text × Socket
  unfolding converse
  attach_gdbserver port s =
      if s.there
      then (if s.accepts
          then (let (banner, left) = recv_until_prompt [] s.incoming in
              closing (converse port banner (record s { is_open = true; incoming = left })))
          else (raise os_error, s))
      else (raise runtime_error, s)

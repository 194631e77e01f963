-- ===== src/Gdbstub/Attach/Laws.antt =====
-- What `attach_gdbserver` sends to QEMU, what it returns, and that it closes the connection.
use unikernel_syscall_monito.Base.{
  ℕ, ◌≡◌, ◌≢◌, Bool, true, false, ◌&&◌, List, [], ◌∷◌, ◌++◌, if◌then◌else◌,
}
use unikernel_syscall_monito.Base.Int.{pos}
use unikernel_syscall_monito.Base.Result.{Result, ok, raise}
use unikernel_syscall_monito.Base.Text.{Text, codes}
use unikernel_syscall_monito.Gdbstub.Hmp.{clean_reply, recv_until_prompt}
use unikernel_syscall_monito.Gdbstub.Attach.{Socket, lower}
use unikernel_syscall_monito.Py.Number.{str}
use unikernel_syscall_monito.Py.Strip.{contains}

-- The line that asks for a stub on a port of the loopback address.
abbrev pub request : ℕ → Text
request port = codes "gdbserver tcp:127.0.0.1:" ++ (str (pos port) ++ codes "\n")

abbrev pub is_prompted : Result Text → Bool
is_prompted (ok banner) = true
is_prompted (raise e) = false

-- What is sent, if a connection is made and the first prompt comes.
abbrev pub requests : ℕ → Socket → List Text
requests port s =
    if s.there && (s.accepts && is_prompted (recv_until_prompt [] s.incoming).0)
    then request port ∷ []
    else []

-- A reply after the second prompt, which is not empty and does not speak of an error.
pub record Answered (decode : Text → Text) (s : Socket) (reply : Text) : Type 0 where
  pub there : s.there ≡ true
  pub accepts : s.accepts ≡ true
  pub banner : Text
  pub first_prompt : (recv_until_prompt [] s.incoming).0 ≡ ok banner
  pub raw : Text
  pub second_prompt : (recv_until_prompt [] (recv_until_prompt [] s.incoming).1).0 ≡ ok raw
  pub cleaned : reply ≡ clean_reply decode raw
  pub opened : contains (lower reply) (codes "could not open gdbserver") ≡ false
  pub no_error : contains (lower reply) (codes "error") ≡ false
  pub not_empty : reply ≢ []

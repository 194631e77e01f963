-- ===== src/Gdbstub/Hmp.antt =====
-- The text of the monitor: `_recv_until_prompt` and the cleaning that `hmp_command` does.
pub mod Ansi
pub mod Receive
pub mod Reply
use unikernel_syscall_monito.Base.{
  ℕ, ◌-◌, Bool, true, false, ◌||◌, List, [], ◌∷◌, ◌++◌, ◌==◌, if◌then◌else◌, length, take, drop,
}
use unikernel_syscall_monito.Base.Result.{Result, ok, raise, runtime_error, timeout_error}
use unikernel_syscall_monito.Base.Text.{Text, codes}
use unikernel_syscall_monito.Gdbstub.Hmp.Ansi.{strip_ansi}
use unikernel_syscall_monito.Py.Strip.{ends_with, starts_with, strip}

abbrev pub prompt : Text
prompt = codes "(qemu) "

-- `_, _, rest = cleaned.partition(b"\r\n")`: nothing is left where there is no line end.
unfoldable pub after_line : Text → Text
after_line [] = []
after_line (c ∷ s) =
    let rest = after_line s in if starts_with (c ∷ s) (13 ∷ 10 ∷ []) then drop 1 s else rest

-- `rest[: -len(PROMPT)] if rest.endswith(PROMPT) else rest`
unfoldable pub without_prompt : Text → Text
without_prompt s = if ends_with s prompt then take (length s - length prompt) s else s

-- The decoding of the bytes, `bytes.decode(errors="replace")`, is a parameter.
unfoldable pub clean_reply : (Text → Text) → Text → Text
clean_reply decode raw = strip (decode (without_prompt (after_line (strip_ansi raw))))

abbrev pub is_empty : Text → Bool
is_empty [] = true
is_empty (c ∷ s) = false

-- The loop of `_recv_until_prompt` over what `sock.recv` returns: an empty piece when the other
-- side has closed the connection, and a timeout when no piece is left. The pieces that were not
-- received stay for the next call.
unfoldable pub recv_until_prompt : Text → List Text → Result Text × List Text
recv_until_prompt buf [] = if ends_with buf prompt then (ok buf, []) else (raise timeout_error, [])
recv_until_prompt buf (chunk ∷ chunks) =
    let more = recv_until_prompt (buf ++ chunk) chunks in
    if ends_with buf prompt
    then (ok buf, chunk ∷ chunks)
    else if is_empty chunk
    then (raise runtime_error, chunks)
    else more

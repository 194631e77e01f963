-- ===== src/Gdbstub/Hmp/Receive.antt =====
-- What `_recv_until_prompt` returns, and what `hmp_command` makes of it.
use unikernel_syscall_monito.Base.{
  ◌≡◌, ◌≢◌, refl, ◌∙◌, ◌↔◌, ◌↔◌, inl, inr, true, false, List, [], ◌∷◌, ◌++◌, arith, append_assoc,
  flatten, Bool-cases,
}
use unikernel_syscall_monito.Base.Result.{ok}
use unikernel_syscall_monito.Base.Text.{Text}
use unikernel_syscall_monito.Py.Strip.{ends_with, ends_with-append}
use unikernel_syscall_monito.Gdbstub.Hmp.{recv_until_prompt, prompt, is_empty}

-- What a call receives, from a buffer and the pieces to come: nothing if the buffer ends in the
-- prompt, and otherwise one piece, which is not empty, and so on. So it stops at the first chance.
pub data Received : Text → List Text → Text → List Text → Type 0 where
  stop :
      {buf : Text} {chunks : List Text}
      → ends_with buf prompt ≡ true
      → Received buf chunks buf chunks
  more :
      {buf chunk text : Text} {chunks left : List Text}
      → ends_with buf prompt ≡ false
      → chunk ≢ []
      → Received (buf ++ chunk) chunks text left
      → Received buf (chunk ∷ chunks) text left

ne_nil : (chunk : Text) → is_empty chunk ≡ false → chunk ≢ []
ne_nil [] h = cc
ne_nil (c ∷ chunk) h = cc

stop_of_eq :
    {buf text : Text} {chunks left : List Text}
    → ends_with buf prompt ≡ true
    → buf ≡ text
    → chunks ≡ left
    → Received buf chunks text left
stop_of_eq h e e' = rw (← e, ← e') (stop h)

sound :
    (buf : Text) (chunks : List Text) (text : Text) (left : List Text)
    → recv_until_prompt buf chunks ≡ (ok text, left)
    → Received buf chunks text left
unfolding recv_until_prompt
sound buf [] text left h = elim (Bool-cases (ends_with buf prompt)) [
  | inl e ↦ stop_of_eq e (ground arith) (ground arith)
  | inr e ↦ absurd (ground arith)
]
sound buf (chunk ∷ chunks) text left h = elim (Bool-cases (ends_with buf prompt)) [
  | inl e ↦ stop_of_eq e (ground arith) (ground arith)
  | inr e ↦ elim (Bool-cases (is_empty chunk)) [
    | inl closed ↦ absurd (ground arith)
    | inr full ↦ more e (ne_nil chunk full) (sound (buf ++ chunk) chunks text left (ground arith))
  ]
]

full_of_ne : (chunk : Text) → chunk ≢ [] → is_empty chunk ≡ false
full_of_ne [] h = absurd (h refl)
full_of_ne (c ∷ chunk) h = refl

received_at_once :
    (buf : Text) (chunks : List Text)
    → ends_with buf prompt ≡ true
    → recv_until_prompt buf chunks ≡ (ok buf, chunks)
unfolding recv_until_prompt
received_at_once buf [] h = rw h
received_at_once buf (chunk ∷ chunks) h = rw h

complete :
    (buf : Text) (chunks : List Text) (text : Text) (left : List Text)
    → Received buf chunks text left
    → recv_until_prompt buf chunks ≡ (ok text, left)
unfolding recv_until_prompt
complete buf chunks text left (stop h) = received_at_once buf chunks h
complete buf _ text left (more {chunk} {chunks} e ne r) =
    rw (e, full_of_ne chunk ne) (complete (buf ++ chunk) chunks text left r)

-- A call returns a text exactly if the pieces lead to it as above: it reads on, and not a piece
-- further, until what it has ends in the prompt.
pub recv_until_prompt_iff :
    (buf : Text) (chunks : List Text) (text : Text) (left : List Text)
    → (recv_until_prompt buf chunks ≡ (ok text, left)) ↔ Received buf chunks text left
recv_until_prompt_iff buf chunks text left =
    (sound buf chunks text left, complete buf chunks text left)

-- What is returned ends in the prompt, and with the pieces left over for the next call it makes
-- up all that came: no byte is lost between two calls.
pub recv_until_prompt-flatten :
    (buf : Text) (chunks : List Text) (text : Text) (left : List Text)
    → recv_until_prompt buf chunks ≡ (ok text, left)
    → ((front : Text) × (text ≡ front ++ prompt)) × (text ++ flatten left ≡ buf ++ flatten chunks)
recv_until_prompt-flatten buf chunks text left h =
    of buf chunks text left (sound buf chunks text left h)
  where
    of :
        (buf : Text) (chunks : List Text) (text : Text) (left : List Text)
        → Received buf chunks text left
        → ((front : Text) × (text ≡ front ++ prompt))
          × (text ++ flatten left ≡ buf ++ flatten chunks)
    of buf chunks text left (stop e) = (ends_with-append buf prompt e, refl)
    of buf _ text left (more {chunk} {chunks} _ _ r) =
        let (ends, e) = of (buf ++ chunk) chunks text left r in
        (ends, e ∙ append_assoc buf chunk (flatten chunks))

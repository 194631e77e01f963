-- ===== src/Gdbstub/Hmp/Reply.antt =====
-- What `hmp_command` makes of the text that it received.
use unikernel_syscall_monito.Base.{
  ℕ, ◌<◌, ◌≡◌, ◌≢◌, refl, ap, ◌∙◌, List, [], ◌∷◌, ◌++◌, length, length-append, arith, All,
  All-append, take,
}
use unikernel_syscall_monito.Base.Text.{Text}
use unikernel_syscall_monito.Py.Strip.{starts_with, strip, append-ends_with}
use unikernel_syscall_monito.Py.Split.{Lacks}
use unikernel_syscall_monito.Gdbstub.Hmp.{prompt, after_line, without_prompt, clean_reply}
use unikernel_syscall_monito.Gdbstub.Hmp.Ansi.{
  strip_ansi-render, strip_ansi_plain, Piece, render, shown, IsPiece,
}

after_line_lem : (s rest : Text) → Lacks 13 s → after_line (s ++ 13 ∷ 10 ∷ rest) ≡ rest
unfolding after_line starts_with
after_line_lem [] rest h = refl
after_line_lem (c ∷ s) rest h = ground (arith, after_line_lem s rest h.1)

take-length-append : (s t : Text) → take (length s) (s ++ t) ≡ s
take-length-append [] t = refl
take-length-append (c ∷ s) t = ap (λ r. c ∷ r) (take-length-append s t)

without_prompt_lem : (s : Text) → without_prompt (s ++ prompt) ≡ s
unfolding without_prompt
without_prompt_lem s = rw (append-ends_with s prompt) (
    ap (λ n. take n (s ++ prompt)) (omega (arith, length-append s prompt))
    ∙ take-length-append s prompt)

Lacks-append : (c : ℕ) (s t : Text) → Lacks c s → Lacks c t → Lacks c (s ++ t)
Lacks-append c s t = All-append (λ d. d ≢ c) s t

-- The monitor echoes the command, with cursor movements among its characters, and answers on the
-- next lines: the reply is the answer alone, without white space round it.
pub clean_reply-render :
    (decode : Text → Text) (echo : List Piece) (answer : Text)
    → ((s : Text) → All (λ c. c < 128) s → decode s ≡ s)
    → All IsPiece echo
    → Lacks 13 (shown echo)
    → All (λ c. c < 128) answer
    → Lacks 27 answer
    → clean_reply decode (render echo ++ 13 ∷ 10 ∷ (answer ++ prompt)) ≡ strip answer
unfolding clean_reply
clean_reply-render decode echo answer ascii pieces line small plain = rw (
  strip_ansi-render echo (13 ∷ 10 ∷ (answer ++ prompt)) pieces,
  strip_ansi_plain (13 ∷ 10 ∷ (answer ++ prompt))
      (omega arith, (omega arith, Lacks-append 27 answer prompt plain (omega arith))),
  after_line_lem (shown echo) (answer ++ prompt) line,
  without_prompt_lem answer,
  ascii answer small,
)

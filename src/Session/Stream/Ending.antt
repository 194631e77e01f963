-- ===== src/Session/Stream/Ending.antt =====
-- What ending gdb returns, of all that the relaying thread has had in its hands.
use unikernel_syscall_monito.Base.{
  ◌≡◌, ◌⊎◌, ◌↔◌, refl, ap, sym, ◌∙◌, true, List, [], ◌∷◌, ◌++◌, append_assoc, flatten, arith,
}
use unikernel_syscall_monito.Base.Result.{ok}
use unikernel_syscall_monito.Base.Text.{Text}
use unikernel_syscall_monito.Session.Gdb.{Gdb, stop_gdb_capture}
use unikernel_syscall_monito.Session.Stream.{Stream, Reach}
use unikernel_syscall_monito.Session.Stream.Invariant.{held, Reach-Inv}

flatten-append : (xs ys : List Text) → flatten (xs ++ ys) ≡ flatten xs ++ flatten ys
flatten-append [] ys = refl
flatten-append (x ∷ xs) ys =
    ap (λ t. x ++ t) (flatten-append xs ys) ∙ sym (append_assoc x (flatten xs) (flatten ys))

-- gdb had exited, exits when asked, or exits when terminated.
abbrev pub Exits : Gdb → Type 0
Exits gdb = (gdb.has_exited ≡ true) ⊎ ((gdb.exits_on_quit ≡ true) ⊎ (gdb.exits_on_terminate ≡ true))

returned_iff :
    (gdb : Gdb) (text : Text)
    → ((stop_gdb_capture gdb).0 ≡ ok text) ↔ (Exits gdb × (text ≡ flatten gdb.captured))
unfolding stop_gdb_capture
returned_iff gdb text = (λ h. (ground arith, ground arith), λ h. ground (arith, h.0, h.1))

-- If the wait for the thread ends in a state that can be reached: ending gdb returns a text exactly
-- if gdb had exited, exits when asked or exits when terminated, and it is then what the thread has
-- captured; what gdb has printed is that, the line in the thread's hands and those in the pipe.
pub stop_gdb_capture-Reach :
    (gdb : Gdb) {s : Stream} (text : Text)
    → Reach s
    → gdb.captured ≡ s.captured
    → (((stop_gdb_capture gdb).0 ≡ ok text) ↔ (Exits gdb × (text ≡ flatten s.captured)))
      × (flatten s.printed ≡ flatten s.captured ++ flatten (held s.pc ++ s.unread))
stop_gdb_capture-Reach gdb {s} text r e = (
  rw⁻¹ e (returned_iff gdb text),
  ap flatten (sym (Reach-Inv r).all_lines) ∙ flatten-append s.captured (held s.pc ++ s.unread),
)

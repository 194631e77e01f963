-- ===== src/Session/Stream/Invariant.antt =====
-- Where the lines of gdb are on their way through the relaying thread.
use unikernel_syscall_monito.Base.{
  ◌≡◌, refl, ap, sym, ◌∙◌, true, false, List, [], ◌∷◌, ◌++◌, append_assoc, append-nil, flatten,
  subst, Bool-cases, inl, inr,
}
use unikernel_syscall_monito.Base.Text.{Text}
use unikernel_syscall_monito.Session.Stream.{
  Pc, reading, appending, writing, finished, Stream, popen_gdb, read_line, stream_to_stdout,
  drained, Step, prints, closes, relays, Reach, start, later,
}

-- The line that has been read and not appended, and the one that has not been written yet.
abbrev pub held : Pc → List Text
held (appending line) = line ∷ []
held reading = []
held (writing line) = []
held finished = []

abbrev pub unshown : Pc → List Text
unshown (writing line) = line ∷ []
unshown reading = []
unshown (appending line) = []
unshown finished = []

-- At its end the thread has seen the output closed and the pipe empty.
abbrev pub AtEnd : Pc → Stream → Type 0
AtEnd finished s = (s.is_closed ≡ true) × (s.unread ≡ [])
AtEnd reading s = Unit
AtEnd (appending line) s = Unit
AtEnd (writing line) s = Unit

pub record Inv (s : Stream) (pc : Pc) : Type 0 where
  pub all_lines : s.captured ++ (held pc ++ s.unread) ≡ s.printed
  pub all_shown : s.shown ++ unshown pc ≡ s.captured
  pub ends : AtEnd pc s

popen_gdb-Inv : Inv popen_gdb popen_gdb.pc
unfolding popen_gdb
popen_gdb-Inv = record { all_lines = refl; all_shown = refl; ends = tt }

-- A closed output prints nothing more, so the thread had not ended.
still_open : (s t : Stream) (pc : Pc) → s.is_closed ≡ false → AtEnd pc s → AtEnd pc t
still_open s t reading o e = tt
still_open s t (appending line) o e = tt
still_open s t (writing line) o e = tt
still_open s t finished o e = cc (o, e.0)

prints-Inv :
    (s : Stream) (pc : Pc) (line : Text)
    → s.is_closed ≡ false
    → Inv s pc
    → Inv (record s { printed = s.printed ++ line ∷ []; unread = s.unread ++ line ∷ [] }) pc
prints-Inv s pc line o i = record {
  all_lines =
      ap (λ r. s.captured ++ r) (sym (append_assoc (held pc) s.unread (line ∷ [])))
      ∙ sym (append_assoc s.captured (held pc ++ s.unread) (line ∷ []))
      ∙ ap (λ r. r ++ line ∷ []) i.all_lines;
  all_shown = i.all_shown;
  ends = still_open s _ pc o i.ends;
}

closes-Inv : (s : Stream) (pc : Pc) → Inv s pc → Inv (record s { is_closed = true }) pc
closes-Inv s reading i = record { all_lines = i.all_lines; all_shown = i.all_shown; ends = tt }
closes-Inv s (appending line) i = record {
  all_lines = i.all_lines;
  all_shown = i.all_shown;
  ends = tt;
}
closes-Inv s (writing line) i = record {
  all_lines = i.all_lines;
  all_shown = i.all_shown;
  ends = tt;
}
closes-Inv s finished i = record {
  all_lines = i.all_lines;
  all_shown = i.all_shown;
  ends = (refl, i.ends.1);
}

read_line-Inv :
    (unread : List Text) (s : Stream)
    → s.unread ≡ unread
    → Inv s reading
    → Inv (read_line unread s) (read_line unread s).pc
read_line-Inv (line ∷ unread) s e i = record {
  all_lines = ap (λ r. s.captured ++ r) (sym e) ∙ i.all_lines;
  all_shown = i.all_shown;
  ends = tt;
}
read_line-Inv [] s e i = elim (Bool-cases s.is_closed) [
  | inl closed ↦
      rw closed (record { all_lines = i.all_lines; all_shown = i.all_shown; ends = (refl, e) })
  | inr o ↦ rw o (record { all_lines = i.all_lines; all_shown = i.all_shown; ends = tt })
]

relays-Inv :
    (pc : Pc) (s : Stream)
    → s.pc ≡ pc
    → Inv s pc
    → Inv (stream_to_stdout pc s) (stream_to_stdout pc s).pc
unfolding stream_to_stdout
relays-Inv reading s e i = read_line-Inv s.unread s refl i
relays-Inv (appending line) s e i = record {
  all_lines = append_assoc s.captured (line ∷ []) s.unread ∙ i.all_lines;
  all_shown = ap (λ r. r ++ line ∷ []) (sym (append-nil s.shown) ∙ i.all_shown);
  ends = tt;
}
relays-Inv (writing line) s e i = record {
  all_lines = i.all_lines;
  all_shown = append-nil (s.shown ++ line ∷ []) ∙ i.all_shown;
  ends = tt;
}
relays-Inv finished s e i = subst (Inv s) (sym e) i

Step-Inv : {s t : Stream} → Step s t → Inv s s.pc → Inv t t.pc
Step-Inv {s} (prints line o) i = prints-Inv s s.pc line o i
Step-Inv {s} closes i = closes-Inv s s.pc i
Step-Inv {s} relays i = relays-Inv s.pc s refl i

-- However gdb and the thread are interleaved: the captured lines, the line in the thread's hands
-- and those still in the pipe are exactly what gdb has printed, in order; what is shown is what is
-- captured, but for a line about to be written; and a thread that has ended has left nothing.
pub Reach-Inv : {s : Stream} → Reach s → Inv s s.pc
Reach-Inv start = popen_gdb-Inv
Reach-Inv (later r step) = Step-Inv step (Reach-Inv r)

-- Once the thread has ended, what is drained is all that gdb has printed, and all of it was shown.
pub drained-finished :
    {s : Stream}
    → Reach s
    → s.pc ≡ finished
    → (drained s ≡ flatten s.printed) × (s.shown ≡ s.printed)
unfolding drained
drained-finished {s} r e =
    let i : Inv s finished = subst (Inv s) e (Reach-Inv r) in
    let all =
      sym (append-nil s.captured) ∙ ap (λ u. s.captured ++ u) (sym i.ends.1) ∙ i.all_lines in
    (ap flatten all, sym (append-nil s.shown) ∙ i.all_shown ∙ all)

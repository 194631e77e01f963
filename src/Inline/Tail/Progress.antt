-- ===== src/Inline/Tail/Progress.antt =====
-- With enough rounds before the deadline, every complete line is yielded.
use unikernel_syscall_monito.Base.{
  ℕ, zero, suc, ◌<◌, ◌≤◌, ◌≡◌, refl, sym, ap, ◌∙◌, Bool, true, false, Option, List, [], ◌∷◌, ◌++◌,
  arith, append_assoc, append-nil, length, length-append,
}
use unikernel_syscall_monito.Base.Text.{Text}
use unikernel_syscall_monito.Inline.Tail.{
  Tail, Tick, poll, content, start, is_some, read_round, tick, run,
}
use unikernel_syscall_monito.Inline.Tail.Lines.{complete_lines}
use unikernel_syscall_monito.Inline.Tail.Laws.{
  IsConsistent, advance, Round, waits, yields, read_round_lem, advance-IsConsistent,
  complete_lines-content, reached,
}

-- Rounds made before the deadline.
abbrev pub polls : ℕ → List Tick
polls zero = []
polls (suc n) = poll false ∷ polls n

poll_reads : (t : Tail) → t.opened ≡ true → t.returned ≡ false → tick (poll false) t ≡ read_round t
unfolding tick
poll_reads t o r = rw (r, o)

nil_of_short : (ls : List Text) → length ls ≤ 0 → ls ≡ []
nil_of_short [] h = refl
nil_of_short (l ∷ ls) h = absurd (omega arith)

-- What is left to read comes with the rounds.
abbrev CatchesUp : ℕ → Type 0
CatchesUp n =
    (t : Tail) (c : IsConsistent t)
    → t.opened ≡ true
    → t.returned ≡ false
    → length (complete_lines c.unread) ≤ n
    → (run (polls n) t).yielded ≡ t.yielded ++ complete_lines c.unread

catch_up_step :
    (n : ℕ) (t : Tail) (c : IsConsistent t)
    → CatchesUp n
    → t.opened ≡ true
    → t.returned ≡ false
    → length (complete_lines c.unread) ≤ suc n
    → Round t c.unread
    → (run (polls n) (read_round t)).yielded ≡ t.yielded ++ complete_lines c.unread
unfolding advance-IsConsistent
catch_up_step n t c ih o r h (waits done e) = rw e (ih t c o r (rw done (omega arith)))
catch_up_step n t c ih o r h (yields l rest line e more e') = rw e' (
    ih (advance l t) (advance-IsConsistent t c l rest line e) o r (omega (arith, ap length more))
    ∙ append_assoc t.yielded (l ∷ []) (complete_lines rest)
    ∙ ap (λ ls. t.yielded ++ ls) (sym more))

catch_up : (n : ℕ) → CatchesUp n
unfolding run
catch_up zero t c o r h = rw (nil_of_short _ h) (sym (append-nil t.yielded))
catch_up (suc n) t c o r h =
    ap (λ u. (run (polls n) u).yielded) (poll_reads t o r)
    ∙ catch_up_step n t c (catch_up n) o r h (read_round_lem t c)

-- The first round opens the file if that was not done.
poll_opens :
    (t : Tail)
    → t.opened ≡ false
    → t.returned ≡ false
    → is_some t.file ≡ true
    → tick (poll false) t ≡ record t { opened = true }
unfolding tick
poll_opens t o r f = rw (r, o, f)

polls_after :
    (n : ℕ) (t : Tail) (c : IsConsistent t) (opened : Bool)
    → t.opened ≡ opened
    → t.returned ≡ false
    → is_some t.file ≡ true
    → length (complete_lines c.unread) ≤ n
    → (run (polls (suc n)) t).yielded ≡ t.yielded ++ complete_lines c.unread
unfolding run
polls_after n t c true o r f h = catch_up (suc n) t c o r (omega arith)
polls_after n t c false o r f h =
    ap (λ u. (run (polls n) u).yielded) (poll_opens t o r f)
    ∙ catch_up n (record t { opened = true })
        (record { unread = c.unread; parts = c.parts; at = c.at; whole = c.whole }) refl r h

length_rest :
    (t : Tail) (c : IsConsistent t)
    → length (complete_lines c.unread) ≤ length (complete_lines (content t.file))
length_rest t c = omega (
  arith,
  ap length (complete_lines-content t c),
  length-append t.yielded (complete_lines c.unread),
)

-- If the file is there and the deadline has not been met, then with more rounds than the file has
-- complete lines all of those have been yielded, as they stand in the file, and nothing else.
pub polls-yielded :
    (file : Option Text) (ticks : List Tick) (n : ℕ)
    → let t = run ticks (start file) in
      t.returned ≡ false
      → is_some t.file ≡ true
      → length (complete_lines (content t.file)) < n
      → (run (polls n) t).yielded ≡ complete_lines (content t.file)
polls-yielded file ticks zero r f h = absurd (omega arith)
polls-yielded file ticks (suc n) r f h =
    let t = run ticks (start file) in
    let c = reached file ticks in
    polls_after n t c t.opened refl r f (omega (arith, length_rest t c))
    ∙ sym (complete_lines-content t c)

-- ===== src/Inline/Tail/Laws.antt =====
-- However QEMU's writes are cut up and interleaved with the reads, the lines come out whole, in
-- order and once each.
use unikernel_syscall_monito.Base.{
  ◌+◌, ◌≡◌, refl, sym, ap, ◌∙◌, Bool, true, Option, List, [], ◌∷◌, ◌++◌, arith, append_assoc,
  append-nil, All, All-append, length, length-append, drop, flatten, if_case,
}
use unikernel_syscall_monito.Base.Text.{Text}
use unikernel_syscall_monito.Inline.Tail.{
  Tail, is_some, Tick, write, poll, content, start, accept_line, read_round, poll_round, tick, run,
}
use unikernel_syscall_monito.Inline.Tail.Lines.{
  complete_lines, Reads, line, unfinished, Reads-all, complete_lines-append,
  complete_lines_unfinished, ends_with_line, ends_with_unfinished,
}
use unikernel_syscall_monito.Py.Split.{Lacks}

-- One line with its newline, and no other.
abbrev pub IsLine : Text → Type 0
IsLine s = (body : Text) × Lacks 10 body × (s ≡ body ++ 10 ∷ [])

-- What was yielded is the file up to the position, in whole lines.
pub record IsConsistent (t : Tail) : Type 0 where
  pub unread : Text
  pub parts : content t.file ≡ flatten t.yielded ++ unread
  pub at : t.position ≡ length (flatten t.yielded)
  pub whole : All IsLine t.yielded

drop-append : (s u : Text) → drop (length s) (s ++ u) ≡ u
drop-append [] u = refl
drop-append (c ∷ s) u = drop-append s u

pub flatten-append : (ls : List Text) (l : Text) → flatten (ls ++ l ∷ []) ≡ flatten ls ++ l
flatten-append [] l = append-nil l
flatten-append (k ∷ ls) l =
    ap (λ r. k ++ r) (flatten-append ls l) ∙ sym (append_assoc k (flatten ls) l)

complete_lines-flatten :
    (ls : List Text) (u : Text)
    → All IsLine ls
    → complete_lines (flatten ls ++ u) ≡ ls ++ complete_lines u
complete_lines-flatten [] u h = refl
complete_lines-flatten (l ∷ ls) u ((body, lacks, e), h) =
    rw (e, append_assoc, append_assoc)
      (complete_lines-append body (flatten ls ++ u) lacks
        ∙ ap (λ r. (body ++ 10 ∷ []) ∷ r) (complete_lines-flatten ls u h))

module _ (t : Tail) (c : IsConsistent t) where
  drop-content : drop t.position (content t.file) ≡ c.unread
  drop-content = rw (c.parts, c.at) (drop-append (flatten t.yielded) c.unread)

  pub complete_lines-content :
      complete_lines (content t.file) ≡ t.yielded ++ complete_lines c.unread
  complete_lines-content = rw c.parts (complete_lines-flatten t.yielded c.unread c.whole)

accept_line_lem :
    (body : Text) (t : Tail)
    → accept_line (body ++ 10 ∷ []) t ≡ record t {
      position = t.position + length (body ++ 10 ∷ []);
      yielded = t.yielded ++ (body ++ 10 ∷ []) ∷ [];
    }
unfolding accept_line
accept_line_lem [] t = rw (ends_with_line [])
accept_line_lem (c ∷ body) t = rw (ends_with_line (c ∷ body))

accept_line_unfinished : (s : Text) (t : Tail) → Lacks 10 s → accept_line s t ≡ t
unfolding accept_line
accept_line_unfinished [] t h = refl
accept_line_unfinished (c ∷ s) t h = rw (ends_with_unfinished (c ∷ s) h)

abbrev pub advance : Text → Tail → Tail
advance l t = record t { position = t.position + length l; yielded = t.yielded ++ l ∷ [] }

-- A round of reading finds no complete line and changes nothing, or yields the first of them.
pub data Round (t : Tail) (u : Text) : Type 0 where
  waits : complete_lines u ≡ [] → read_round t ≡ t → Round t u
  yields :
      (l rest : Text)
      → IsLine l
      → u ≡ l ++ rest
      → complete_lines u ≡ l ∷ complete_lines rest
      → read_round t ≡ advance l t
      → Round t u

pub read_round_lem : (t : Tail) (c : IsConsistent t) → Round t c.unread
unfolding read_round
read_round_lem t c = of (Reads-all c.unread)
  where
    of : Reads c.unread → Round t c.unread
    of (unfinished lacks e) =
        waits (complete_lines_unfinished c.unread lacks)
          (rw (drop-content t c, e) (accept_line_unfinished c.unread t lacks))
    of (line body rest lacks e e') =
        yields (body ++ 10 ∷ []) rest (body, lacks, refl)
          (e' ∙ sym (append_assoc body (10 ∷ []) rest))
          (ap complete_lines e' ∙ complete_lines-append body rest lacks)
          (rw (drop-content t c, e) (accept_line_lem body t))

unfoldable pub advance-IsConsistent :
    (t : Tail) (c : IsConsistent t) (l rest : Text)
    → IsLine l
    → c.unread ≡ l ++ rest
    → IsConsistent (advance l t)
advance-IsConsistent t c l rest h e = record {
  unread = rest;
  parts = c.parts ∙ rw (e, flatten-append t.yielded l, append_assoc) refl;
  at = rw (flatten-append t.yielded l) (omega (arith, c.at, length-append (flatten t.yielded) l));
  whole = All-append IsLine t.yielded (l ∷ []) c.whole (h, tt);
}

read_round-IsConsistent : (t : Tail) → IsConsistent t → IsConsistent (read_round t)
read_round-IsConsistent t c = of (read_round_lem t c)
  where
    of : Round t c.unread → IsConsistent (read_round t)
    of (waits _ e) = rw e c
    of (yields l rest h e _ e') = rw e' (advance-IsConsistent t c l rest h e)

with_flags :
    (t : Tail)
    → IsConsistent t
    → (opened returned : Bool) → IsConsistent (record t { opened = opened; returned = returned })
with_flags t c opened returned = record {
  unread = c.unread;
  parts = c.parts;
  at = c.at;
  whole = c.whole;
}

poll_round-IsConsistent :
    (expired : Bool) (t : Tail) → IsConsistent t → IsConsistent (poll_round expired t)
unfolding poll_round
poll_round-IsConsistent expired t c = if_case IsConsistent t.returned c (
    if_case IsConsistent t.opened
      (if_case IsConsistent expired (with_flags t c t.opened true) (read_round-IsConsistent t c))
      (if_case IsConsistent (is_some t.file) (with_flags t c true t.returned)
        (if_case IsConsistent expired (with_flags t c t.opened true) c)))

tick-IsConsistent : (k : Tick) (t : Tail) → IsConsistent t → IsConsistent (tick k t)
unfolding tick
tick-IsConsistent (poll expired) t c = poll_round-IsConsistent expired t c
tick-IsConsistent (write s) t c = record {
  unread = c.unread ++ s;
  parts = rw c.parts (append_assoc (flatten t.yielded) c.unread s);
  at = c.at;
  whole = c.whole;
}

pub run-IsConsistent : (ticks : List Tick) (t : Tail) → IsConsistent t → IsConsistent (run ticks t)
unfolding run
run-IsConsistent [] t c = c
run-IsConsistent (k ∷ ks) t c = run-IsConsistent ks (tick k t) (tick-IsConsistent k t c)

pub start-IsConsistent : (file : Option Text) → IsConsistent (start file)
unfolding start
start-IsConsistent file = record { unread = content file; parts = refl; at = refl; whole = tt }

pub reached : (file : Option Text) (ticks : List Tick) → IsConsistent (run ticks (start file))
reached file ticks = run-IsConsistent ticks (start file) (start-IsConsistent file)

-- Whatever was written and read, in whatever order and pieces, the lines yielded so far are the
-- first complete lines of the file as it is now: none is torn, skipped, repeated or out of order.
pub run-yielded :
    (file : Option Text) (ticks : List Tick)
    → let t = run ticks (start file) in
      (rest : List Text) × (complete_lines (content t.file) ≡ t.yielded ++ rest)
run-yielded file ticks =
    let c = reached file ticks in
    (complete_lines c.unread, complete_lines-content (run ticks (start file)) c)

-- ===== src/Inline/Live/Laws.antt =====
-- The live view of a log of records, while it is written.
use unikernel_syscall_monito.Base.{
  ℕ, ◌<◌, ◌≡◌, refl, ap, ◌∙◌, true, false, Option, none, some, List, [], ◌∷◌, ◌++◌, any, length,
  All, All-append, Bool-cases, inl, inr, subst, suc,
}
use unikernel_syscall_monito.Base.Result.{ok}
use unikernel_syscall_monito.Base.Text.{Text}
use unikernel_syscall_monito.Json.Value.{Json, null, bool, int, real, str, arr, obj, Fields}
use unikernel_syscall_monito.Json.Loads.{loads}
use unikernel_syscall_monito.Inline.Format.{Os}
use unikernel_syscall_monito.Inline.Format.Records.{IsShown, record_line, format_event-IsShown}
use unikernel_syscall_monito.Inline.Live.{live, run_interactive, count_events, Watch}
use unikernel_syscall_monito.Inline.Tail.{Tick, content, start, run, is_some, Tail, tick}
use unikernel_syscall_monito.Inline.Tail.Lines.{complete_lines}
use unikernel_syscall_monito.Inline.Tail.Laws.{run-yielded}
use unikernel_syscall_monito.Inline.Tail.Progress.{polls, polls-yielded}
use unikernel_syscall_monito.Inline.View.{View, is_accept4}
use unikernel_syscall_monito.Inline.View.Events.{
  IsEvent, AreEvents, event_of, events, from_accept, opening,
}
use unikernel_syscall_monito.Inline.View.Laws.{format_all, run_interactive_lem}

All-front : {A : Type 0} (P : A → Type 0) (xs ys : List A) → All P (xs ++ ys) → All P xs
All-front P [] ys h = tt
All-front P (x ∷ xs) ys h = (h.0, All-front P xs ys h.1)

run-append : (xs ys : List Tick) (t : Tail) → run (xs ++ ys) t ≡ run ys (run xs t)
unfolding run
run-append [] ys t = refl
run-append (x ∷ xs) ys t = run-append xs ys (tick x t)

module _ (os : Os) where
  -- A line that decodes to a record whose time is in range, or does not decode.
  abbrev pub IsLogged : Option Json → Type 0
  IsLogged none = Unit
  IsLogged (some (obj evt)) = IsShown os evt
  IsLogged (some v) = ⊥

  abbrev pub AreLogged : List Text → Type 0
  AreLogged = All (λ line. IsLogged (loads line))

  IsLogged-IsEvent : (d : Option Json) → IsLogged d → IsEvent d
  IsLogged-IsEvent none h = tt
  IsLogged-IsEvent (some (obj evt)) h = tt
  IsLogged-IsEvent (some null) h = absurd h
  IsLogged-IsEvent (some (bool b)) h = absurd h
  IsLogged-IsEvent (some (int n)) h = absurd h
  IsLogged-IsEvent (some (real r)) h = absurd h
  IsLogged-IsEvent (some (str s)) h = absurd h
  IsLogged-IsEvent (some (arr vs)) h = absurd h

  AreLogged-AreEvents : (lines : List Text) → AreLogged lines → AreEvents lines
  AreLogged-AreEvents [] h = tt
  AreLogged-AreEvents (line ∷ lines) h =
      (IsLogged-IsEvent (loads line) h.0, AreLogged-AreEvents lines h.1)

  event_of-IsShown : (d : Option Json) → IsLogged d → All (IsShown os) (event_of d)
  event_of-IsShown none h = tt
  event_of-IsShown (some (obj evt)) h = (h, tt)
  event_of-IsShown (some null) h = absurd h
  event_of-IsShown (some (bool b)) h = absurd h
  event_of-IsShown (some (int n)) h = absurd h
  event_of-IsShown (some (real r)) h = absurd h
  event_of-IsShown (some (str s)) h = absurd h
  event_of-IsShown (some (arr vs)) h = absurd h

  pub events-IsShown : (lines : List Text) → AreLogged lines → All (IsShown os) (events lines)
  events-IsShown [] h = tt
  events-IsShown (line ∷ lines) h =
      All-append (IsShown os) (event_of (loads line)) (events lines)
        (event_of-IsShown (loads line) h.0) (events-IsShown lines h.1)

  pub from_accept-IsShown :
      (evts : List Fields) → All (IsShown os) evts → All (IsShown os) (from_accept evts)
  from_accept-IsShown [] h = tt
  from_accept-IsShown (evt ∷ evts) h = elim (Bool-cases (is_accept4 evt)) [
    | inl first ↦ rw first h
    | inr before ↦ rw before (from_accept-IsShown evts h.1)
  ]

  abbrev pub record_lines : (evts : List Fields) → All (IsShown os) evts → List Text
  record_lines [] h = []
  record_lines (evt ∷ evts) h = record_line os evt h.0 ∷ record_lines evts h.1

  format_all-IsShown :
      (evts : List Fields) (h : All (IsShown os) evts)
      → format_all os evts ≡ ok (record_lines evts h)
  format_all-IsShown [] h = refl
  format_all-IsShown (evt ∷ evts) h =
      rw (format_event-IsShown os evt h.0, format_all-IsShown evts h.1) refl

  length-record_lines :
      (evts : List Fields) (h : All (IsShown os) evts) → length (record_lines evts h) ≡ length evts
  length-record_lines [] h = refl
  length-record_lines (evt ∷ evts) h = ap suc (length-record_lines evts h.1)

  -- What the live view is in the end, over these lines.
  abbrev pub view_all : (lines : List Text) → AreLogged lines → View
  view_all lines h = record {
    n_events = length (events lines);
    ready_seen = true;
    printed = record_lines (events lines) (events-IsShown lines h);
  }

  abbrev pub view_ready : (lines : List Text) → AreLogged lines → View
  view_ready lines h = record {
    n_events = length (events lines);
    ready_seen = any is_accept4 (events lines);
    printed =
        opening (events lines)
        ++ record_lines (from_accept (events lines))
            (from_accept-IsShown (events lines) (events-IsShown lines h));
  }

  run_interactive-AreLogged :
      (lines : List Text) (h : AreLogged lines)
      → (run_interactive os false lines ≡ ok (view_all lines h))
        × (run_interactive os true lines ≡ ok (view_ready lines h))
  run_interactive-AreLogged lines h =
      let (ready, all) = run_interactive_lem os lines (AreLogged-AreEvents lines h) in
      (
        all ∙ rw (format_all-IsShown (events lines) (events-IsShown lines h)) refl,
        ready
            ∙ rw
                (format_all-IsShown (from_accept (events lines))
                  (from_accept-IsShown (events lines) (events-IsShown lines h)))
                refl,
      )

  -- Over a file whose complete lines are records, or do not decode, the view never raises, however
  -- the writes of QEMU are cut up and interleaved with its rounds and wherever it is ended: of
  -- the first complete lines of the file it has counted every record, and printed the line of each,
  -- or with `--show-after-ready` the banner and the lines from the first accept4 on.
  pub live-AreLogged :
      (file : Option Text) (ticks : List Tick)
      → let t = run ticks (start file) in
        AreLogged (complete_lines (content t.file))
        → (rest : List Text) × (h : AreLogged t.yielded) × (complete_lines (content t.file)
            ≡ t.yielded ++ rest)
          × (live os false file ticks ≡ ok (view_all t.yielded h))
          × (live os true file ticks ≡ ok (view_ready t.yielded h))
  unfolding live
  live-AreLogged file ticks logged =
      let t = run ticks (start file) in
      let (rest, e) = run-yielded file ticks in
      let h : AreLogged t.yielded =
        All-front (λ line. IsLogged (loads line)) t.yielded rest (subst AreLogged e logged) in
      let (all, ready) = run_interactive-AreLogged t.yielded h in (rest, h, e, all, ready)

  -- With more rounds before the deadline than the file has complete lines, it has counted every
  -- record of the file and, without `--show-after-ready`, printed as many lines, in order.
  pub live-polls :
      (file : Option Text) (ticks : List Tick) (n : ℕ)
      → let t = run ticks (start file) in
        (h : AreLogged (complete_lines (content t.file)))
        → t.returned ≡ false
        → is_some t.file ≡ true
        → length (complete_lines (content t.file)) < n
        → (live os false file (ticks ++ polls n)
            ≡ ok (view_all (complete_lines (content t.file)) h))
          × (live os true file (ticks ++ polls n)
              ≡ ok (view_ready (complete_lines (content t.file)) h))
  unfolding live
  live-polls file ticks n h r f m =
      rw (run-append ticks (polls n) (start file), polls-yielded file ticks n r f m)
        (run_interactive-AreLogged _ h)

-- What the script counts when it follows such a log, in either mode.
pub count_events-AreLogged :
    (w : Watch)
    → w.quiet ≡ false
    → let t = run w.ticks (start w.log_file) in
      AreLogged w.os (complete_lines (content t.file))
      → count_events w ≡ ok (length (events t.yielded))
unfolding count_events
count_events-AreLogged w q logged =
    let (rest, h, e, all, ready) = live-AreLogged w.os w.log_file w.ticks logged in
    elim (Bool-cases w.show_after_ready) [
      | inl on ↦ rw (q, on) (rw ready refl)
      | inr off ↦ rw (q, off) (rw all refl)
    ]

-- ===== src/Inline/Start/Captured.antt =====
-- That run_capture_inline.py returns, and what it reports.
use unikernel_syscall_monito.Base.{
  ℕ, ◌≡◌, refl, ap, sym, ◌∙◌, Bool, false, Option, none, some, List, [], ◌∷◌, ◌++◌, ◌≤◌, map,
  flatten, length, length-append, append_assoc, append-nil, arith,
}
use unikernel_syscall_monito.Base.Int.{ℤ}
use unikernel_syscall_monito.Base.Result.{ok}
use unikernel_syscall_monito.Base.Text.{Text}
use unikernel_syscall_monito.Json.Value.{Json, obj}
use unikernel_syscall_monito.Json.Loads.{loads}
use unikernel_syscall_monito.Session.Host.{stop_and_remove}
use unikernel_syscall_monito.Inline.Live.{lines_or, count_events}
use unikernel_syscall_monito.Inline.Live.Laws.{AreLogged, count_events-AreLogged}
use unikernel_syscall_monito.Inline.Tail.{Tail, content, write, start, run, tick}
use unikernel_syscall_monito.Inline.Tail.Laws.{run-yielded}
use unikernel_syscall_monito.Inline.Tail.Lines.{
  complete_lines, count_lines, count_from, complete_lines-le-count_lines,
}
use unikernel_syscall_monito.Inline.View.Events.{event_of, events}
use unikernel_syscall_monito.Inline.Start.{
  World, captured, start_instance, final_log, view, monitored, start_if_free, resolved, main,
}
use unikernel_syscall_monito.Inline.Start.Laws.{Ready}

-- A text is appended in pieces.
content-run :
    (ss : List Text) (t : Tail)
    → content (run (map (λ s. write s) ss) t).file ≡ content t.file ++ flatten ss
unfolding run tick
content-run [] t = sym (append-nil (content t.file))
content-run (s ∷ ss) t =
    content-run ss (tick (write s) t) ∙ append_assoc (content t.file) s (flatten ss)

event_of-le : (d : Option Json) → length (event_of d) ≤ 1
event_of-le none = omega arith
event_of-le (some (obj evt)) = omega arith
event_of-le (some v) = omega arith

events-le : (lines : List Text) → length (events lines) ≤ length lines
events-le [] = omega arith
events-le (line ∷ lines) = omega (
  arith,
  length-append (event_of (loads line)) (events lines),
  event_of-le (loads line),
  events-le lines,
)

-- The number of lines does not depend on what is reported without a file, if that is not larger.
lines_or-content :
    (n : ℕ) (file : Option Text)
    → n ≤ count_lines (content file)
    → lines_or n file ≡ count_lines (content file)
unfolding count_lines count_from
lines_or-content n none h = omega (arith, h)
lines_or-content n (some s) h = refl

module _ (name log : Text) (w : World) where
  abbrev pub followed : Tail
  followed = run w.watch.ticks (start w.watch.log_file)

  -- What the log holds when QEMU has been stopped.
  abbrev pub final_text : Text
  final_text = content followed.file ++ flatten w.written_later

  final_log-content : content (final_log name log w) ≡ final_text
  unfolding final_log
  final_log-content = content-run w.written_later followed

  events-le-count_lines : length (events followed.yielded) ≤ count_lines final_text
  events-le-count_lines =
      let (rest, e) = run-yielded w.watch.log_file w.watch.ticks in
      omega (
        arith,
        events-le followed.yielded,
        ap length e,
        length-append followed.yielded rest,
        complete_lines-le-count_lines (content followed.file) (flatten w.written_later),
      )

  reported :
      lines_or (length (events followed.yielded)) (final_log name log w) ≡ count_lines final_text
  reported =
      lines_or-content (length (events followed.yielded)) (final_log name log w)
        (rw final_log-content events-le-count_lines)
      ∙ ap count_lines final_log-content

  -- If everything is found, the instance starts, the wait for the breakpoint returns, and the log is
  -- followed, whose complete lines are records with times in range or do not decode, then the script
  -- returns, however QEMU writes and wherever the view is ended, and reports how many lines the log
  -- has when QEMU has been stopped, which are at least as many as the records that the view counted.
  pub main-captured :
      {addr : ℤ} {ret_addr : Option ℤ} {path : Text} {armed : Bool}
      → Ready name log w addr ret_addr path
      → w.started ≡ ok tt
      → w.armed ≡ ok armed
      → w.watch.quiet ≡ false
      → AreLogged w.watch.os (complete_lines (content followed.file))
      → ((main name log w).0 ≡ ok (captured (count_lines final_text)))
        × (count_events w.watch ≡ ok (length (events followed.yielded)))
        × (length (events followed.yielded) ≤ count_lines final_text)
  unfolding main resolved start_if_free monitored start_instance view stop_and_remove final_log
  main-captured r s a q h = (
    rw (r.there, r.found_addr, r.found_ret, r.fresh, r.listed, r.free)
        (rw (r.resolves, s, a, count_events-AreLogged w.watch q h)
          (ap (λ n. ok (captured n)) reported)),
    count_events-AreLogged w.watch q h,
    events-le-count_lines,
  )

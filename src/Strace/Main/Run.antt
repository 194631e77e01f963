-- ===== src/Strace/Main/Run.antt =====
-- monitor.py and validate_strace.py together: a run of the monitor, beside the guest's own trace of
-- the same calls.
use unikernel_syscall_monito.Base.{
  ℕ, ◌≡◌, ◌≢◌, refl, ap, ◌∙◌, Bool, some, List, [], ◌∷◌, ◌++◌, length, map, keep, All, inl, inr,
  Option-cases, false,
}
use unikernel_syscall_monito.Base.Result.{ok}
use unikernel_syscall_monito.Base.Text.{Text}
use unikernel_syscall_monito.Json.Value.{str}
use unikernel_syscall_monito.Json.RoundTrip.Numbers.{IsReal}
use unikernel_syscall_monito.Monitor.NrSet.{Config}
use unikernel_syscall_monito.Monitor.Table.{lookup_syscall}
use unikernel_syscall_monito.Monitor.Handler.{run, new_breakpoint}
use unikernel_syscall_monito.Monitor.Handler.Event.{Hit}
use unikernel_syscall_monito.Monitor.Handler.Laws.{wanted, limited}
use unikernel_syscall_monito.Strace.Capture.{parse_vmi_jsonl}
use unikernel_syscall_monito.Strace.Capture.Events.{hit_name}
use unikernel_syscall_monito.Strace.Capture.Run.{parse_vmi_jsonl-run}
use unikernel_syscall_monito.Strace.Line.{is_ident_start, search_line, parse_strace_log}
use unikernel_syscall_monito.Strace.Line.Sound.{call, IsName, IsBlank, search_line-call}
use unikernel_syscall_monito.Strace.Main.{Difflib, report}
use unikernel_syscall_monito.Strace.Main.Matches.{IsSequenceMatcher, IsPart}
use unikernel_syscall_monito.Strace.Main.Whole.{Says, report-IsPart}

-- A line of the guest's trace: what is printable of it is noise without letters, and then
-- `name(arguments) = result`.
pub record IsTraced (is_printable : ℕ → Bool) (name line : Text) : Type 0 where
  pub front : Text
  pub arguments : Text
  pub spaces : Text
  pub rest : Text
  pub shape : keep is_printable line ≡ front ++ call name arguments spaces rest
  pub noise : All (λ c. is_ident_start c ≡ false) front
  pub named : IsName name
  pub blank : IsBlank spaces

-- These lines trace these calls, in order.
abbrev pub AreTraced : (ℕ → Bool) → List Text → List Text → Type 0
AreTraced p [] [] = Unit
AreTraced p [] (line ∷ lines) = ⊥
AreTraced p (name ∷ names) [] = ⊥
AreTraced p (name ∷ names) (line ∷ lines) = IsTraced p name line × AreTraced p names lines

module _ (p : ℕ → Bool) where
  search_traced : (name line : Text) → IsTraced p name line → search_line (keep p line) ≡ some name
  search_traced name line t =
      ap search_line t.shape
      ∙ search_line-call t.front name t.arguments t.spaces t.rest t.noise t.named t.blank

  parse_strace_log-AreTraced :
      (names lines after : List Text)
      → AreTraced p names lines
      → parse_strace_log p (lines ++ after) ≡ names ++ parse_strace_log p after
  unfolding parse_strace_log
  parse_strace_log-AreTraced [] [] after h = refl
  parse_strace_log-AreTraced [] (line ∷ lines) after h = absurd h
  parse_strace_log-AreTraced (name ∷ names) [] after h = absurd h
  parse_strace_log-AreTraced (name ∷ names) (line ∷ lines) after h =
      rw (search_traced name line h.0, parse_strace_log)
        (ap (λ r. name ∷ r) (parse_strace_log-AreTraced names lines after h.1))

  parse_strace_log-append :
      (xs ys : List Text)
      → parse_strace_log p (xs ++ ys) ≡ parse_strace_log p xs ++ parse_strace_log p ys
  unfolding parse_strace_log
  parse_strace_log-append [] ys = refl
  parse_strace_log-append (x ∷ xs) ys = elim (Option-cases (search_line (keep p x))) [
    | inl e ↦ rw (e, parse_strace_log) (parse_strace_log-append xs ys)
    | inr (n, e) ↦ rw (e, parse_strace_log) (ap (λ r. n ∷ r) (parse_strace_log-append xs ys))
  ]

  traced-IsPart :
      (names before lines after : List Text)
      → AreTraced p names lines
      → IsPart names (parse_strace_log p (before ++ (lines ++ after)))
  traced-IsPart names before lines after h = (
    parse_strace_log p before,
    parse_strace_log p after,
    parse_strace_log-append before (lines ++ after)
        ∙ ap (λ r. parse_strace_log p before ++ r) (parse_strace_log-AreTraced names lines after h),
  )

-- The names of the calls that a run of the monitor logs.
abbrev pub logged_names : Config → List Hit → List Text
logged_names c hits = map (λ h. (lookup_syscall h.rax).0) (limited c.max_events (wanted c hits))

map-str : (hits : List Hit) → map hit_name hits ≡ map str (map (λ h. (lookup_syscall h.rax).0) hits)
map-str [] = refl
map-str (h ∷ hits) = ap (λ r. hit_name h ∷ r) (map-str hits)

-- If the guest traces the calls that the monitor logs, one line each and in order, with any lines
-- before and after them, then validate_strace.py reads exactly their names from the new log of the
-- monitor, and reports all of them as one run of the trace; the clock gives finite floats, at least
-- one call is logged, and difflib keeps its promises.
pub report-run :
    (c : Config) (hits : List Hit) (log_path : Text) (lib : Difflib) (p : ℕ → Bool)
    (before lines after : List Text)
    → let names = logged_names c hits in
      let traced = parse_strace_log p (before ++ (lines ++ after)) in
      All (λ h. IsReal h.now) hits
      → AreTraced p names lines
      → names ≢ []
      → IsSequenceMatcher traced names (lib.get_matching_blocks traced names)
      → (parse_vmi_jsonl (run c hits (new_breakpoint [] log_path)).log ≡ ok (map str names))
        × Says (length names) (length names) (report lib traced names)
report-run c hits log_path lib p before lines after reals t ne m =
    let names = logged_names c hits in
    let traced = parse_strace_log p (before ++ (lines ++ after)) in
    (
      parse_vmi_jsonl-run c hits [] log_path [] (unfold parse_vmi_jsonl in refl) reals
          ∙ ap ok (map-str (limited c.max_events (wanted c hits))),
      (report-IsPart lib traced names m ne).1 (traced-IsPart p names before lines after t),
    )

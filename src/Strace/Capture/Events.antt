-- ===== src/Strace/Capture/Events.antt =====
-- The names of the events that monitor.py logs, read back by validate_strace.py.
use unikernel_syscall_monito.Base.{
  ◌≡◌, refl, ap, sym, ◌∙◌, some, List, [], ◌∷◌, ◌++◌, map, append_assoc, All,
}
use unikernel_syscall_monito.Base.Result.{Result, ok, bind-eq-ok, ◌>>=◌}
use unikernel_syscall_monito.Base.Text.{Text, codes}
use unikernel_syscall_monito.Json.Value.{Json, str, obj, Fields, end, field, get}
use unikernel_syscall_monito.Json.Dumps.{dumps, dumps_fields, quote}
use unikernel_syscall_monito.Json.RoundTrip.Numbers.{IsReal}
use unikernel_syscall_monito.Json.RoundTrip.Opening.{IsJson}
use unikernel_syscall_monito.Json.RoundTrip.Values.{loads-dumps}
use unikernel_syscall_monito.Gdbstub.Instance.{loads_or_raise}
use unikernel_syscall_monito.Py.Strip.{strip, strip-line, is_space}
use unikernel_syscall_monito.Monitor.Table.{lookup_syscall}
use unikernel_syscall_monito.Monitor.Handler.Event.{Hit, make_event, event_json, event_line}
use unikernel_syscall_monito.Monitor.Handler.Laws.{log_line}
use unikernel_syscall_monito.Monitor.Handler.Line.{event_json-IsJson}
use unikernel_syscall_monito.Strace.Capture.{syscall_of, with_line, parse_vmi_jsonl}

-- An object ends with its brace.
closed : (fs : Fields) → (front : Text) × (dumps_fields fs ≡ front ++ b'}' ∷ [])
unfolding dumps_fields
closed end = ([], refl)
closed (field k v end) = (
  quote k ++ b':' ∷ b' ' ∷ dumps v,
  sym (append_assoc (quote k) (b':' ∷ b' ' ∷ dumps v) (b'}' ∷ [])),
)
closed (field k v (field k' w fs)) =
    let (front, e) = closed (field k' w fs) in
    let before = b':' ∷ b' ' ∷ (dumps v ++ b',' ∷ b' ' ∷ front) in
    (
      quote k ++ before,
      ap (λ t. quote k ++ b':' ∷ b' ' ∷ (dumps v ++ b',' ∷ b' ' ∷ t)) e
          ∙ ap (λ t. quote k ++ b':' ∷ b' ' ∷ t)
              (sym (append_assoc (dumps v) (b',' ∷ b' ' ∷ front) (b'}' ∷ [])))
          ∙ sym (append_assoc (quote k) before (b'}' ∷ [])),
    )

-- Its line is found again.
strip-obj : (fs : Fields) → strip (dumps (obj fs) ++ 10 ∷ []) ≡ dumps (obj fs)
unfolding dumps
strip-obj fs =
    let (front, e) = closed fs in
    ap (λ t. strip (b'{' ∷ (t ++ 10 ∷ []))) e
    ∙ ap (λ t. strip (b'{' ∷ t)) (append_assoc front (b'}' ∷ []) (10 ∷ []))
    ∙ strip-line b'{' front b'}' (unfold is_space in refl) (unfold is_space in refl)
    ∙ ap (λ t. b'{' ∷ t) (sym e)

with_line-obj :
    (fs : Fields) (v : Json) (names : Result (List Json))
    → IsJson (obj fs)
    → get (codes "syscall") fs ≡ some v
    → with_line (dumps (obj fs)) names ≡ (names >>= λ rest. ok (v ∷ rest))
unfolding with_line dumps loads_or_raise syscall_of
with_line-obj fs v names h e = rw (loads-dumps (obj fs) h, loads_or_raise) (rw e refl)

-- What a line adds to the names behind it, when it is read.
with_line-ok :
    (s : Text) (names : Result (List Json)) (all_names : List Json)
    → with_line s names ≡ ok all_names
    → (front rest : List Json) × (names ≡ ok rest)
      × (all_names ≡ front ++ rest)
      × ((others : List Json) → with_line s (ok others) ≡ ok (front ++ others))
unfolding with_line
with_line-ok [] names all_names h = ([], all_names, h, refl, λ others. refl)
with_line-ok (c ∷ s) names all_names h =
    let (v, e, h') = bind-eq-ok (loads_or_raise (c ∷ s)) _ h in
    let (name, e', h'') = bind-eq-ok (syscall_of v) _ h' in
    let (rest, e'', same) = bind-eq-ok names _ h'' in
    (name ∷ [], rest, e'', cc, λ others. rw (e, with_line) (rw e' refl))

pub parse_vmi_jsonl-append :
    (xs ys : List Text) (ns ms : List Json)
    → parse_vmi_jsonl xs ≡ ok ns
    → parse_vmi_jsonl ys ≡ ok ms
    → parse_vmi_jsonl (xs ++ ys) ≡ ok (ns ++ ms)
unfolding parse_vmi_jsonl
parse_vmi_jsonl-append [] ys ns ms h k = cc
parse_vmi_jsonl-append (x ∷ xs) ys ns ms h k =
    let (front, rest, e, same, again) = with_line-ok (strip x) (parse_vmi_jsonl xs) ns h in
    rw (parse_vmi_jsonl-append xs ys rest ms e k, same)
      (again (rest ++ ms) ∙ ap ok (sym (append_assoc front rest ms)))

-- `event["syscall"]` as it is logged.
abbrev pub hit_name : Hit → Json
hit_name h = str (lookup_syscall h.rax).0

with_line-hit :
    (h : Hit) (names : Result (List Json))
    → IsReal h.now
    → with_line (strip (log_line h)) names ≡ (names >>= λ rest. ok (hit_name h ∷ rest))
unfolding event_line event_json
with_line-hit h names r =
    ap (λ s. with_line s names) (strip-obj _)
    ∙ with_line-obj _ (hit_name h) names (event_json-IsJson h r) (unfold get make_event in refl)

pub parse_vmi_jsonl-hits :
    (hits : List Hit)
    → All (λ h. IsReal h.now) hits
    → parse_vmi_jsonl (map log_line hits) ≡ ok (map hit_name hits)
unfolding parse_vmi_jsonl
parse_vmi_jsonl-hits [] h = refl
parse_vmi_jsonl-hits (hit ∷ hits) h =
    with_line-hit hit (parse_vmi_jsonl (map log_line hits)) h.0
    ∙ ap (λ r. r >>= λ rest. ok (hit_name hit ∷ rest)) (parse_vmi_jsonl-hits hits h.1)

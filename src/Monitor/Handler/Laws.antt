-- ===== src/Monitor/Handler/Laws.antt =====
-- What a sequence of hits leaves behind.
use unikernel_syscall_monito.Base.{
  ℕ, suc, zero, ◌+◌, ◌-◌, max, ◌≡◌, refl, sym, ap, ◌∙◌, true, false, not, Option, none, some, List,
  [], ◌∷◌, ◌++◌, map, arith, if◌then◌else◌, keep, take, length, leb, append_assoc, append-nil,
  Bool-cases, ◌⊎◌, inl, inr, ◌↔◌,
}
use unikernel_syscall_monito.Base.Int.{ℤ, pos, negsuc, at_least}
use unikernel_syscall_monito.Base.Result.{ok, raise, value_error}
use unikernel_syscall_monito.Base.Text.{Text, codes}
use unikernel_syscall_monito.Py.Number.{str}
use unikernel_syscall_monito.Monitor.NrSet.{Config}
use unikernel_syscall_monito.Monitor.Handler.{
  Breakpoint, new_breakpoint, is_filtered, finish, check_limit, logged, stop, run,
}
use unikernel_syscall_monito.Monitor.Handler.Event.{Hit, event_line}

-- The specification: the hits that the settings ask for, up to the limit. A limit below one
-- counts as one, since the limit is tested after an event is written.
abbrev pub wanted : Config → List Hit → List Hit
wanted c = keep (λ h. not (is_filtered c h.rax))

abbrev pub quota : ℤ → ℕ
quota (pos n) = max 1 n
quota (negsuc n) = 1

abbrev pub limited {ℓ} : {A : Type ℓ} → Option ℤ → List A → List A
limited none xs = xs
limited (some n) xs = take (quota n) xs

abbrev pub log_line : Hit → Text
log_line h = event_line h ++ 10 ∷ []

stop_closed : (c : Config) (hit : Hit) (b : Breakpoint) → b.log_open ≡ false → (stop c hit b).1 ≡ b
unfolding stop
stop_closed c hit b h = ground arith

-- A closed log gains no line, whatever the hits.
pub run_closed :
    (c : Config) (hits : List Hit) (b : Breakpoint) → b.log_open ≡ false → run c hits b ≡ b
unfolding run
run_closed c [] b h = refl
run_closed c (hit ∷ hits) b h = rw (stop_closed c hit b h) (run_closed c hits b h)

module _ (c : Config) (hit : Hit) (b : Breakpoint) where
  pub stop_filtered : is_filtered c hit.rax ≡ true → stop c hit b ≡ (ok false, b)
  unfolding stop
  stop_filtered h = rw h

  pub stop_open :
      is_filtered c hit.rax ≡ false
      → b.log_open ≡ true
      → stop c hit b ≡ (ok false, check_limit c.max_events (logged (event_line hit) b))
  unfolding stop
  stop_open h o = rw (h, o)

-- The limit is met exactly when as many events are counted as it allows.
at_least-quota : (count : ℕ) (n : ℤ) → at_least (count + 1) n ≡ leb (quota n) (count + 1)
at_least-quota count (pos n) = ground arith
at_least-quota count (negsuc n) = ground arith

abbrev after_event : Hit → Breakpoint → Breakpoint
after_event hit b = logged (event_line hit) b

-- The breakpoint after all of these hits have been written.
abbrev pub written : List Hit → Breakpoint → Breakpoint
written hits b = record b {
  log = b.log ++ map log_line hits;
  event_count = b.event_count + length hits;
  printed = b.printed ++ map (λ h. codes "[monitor.py] " ++ event_line h) hits;
}

written-nil : (b : Breakpoint) → written [] b ≡ b
written-nil b = ground (arith, append-nil b.log, append-nil b.printed)

written-cons :
    (hit : Hit) (hits : List Hit) (b : Breakpoint)
    → written hits (after_event hit b) ≡ written (hit ∷ hits) b
unfolding logged
written-cons hit hits b = ground (
  arith,
  append_assoc b.log (log_line hit ∷ []) (map log_line hits),
  append_assoc b.printed ((codes "[monitor.py] " ++ event_line hit) ∷ [])
      (map (λ h. codes "[monitor.py] " ++ event_line h) hits),
)

module _ (c : Config) (unlimited : c.max_events ≡ none) where
  stop_unlimited :
      (hit : Hit) (b : Breakpoint)
      → is_filtered c hit.rax ≡ false
      → b.log_open ≡ true
      → (stop c hit b).1 ≡ after_event hit b
  unfolding check_limit
  stop_unlimited hit b f o = rw (stop_open c hit b f o, unlimited)

  run_unlimited :
      (hits : List Hit) (b : Breakpoint)
      → b.log_open ≡ true
      → run c hits b ≡ written (wanted c hits) b
  unfolding run logged
  run_unlimited [] b h = sym (written-nil b)
  run_unlimited (hit ∷ hits) b h = elim (Bool-cases (is_filtered c hit.rax)) [
    | inl drops ↦
        rw drops (ap (λ r. run c hits r.1) (stop_filtered c hit b drops) ∙ run_unlimited hits b h)
    | inr keeps ↦ rw keeps (
        ap (λ r. run c hits r) (stop_unlimited hit b keeps h)
        ∙ run_unlimited hits (after_event hit b) h
        ∙ written-cons hit (wanted c hits) b)
  ]

-- The end of a run with a limit, of which `left` events are left.
abbrev pub ended : ℤ → ℕ → List Hit → Breakpoint → Breakpoint
ended n left hits b =
    if leb left (length hits) then finish n (written (take left hits) b) else written hits b

ended-cons :
    (n : ℤ) (left : ℕ) (hit : Hit) (hits : List Hit) (b : Breakpoint)
    → ended n left hits (after_event hit b) ≡ ended n (suc left) (hit ∷ hits) b
ended-cons n left hit hits b =
    ground (arith, written-cons hit hits b, written-cons hit (take left hits) b)

ended_one :
    (n : ℤ) (hit : Hit) (hits : List Hit) (b : Breakpoint)
    → finish n (after_event hit b) ≡ ended n 1 (hit ∷ hits) b
ended_one n hit hits b =
    ap (finish n) (sym (written-nil (after_event hit b)) ∙ written-cons hit [] b) ∙ ground arith

module _ (c : Config) (n : ℤ) (limit : c.max_events ≡ some n) where
  module _ (hit : Hit) (b : Breakpoint) (keeps : is_filtered c hit.rax ≡ false)
      (o : b.log_open ≡ true) where
    stop_limited : (stop c hit b).1 ≡ (
        if leb (quota n) (b.event_count + 1)
        then finish n (after_event hit b)
        else after_event hit b)
    unfolding check_limit logged
    stop_limited = rw (stop_open c hit b keeps o, limit, check_limit, at_least-quota)

    stop_last : b.event_count + 1 ≡ quota n → (stop c hit b).1 ≡ finish n (after_event hit b)
    stop_last e = ground (arith, stop_limited)

    stop_within :
        (left : ℕ) → b.event_count + suc (suc left) ≡ quota n → (stop c hit b).1 ≡ after_event hit b
    stop_within left e = ground (arith, stop_limited)

  run_limited :
      (hits : List Hit) (b : Breakpoint) (left : ℕ)
      → b.log_open ≡ true
      → b.event_count + suc left ≡ quota n
      → run c hits b ≡ ended n (suc left) (wanted c hits) b
  unfolding run logged finish
  run_limited [] b left h e = ground (arith, written-nil b)
  run_limited (hit ∷ hits) b left h e = elim (Bool-cases (is_filtered c hit.rax)) [
    | inl drops ↦
        rw drops
          (ap (λ r. run c hits r.1) (stop_filtered c hit b drops) ∙ run_limited hits b left h e)
    | inr keeps ↦ rw keeps (
        (elim left
            as (λ k.
              b.event_count + suc k ≡ quota n
              → run c hits (stop c hit b).1 ≡ ended n (suc k) (hit ∷ wanted c hits) b) [
                | zero ↦ λ e'.
                    ap (λ r. run c hits r) (stop_last hit b keeps h e')
                    ∙ run_closed c hits _ refl
                    ∙ ended_one n hit (wanted c hits) b
                | suc k ↦ λ e'.
                    ap (λ r. run c hits r) (stop_within hit b keeps h k e')
                    ∙ run_limited hits (after_event hit b) k h (omega arith)
                    ∙ ended-cons n (suc k) hit (wanted c hits) b
              ])
          e)
  ]

-- The log is closed, and gdb is told to detach and to quit.
abbrev pub detached : ℤ → Breakpoint → Breakpoint
detached n b = record b {
  log_open = false;
  printed =
      b.printed
      ++ (codes "[monitor.py] reached VMI_MAX_EVENTS=" ++ (str n ++ codes ", detaching")) ∷ [];
  commands = b.commands ++ codes "detach" ∷ codes "quit" ∷ [];
}

finish-detached : (n : ℤ) (b : Breakpoint) → finish n b ≡ detached n b
unfolding finish
finish-detached n b = refl

-- What a run has done in the end: every wanted hit is written, or as many as the limit allows,
-- whereupon the log is closed and gdb detaches.
abbrev pub captured : Option ℤ → List Hit → Breakpoint → Breakpoint
captured none hits b = written hits b
captured (some n) hits b =
    if leb (quota n) (length hits)
    then detached n (written (take (quota n) hits) b)
    else written hits b

ended-captured :
    (n : ℤ) (hits : List Hit) (b : Breakpoint) → ended n (quota n) hits b ≡ captured (some n) hits b
ended-captured n hits b =
    ap (λ d. if leb (quota n) (length hits) then d else written hits b)
      (finish-detached n (written (take (quota n) hits) b))

quota-suc : (n : ℤ) → suc (quota n - 1) ≡ quota n
quota-suc (pos n) = omega arith
quota-suc (negsuc n) = omega arith

run-eq_of_limit :
    (c : Config) (limit : Option ℤ) (hits : List Hit) (b : Breakpoint)
    → c.max_events ≡ limit
    → b.log_open ≡ true
    → b.event_count ≡ 0
    → run c hits b ≡ captured limit (wanted c hits) b
run-eq_of_limit c none hits b e o z = run_unlimited c e hits b o
run-eq_of_limit c (some n) hits b e o z =
    run_limited c n e hits b (quota n - 1) o (omega (arith, quota-suc n, z))
    ∙ ap (λ k. ended n k (wanted c hits) b) (quota-suc n)
    ∙ ended-captured n (wanted c hits) b

-- From a new breakpoint, any sequence of hits leaves exactly this: the log has, behind its old
-- lines, one line for each hit that the settings let through, in order, up to the limit (a limit
-- below one counts as one); each such line is printed and counted; and exactly if that many hits
-- came, the log is closed and `detach` and `quit` are given to gdb, once.
pub run-new_breakpoint :
    (c : Config) (hits : List Hit) (old_log : List Text) (log_path : Text)
    → run c hits (new_breakpoint old_log log_path)
      ≡ captured c.max_events (wanted c hits) (new_breakpoint old_log log_path)
run-new_breakpoint c hits old_log log_path =
    run-eq_of_limit c c.max_events hits (new_breakpoint old_log log_path) refl
      (unfold new_breakpoint in refl) (unfold new_breakpoint in refl)

-- `stop` returns false, so that gdb goes on with the guest, exactly if the hit is filtered out or
-- the log is open; it raises a `ValueError`, and then changes nothing, exactly if the hit is wanted
-- and the log is closed.
pub stop-continues :
    (c : Config) (hit : Hit) (b : Breakpoint)
    → (((stop c hit b).0 ≡ ok false) ↔ ((is_filtered c hit.rax ≡ true) ⊎ (b.log_open ≡ true)))
      × ((stop c hit b ≡ (raise value_error, b))
          ↔ ((is_filtered c hit.rax ≡ false) × (b.log_open ≡ false)))
unfolding stop
stop-continues c hit b =
    ((λ h. ground arith, λ h. ground arith), (λ h. ground arith, λ h. ground arith))

-- ===== src/Monitor/Handler/Captured.antt =====
-- What a run of monitor.py adds to its log.
use unikernel_syscall_monito.Base.{
  ℕ, zero, suc, ◌≡◌, refl, ap, ◌∙◌, Bool, not, Option, some, none, List, [], ◌∷◌, ◌++◌, map, All,
  keep, take, take_all, leb, length, Bool-cases, inl, inr, tests,
}
use unikernel_syscall_monito.Base.Int.{ℤ}
use unikernel_syscall_monito.Base.Text.{Text}
use unikernel_syscall_monito.Monitor.NrSet.{Config}
use unikernel_syscall_monito.Monitor.Handler.{Breakpoint, run, new_breakpoint, is_filtered, finish}
use unikernel_syscall_monito.Monitor.Handler.Event.{Hit}
use unikernel_syscall_monito.Monitor.Handler.Laws.{
  wanted, quota, limited, captured, log_line, run-new_breakpoint,
}

All-keep : {A : Type 0} (P : A → Type 0) (p : A → Bool) (xs : List A) → All P xs → All P (keep p xs)
All-keep P p [] h = tt
All-keep P p (x ∷ xs) h = elim (Bool-cases (p x)) [
  | inl e ↦ rw e (h.0, All-keep P p xs h.1)
  | inr e ↦ rw e (All-keep P p xs h.1)
]

All-take : {A : Type 0} (P : A → Type 0) (n : ℕ) (xs : List A) → All P xs → All P (take n xs)
All-take P zero xs h = tt
All-take P (suc n) [] h = tt
All-take P (suc n) (x ∷ xs) h = (h.0, All-take P n xs h.1)

All-limited :
    {A : Type 0} (P : A → Type 0) (limit : Option ℤ) (xs : List A)
    → All P xs
    → All P (limited limit xs)
All-limited P none xs h = h
All-limited P (some n) xs h = All-take P (quota n) xs h

captured-log :
    (limit : Option ℤ) (hits : List Hit) (b : Breakpoint)
    → (captured limit hits b).log ≡ b.log ++ map log_line (limited limit hits)
unfolding finish
captured-log none hits b = refl
captured-log (some n) hits b = elim (Bool-cases (leb (quota n) (length hits))) [
  | inl full ↦ rw full refl
  | inr short ↦ rw (short, take_all (quota n) hits (omega (tests, short))) refl
]

-- The hits that a run logs.
abbrev pub found : Config → List Hit → List Hit
found c hits = limited c.max_events (wanted c hits)

pub All-found :
    (P : Hit → Type 0) (c : Config) (hits : List Hit) → All P hits → All P (found c hits)
All-found P c hits h =
    All-limited P c.max_events (wanted c hits) (All-keep P (λ h. not (is_filtered c h.rax)) hits h)

pub run-log :
    (c : Config) (hits : List Hit) (old_log : List Text) (log_path : Text)
    → (run c hits (new_breakpoint old_log log_path)).log ≡ old_log ++ map log_line (found c hits)
unfolding new_breakpoint
run-log c hits old_log log_path =
    ap (λ b. b.log) (run-new_breakpoint c hits old_log log_path)
    ∙ captured-log c.max_events (wanted c hits) (new_breakpoint old_log log_path)

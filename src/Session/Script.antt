-- ===== src/Session/Script.antt =====
-- What a script has done to the outside, in order, and what it returns or raises.
use unikernel_syscall_monito.Base.{
  ℕ, ◌≡◌, refl, ◌∙◌, Bool, true, false, List, [], ◌∷◌, ◌++◌, keep, keep-append,
}
use unikernel_syscall_monito.Base.Result.{Result, ok, raise}
use unikernel_syscall_monito.Base.Text.{Text}
use unikernel_syscall_monito.Session.Environment.{Environ}

pub data Effect : Type 0 where
  run_instance : Text → Effect
  run_patched : Text → Environ → Effect
  stop_instance : Text → Effect
  remove_instance : Text → Effect
  open_stub : Text → ℕ → Effect
  spawn : List Text → Environ → Effect
  interrupt : Effect
  write_stdin : Text → Effect
  terminate : Effect

abbrev pub Script : Type 0 → Type 0
Script A = Result A × List Effect

-- The second part runs if the first one returns.
abbrev pub and_then : {A B : Type 0} → Result A → List Effect → (A → Script B) → Script B
and_then (ok a) es f = ((f a).0, es ++ (f a).1)
and_then (raise e) es f = (raise e, es)

infixl 5 ◌>>=◌ ◌>>◌
abbrev pub ◌>>=◌ : {A B : Type 0} → Script A → (A → Script B) → Script B
m >>= f = and_then m.0 m.1 f

abbrev pub ◌>>◌ : {A B : Type 0} → Script A → Script B → Script B
m >> k = m >>= λ _. k

abbrev pub give : {A : Type 0} → Result A → Script A
give r = (r, [])

abbrev pub act : Effect → Script Unit
act e = (ok tt, e ∷ [])

abbrev pub pass : Script Unit
pass = (ok tt, [])

-- How a body and its `finally` end together: the exception of the later one is raised.
abbrev pub after : {A B : Type 0} → Result A → Result B → Result A
after r (ok b) = r
after r (raise e) = raise e

-- `try: body finally: last`
abbrev pub try_finally : {A B : Type 0} → Script A → Script B → Script A
try_finally m last = (after m.0 last.0, m.1 ++ last.1)

-- The effects on the life of an instance.
abbrev pub touches : Effect → Bool
touches (run_instance n) = true
touches (run_patched n e) = true
touches (stop_instance n) = true
touches (remove_instance n) = true
touches (open_stub n p) = false
touches (spawn c e) = false
touches interrupt = false
touches (write_stdin t) = false
touches terminate = false

-- The effects on a gdb process.
abbrev pub talks : Effect → Bool
talks (run_instance n) = false
talks (run_patched n e) = false
talks (stop_instance n) = false
talks (remove_instance n) = false
talks (open_stub n p) = false
talks (spawn c e) = true
talks interrupt = true
talks (write_stdin t) = true
talks terminate = true

pub record Quiet {A : Type 0} (m : Script A) : Type 0 where
  pub quiet : keep touches m.1 ≡ []

pub Quiet-bind :
    {A B : Type 0} (m : Script A) (f : A → Script B)
    → Quiet m
    → ((a : A) → Quiet (f a))
    → Quiet (m >>= f)
Quiet-bind (ok a, es) f h k = record {
  quiet = rw (keep-append touches es (f a).1, h.quiet) (k a).quiet;
}
Quiet-bind (raise e, es) f h k = record { quiet = h.quiet }

pub Quiet-give :
    {A B : Type 0} (r : Result A) (f : A → Script B)
    → ((a : A) → Quiet (f a))
    → Quiet (give r >>= f)
Quiet-give r f k = Quiet-bind (give r) f (record { quiet = refl }) k

pub Quiet-try_finally :
    {A B : Type 0} (m : Script A) (last : Script B)
    → Quiet m
    → Quiet last
    → Quiet (try_finally m last)
Quiet-try_finally m last h k = record {
  quiet = keep-append touches m.1 last.1 ∙ rw (h.quiet, k.quiet) refl;
}

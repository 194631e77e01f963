-- ===== src/Session/Host/Laws.antt =====
-- The effects on instances of the shared steps.
use unikernel_syscall_monito.Base.{
  ℕ, ◌≡◌, refl, ap, ◌∙◌, Bool, true, false, List, [], ◌∷◌, keep, keep-append, if◌then◌else◌,
}
use unikernel_syscall_monito.Base.Result.{Result, ok, raise}
use unikernel_syscall_monito.Base.Text.{Text}
use unikernel_syscall_monito.Session.Host.{Host, is_running, find_dir, attach}
use unikernel_syscall_monito.Session.Script.{
  Effect, Script, ◌>>=◌, run_instance, touches, Quiet, Quiet-give, and_then,
}

-- Whether a result is no exception.
abbrev pub returns : {A : Type 0} → Result A → Bool
returns (ok a) = true
returns (raise e) = false

pub keep-and_then :
    {A B : Type 0} (r : Result A) (es : List Effect) (f : A → Script B) (rest : List Effect)
    → keep touches es ≡ []
    → ((a : A) → keep touches (f a).1 ≡ rest)
    → keep touches (and_then r es f).1 ≡ (if returns r then rest else [])
keep-and_then (ok a) es f rest h k = rw (keep-append touches es (f a).1, h) (k a)
keep-and_then (raise e) es f rest h k = h

pub run_then :
    {A : Type 0} (r : Result {0} Unit) (name : Text) (f : Unit → Script A) (rest : List Effect)
    → ((a : Unit) → keep touches (f a).1 ≡ rest)
    → keep touches (and_then r (run_instance name ∷ []) f).1
      ≡ run_instance name ∷ (if returns r then rest else [])
run_then (ok a) name f rest k = ap (λ es. run_instance name ∷ es) (k a)
run_then (raise e) name f rest k = refl

pub and_then_of :
    {A B : Type 0} (m : Script A) (f : A → Script B) (a : A) (rest : List Effect)
    → Quiet m
    → m.0 ≡ ok a
    → keep touches (f a).1 ≡ rest
    → keep touches (m >>= f).1 ≡ rest
and_then_of (r, es) f a rest q h k = rw h (keep-append touches es (f a).1 ∙ rw q.quiet k)

module _ (name : Text) (h : Host) where
  pub is_running-Quiet : Quiet (is_running name h)
  unfolding is_running
  is_running-Quiet = Quiet-give h.listing _ (λ out. record { quiet = refl })

  pub find_dir-Quiet : Quiet (find_dir name h)
  unfolding find_dir
  find_dir-Quiet = Quiet-give h.full_listing _ (λ out. record { quiet = refl })

  pub attach-Quiet : (dir : Text) (port : ℕ) → Quiet (attach name h dir port)
  unfolding attach
  attach-Quiet dir port = record { quiet = refl }

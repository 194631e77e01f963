-- ===== src/Session/Chain.antt =====
-- The effects of one kind in a chain of steps of which some have no such effects.
use unikernel_syscall_monito.Base.{
  ◌≡◌, refl, ap, ap₂, sym, ◌∙◌, Bool, List, [], ◌++◌, keep, keep-append, append-nil, if◌then◌else◌,
}
use unikernel_syscall_monito.Base.Result.{Result, Exception, ok, raise}
use unikernel_syscall_monito.Session.Script.{Effect, Script, ◌>>=◌}
use unikernel_syscall_monito.Session.Host.Laws.{returns}

-- How a chain ends does not depend on what is done in it.
pub result-bind :
    {A B : Type 0} (m p : Script A) (f : A → Script B) → m.0 ≡ p.0 → (m >>= f).0 ≡ (p >>= f).0
result-bind (r, es) (ok a, es') f h = rw h refl
result-bind (r, es) (raise e, es') f h = rw h refl

module _ (kind : Effect → Bool) where
  abbrev pub Silent : {A : Type 0} → Script A → Type 0
  Silent m = keep kind m.1 ≡ []

  pub Silent-bind :
      {A B : Type 0} (m : Script A) (f : A → Script B)
      → Silent m
      → ((a : A) → Silent (f a))
      → Silent (m >>= f)
  Silent-bind (ok a, es) f h k = rw (keep-append kind es (f a).1, h) (k a)
  Silent-bind (raise e, es) f h k = h

  -- A silent end adds nothing.
  pub bind-Silent :
      {A B : Type 0} (m : Script A) (f : A → Script B)
      → ((a : A) → Silent (f a))
      → keep kind (m >>= f).1 ≡ keep kind m.1
  bind-Silent (ok a, es) f k =
      keep-append kind es (f a).1 ∙ ap (λ r. keep kind es ++ r) (k a) ∙ append-nil (keep kind es)
  bind-Silent (raise e, es) f k = refl

  -- Behind a silent start, what is done depends on how the chain up to there ends.
  pub Silent-follow :
      {A B C : Type 0} (effects : Result C → List Effect)
      → ((e : Exception) → effects (raise e) ≡ [])
      → (m : Script A) (f : A → Script B) (g : A → Script C) → Silent m
      → ((a : A) → keep kind (f a).1 ≡ effects (g a).0)
      → keep kind (m >>= f).1 ≡ effects (m >>= g).0
  Silent-follow effects none (ok a, es) f g h k = rw (keep-append kind es (f a).1, h) (k a)
  Silent-follow effects none (raise e, es) f g h k = h ∙ sym (none e)

  after-Silent :
      {A B : Type 0} (m : Script A) (f : A → Script B) (rest : List Effect)
      → Silent m
      → ((a : A) → keep kind (f a).1 ≡ rest)
      → keep kind (m >>= f).1 ≡ (if returns m.0 then rest else [])
  after-Silent (ok a, es) f rest h k = rw (keep-append kind es (f a).1, h) (k a)
  after-Silent (raise e, es) f rest h k = h

  -- A part with such effects, a silent step, and then the rest if both of them return.
  pub bind-part :
      {A B C : Type 0} (m : Script A) (g : A → Script B) (f : B → Script C)
      (part rest : List Effect)
      → keep kind m.1 ≡ part
      → ((a : A) → Silent (g a))
      → ((b : B) → keep kind (f b).1 ≡ rest)
      → keep kind (m >>= λ a. g a >>= f).1 ≡ part ++ (if returns (m >>= g).0 then rest else [])
  bind-part (raise e, es) g f part rest h s k = h ∙ sym (append-nil part)
  bind-part (ok a, es) g f part rest h s k =
      keep-append kind es (g a >>= f).1 ∙ ap₂ (λ x y. x ++ y) h (after-Silent (g a) f rest (s a) k)

-- ===== src/Monitor/Handler/Filter.antt =====
-- Which syscalls `stop` lets through.
use unikernel_syscall_monito.Base.{
  ◌≡◌, subst, Bool-cases, refl, ◌↔◌, ◌⊎◌, inl, inr, true, false, Option, none, some, List, [], ◌∷◌,
  arith,
}
use mathlib.Core.Option.{some-injective}
use unikernel_syscall_monito.Base.Int.{ℤ, int_eq_iff}
use unikernel_syscall_monito.Monitor.NrSet.{Config, member}
use unikernel_syscall_monito.Monitor.Handler.{is_outside, is_filtered}

-- The number is one of these.
abbrev pub Listed : ℤ → List ℤ → Type 0
Listed n [] = ⊥
Listed n (m ∷ ms) = (n ≡ m) ⊎ Listed n ms

member_iff : (n : ℤ) (ns : List ℤ) → (member n ns ≡ true) ↔ Listed n ns
member_iff n [] = ground arith
member_iff n (m ∷ ns) = ground (arith, int_eq_iff n m, member_iff n ns)

not_member_iff : (n : ℤ) (ns : List ℤ) → (member n ns ≡ false) ↔ (¬ Listed n ns)
not_member_iff n ns = elim (Bool-cases (member n ns)) [
  | inl e ↦ ((λ f. cc (e, f)), λ h. absurd (h ((member_iff n ns).0 e)))
  | inr e ↦ ((λ f l. cc (e, (member_iff n ns).1 l)), λ _. e)
]

outside_iff :
    (rax : ℤ) (include : Option (List ℤ))
    → (is_outside rax include ≡ false) ↔ ((ns : List ℤ) → include ≡ some ns → Listed rax ns)
unfolding is_outside
outside_iff rax none = ((λ _ ns e. cc), λ _. refl)
outside_iff rax (some ms) = (
  (λ h ns e. subst (Listed rax) (some-injective ms ns e) ((member_iff rax ms).0 (ground arith))),
  λ h. ground (arith, (member_iff rax ms).1 (h ms refl)),
)

-- A syscall is let through exactly if INCLUDE_NRS is unset or lists its number, and EXCLUDE_NRS
-- does not list it.
pub is_filtered_iff :
    (c : Config) (rax : ℤ)
    → (is_filtered c rax ≡ false)
      ↔ ((ns : List ℤ) → c.include ≡ some ns → Listed rax ns) × ¬ Listed rax c.exclude
unfolding is_filtered
is_filtered_iff c rax = (
  (λ h. (
    (outside_iff rax c.include).0 (ground arith),
    (not_member_iff rax c.exclude).0 (ground arith),
  )),
  λ h. ground (arith, (outside_iff rax c.include).1 h.0, (not_member_iff rax c.exclude).1 h.1),
)

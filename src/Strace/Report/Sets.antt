-- ===== src/Strace/Report/Sets.antt =====
-- The report of validate_strace.py over sequences with the same names.
use unikernel_syscall_monito.Base.{
  ◌≡◌, refl, ap, ap₂, sym, ◌∙◌, true, false, ◌&&◌, not, List, [], ◌∷◌, arith, Bool-cases, ◌⊎◌, inl,
  inr, All, subst,
}
use unikernel_syscall_monito.Base.Text.{Text, text_eq, text_eq_iff}
use unikernel_syscall_monito.Strace.Report.{text_lt, is_in, only_in, report_names}
use unikernel_syscall_monito.Strace.Report.Names.{text_lt_trans, IsSorted, SameNames, only_in_lem}

text_lt_irrefl : (s : Text) → text_lt s s ≡ false
unfolding text_lt
text_lt_irrefl [] = refl
text_lt_irrefl (c ∷ s) = ground (arith, text_lt_irrefl s)

is_in_head : (x : Text) (xs : List Text) → is_in x (x ∷ xs) ≡ true
unfolding is_in
is_in_head x xs = ground (arith, text_eq_iff x x)

member_above :
    (x y : Text) (ys : List Text)
    → All (λ m. text_lt y m ≡ true) ys
    → is_in x ys ≡ true
    → text_lt y x ≡ true
unfolding is_in
member_above x y [] a h = cc h
member_above x y (m ∷ ys) a h = elim (Bool-cases (text_eq x m)) [
  | inl same ↦ ap (text_lt y) ((text_eq_iff x m).0 same) ∙ a.0
  | inr other ↦ member_above x y ys a.1 (ground arith)
]

not_above : (x : Text) (xs : List Text) → All (λ m. text_lt x m ≡ true) xs → is_in x xs ≡ false
not_above x xs a = elim (Bool-cases (is_in x xs)) [
  | inl there ↦ cc (member_above x x xs a there, text_lt_irrefl x)
  | inr missing ↦ missing
]

is_in_cons : (x y : Text) (ys : List Text) → is_in x (y ∷ ys) ≡ true → (x ≡ y) ⊎ (is_in x ys ≡ true)
unfolding is_in
is_in_cons x y ys h = elim (Bool-cases (text_eq x y)) [
  | inl same ↦ inl ((text_eq_iff x y).0 same)
  | inr other ↦ inr (ground arith)
]

same_head :
    (x y : Text) (xs ys : List Text)
    → IsSorted (x ∷ xs)
    → IsSorted (y ∷ ys)
    → SameNames (x ∷ xs) (y ∷ ys)
    → x ≡ y
same_head x y xs ys h k same = elim (is_in_cons x y ys (sym (same x) ∙ is_in_head x xs)) [
  | inl e ↦ e
  | inr later ↦ elim (is_in_cons y x xs (same y ∙ is_in_head y ys)) [
    | inl e ↦ sym e
    | inr later' ↦
        let below =
          text_lt_trans x y x (member_above y x xs h.0 later') (member_above x y ys k.0 later) in
        cc (below, text_lt_irrefl x)
  ]
]

same_tail :
    (x : Text) (xs ys : List Text)
    → IsSorted (x ∷ xs)
    → IsSorted (x ∷ ys)
    → SameNames (x ∷ xs) (x ∷ ys)
    → SameNames xs ys
unfolding is_in
same_tail x xs ys h k same n = elim (Bool-cases (text_eq n x)) [
  | inl here ↦
      let e = (text_eq_iff n x).0 here in
      ap (λ m. is_in m xs) e
      ∙ not_above x xs h.0
      ∙ sym (not_above x ys k.0)
      ∙ ap (λ m. is_in m ys) (sym e)
  | inr other ↦ ground (arith, same n)
]

no_members : (x : Text) (xs : List Text) → SameNames [] (x ∷ xs) → ⊥
unfolding is_in
no_members x xs same = cc (same x ∙ is_in_head x xs)

-- A strictly increasing list is known by its members.
IsSorted-unique : (xs ys : List Text) → IsSorted xs → IsSorted ys → SameNames xs ys → xs ≡ ys
IsSorted-unique [] [] h k same = refl
IsSorted-unique [] (y ∷ ys) h k same = absurd (no_members y ys same)
IsSorted-unique (x ∷ xs) [] h k same = absurd (no_members x xs (λ n. sym (same n)))
IsSorted-unique (x ∷ xs) (y ∷ ys) h k same =
    let e = same_head x y xs ys h k same in
    let k' = subst (λ z. IsSorted (z ∷ ys)) (sym e) k in
    let same' = subst (λ z. SameNames (x ∷ xs) (z ∷ ys)) (sym e) same in
    ap₂ (λ z zs. z ∷ zs) e (IsSorted-unique xs ys h.1 k.1 (same_tail x xs ys h k' same'))

pub only_in-SameNames :
    (xs ys xs' ys' : List Text)
    → SameNames xs xs'
    → SameNames ys ys'
    → only_in xs ys ≡ only_in xs' ys'
only_in-SameNames xs ys xs' ys' h k =
    let (sorted, members) = only_in_lem xs ys in
    let (sorted', members') = only_in_lem xs' ys' in
    IsSorted-unique (only_in xs ys) (only_in xs' ys') sorted sorted'
      (λ n. members n ∙ ap₂ (λ a b. a && not b) (h n) (k n) ∙ sym (members' n))

-- The messages depend only on which names occur in each sequence, neither on their order nor on
-- how often they occur.
pub report_names-SameNames :
    (strace_seq strace_seq' vmi_seq vmi_seq' : List Text)
    → SameNames strace_seq strace_seq'
    → SameNames vmi_seq vmi_seq'
    → report_names strace_seq vmi_seq ≡ report_names strace_seq' vmi_seq'
unfolding report_names
report_names-SameNames s s' v v' h k =
    rw (only_in-SameNames s v s' v' h k, only_in-SameNames v s v' s' k h) refl

-- ===== src/Strace/Report/Names.antt =====
-- Which names the report lists.
use unikernel_syscall_monito.Base.{
  ◌≡◌, ◌↔◌, refl, ap, sym, ◌∙◌, Bool, true, false, ◌&&◌, ◌||◌, not, List, [], ◌∷◌, ◌++◌, keep,
  arith, Bool-cases, inl, inr, All,
}
use unikernel_syscall_monito.Base.Text.{Text, text_eq, text_eq_iff}
use unikernel_syscall_monito.Strace.Report.{
  text_lt, is_in, insert_name, sorted_set, only_in, only_in_strace, only_in_vmi, full_coverage,
  when_any, when_none, report_names,
}

pub text_lt_trans : (s t u : Text) → text_lt s t ≡ true → text_lt t u ≡ true → text_lt s u ≡ true
unfolding text_lt
text_lt_trans s t [] h k = cc k
text_lt_trans s [] (e ∷ u) h k = cc h
text_lt_trans [] (d ∷ t) (e ∷ u) h k = refl
text_lt_trans (c ∷ s) (d ∷ t) (e ∷ u) h k = ground (arith, text_lt_trans s t u)

-- Of two texts, one is smaller or they are the same.
text_lt_total : (s t : Text) → text_lt s t ≡ false → text_eq s t ≡ false → text_lt t s ≡ true
unfolding text_lt
text_lt_total [] [] h k = cc k
text_lt_total [] (d ∷ t) h k = cc h
text_lt_total (c ∷ s) [] h k = refl
text_lt_total (c ∷ s) (d ∷ t) h k = ground (arith, text_lt_total s t)

-- Strictly increasing, so without repetitions.
abbrev pub IsSorted : List Text → Type 0
IsSorted [] = Unit
IsSorted (n ∷ names) = All (λ m. text_lt n m ≡ true) names × IsSorted names

All-insert :
    (P : Text → Type 0) (name : Text) (names : List Text)
    → P name
    → All P names
    → All P (insert_name name names)
unfolding insert_name
All-insert P name [] p h = (p, tt)
All-insert P name (n ∷ names) p h = ground (arith, All-insert P name names p)

All-lt_trans :
    (n m : Text) (names : List Text)
    → text_lt n m ≡ true
    → All (λ k. text_lt m k ≡ true) names
    → All (λ k. text_lt n k ≡ true) names
All-lt_trans n m [] h a = tt
All-lt_trans n m (k ∷ names) h a = (text_lt_trans n m k h a.0, All-lt_trans n m names h a.1)

insert_name-IsSorted :
    (name : Text) (names : List Text) → IsSorted names → IsSorted (insert_name name names)
unfolding insert_name
insert_name-IsSorted name [] h = (tt, tt)
insert_name-IsSorted name (n ∷ names) h = elim (Bool-cases (text_lt name n)) [
  | inl less ↦ rw less ((less, All-lt_trans name n names less h.0), h)
  | inr more ↦ elim (Bool-cases (text_eq name n)) [
    | inl same ↦ rw (more, same) h
    | inr other ↦
        rw (more, other)
          (
            All-insert (λ m. text_lt n m ≡ true) name names (text_lt_total name n more other) h.0,
            insert_name-IsSorted name names h.1,
          )
  ]
]

is_in-insert :
    (n name : Text) (names : List Text)
    → is_in n (insert_name name names) ≡ (text_eq n name || is_in n names)
unfolding is_in insert_name
is_in-insert n name [] = refl
is_in-insert n name (m ∷ names) =
    ground
      (arith, is_in-insert n name names, text_eq_iff name m, text_eq_iff n m, text_eq_iff n name)

sorted_set-IsSorted : (names : List Text) → IsSorted (sorted_set names)
unfolding sorted_set
sorted_set-IsSorted [] = tt
sorted_set-IsSorted (name ∷ names) =
    insert_name-IsSorted name (sorted_set names) (sorted_set-IsSorted names)

is_in-sorted_set : (n : Text) (names : List Text) → is_in n (sorted_set names) ≡ is_in n names
unfolding sorted_set is_in
is_in-sorted_set n [] = refl
is_in-sorted_set n (name ∷ names) =
    is_in-insert n name (sorted_set names)
    ∙ ap (λ b. text_eq n name || b) (is_in-sorted_set n names)

is_in-keep :
    (p : Text → Bool) (n : Text) (names : List Text)
    → is_in n (keep p names) ≡ (is_in n names && p n)
unfolding is_in
is_in-keep p n [] = refl
is_in-keep p n (m ∷ names) = elim (Bool-cases (text_eq n m)) [
  | inl same ↦
      let e : p n ≡ p m = ap p ((text_eq_iff n m).0 same) in ground (arith, is_in-keep p n names)
  | inr other ↦ ground (arith, is_in-keep p n names)
]

-- The list of the names that one sequence has and the other has not: in strictly increasing order,
-- and with exactly those names.
pub only_in_lem :
    (names others : List Text)
    → IsSorted (only_in names others)
      × ((n : Text) → is_in n (only_in names others) ≡ (is_in n names && not (is_in n others)))
unfolding only_in
only_in_lem names others = (
  sorted_set-IsSorted (keep (λ m. not (is_in m others)) names),
  λ n.
      is_in-sorted_set n (keep (λ m. not (is_in m others)) names)
      ∙ is_in-keep (λ m. not (is_in m others)) n names,
)

no_names : (names : List Text) → ((n : Text) → is_in n names ≡ false) → names ≡ []
unfolding is_in
no_names [] h = refl
no_names (m ∷ names) h = ground (arith, h m, text_eq_iff m m)

abbrev pub SameNames : List Text → List Text → Type 0
SameNames xs ys = (n : Text) → is_in n xs ≡ is_in n ys

all_covered :
    (xs ys : List Text)
    → when_any only_in_strace xs ++ when_any only_in_vmi ys ++ when_none xs ys ≡ full_coverage ∷ []
    → (xs ≡ []) × (ys ≡ [])
unfolding when_any when_none
all_covered [] [] h = (refl, refl)
all_covered [] (y ∷ ys) h = cc h
all_covered (x ∷ xs) ys h = cc h

-- What one sequence has, the other has.
covers :
    (names others : List Text) (n : Text)
    → only_in names others ≡ []
    → is_in n names ≡ true
    → is_in n others ≡ true
covers names others n e h =
    let (_, same) = only_in_lem names others in
    let gone : (is_in n names && not (is_in n others)) ≡ false =
      sym (same n) ∙ ap (is_in n) e ∙ (unfold is_in in refl) in
    ground (arith, gone)

none_only : (names others : List Text) → SameNames names others → only_in names others ≡ []
none_only names others h =
    no_names (only_in names others)
      (λ n. let (_, same) = only_in_lem names others in same n ∙ ground (arith, h n))

-- The report of a full match is given exactly if the same names occur in both sequences.
pub report_names_iff :
    (strace_seq vmi_seq : List Text)
    → (report_names strace_seq vmi_seq ≡ full_coverage ∷ []) ↔ SameNames strace_seq vmi_seq
unfolding report_names
report_names_iff s v = (
  (λ h n.
      let (no_s, no_v) = all_covered (only_in s v) (only_in v s) h in
      ground (arith, covers s v n no_s, covers v s n no_v)),
  (λ h. rw (none_only s v h, none_only v s (λ n. sym (h n))) refl),
)

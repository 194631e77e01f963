-- ===== src/Strace/Report/Longest.antt =====
-- The block that is reported as the longest run.
use unikernel_syscall_monito.Base.{
  ℕ, ◌+◌, ◌≡◌, ◌≤◌, ◌<◌, refl, ap, Bool, true, false, some, List, [], ◌∷◌, keep, length, arith,
  tests, ltb, Bool-cases, ◌⊎◌, inl, inr, All, subst,
}
use mathlib.Core.Option.{some-injective}
use unikernel_syscall_monito.Strace.Report.{Block, max_block, first_longest, longest, run_of}

-- The first of the blocks that have the largest size.
abbrev pub IsFirst : Block → List Block → Type 0
IsFirst b [] = ⊥
IsFirst b (x ∷ xs) = ((x ≡ b) × All (λ y. y.size ≤ b.size) xs) ⊎ ((x.size < b.size) × IsFirst b xs)

max_block-ge : (best : Block) (xs : List Block) → best.size ≤ (max_block best xs).size
unfolding max_block
max_block-ge best [] = omega arith
max_block-ge best (x ∷ xs) = ground (arith, max_block-ge x xs, max_block-ge best xs)

-- A block that is not larger than the best so far changes nothing.
skip_smaller :
    (b best x : Block) (xs : List Block)
    → x.size ≤ best.size
    → IsFirst b (best ∷ xs)
    → IsFirst b (best ∷ x ∷ xs)
skip_smaller b best x xs h (inl (same, rest)) =
    inl (same, (omega (arith, ap (λ y. y.size) same), rest))
skip_smaller b best x xs h (inr (less, rest)) = inr (less, inr (omega arith, rest))

max_block-larger :
    (best x : Block) (xs : List Block)
    → ltb best.size x.size ≡ true
    → max_block x xs ≡ max_block best (x ∷ xs)
unfolding max_block
max_block-larger best x xs h = rw h refl

max_block-smaller :
    (best x : Block) (xs : List Block)
    → ltb best.size x.size ≡ false
    → max_block best xs ≡ max_block best (x ∷ xs)
unfolding max_block
max_block-smaller best x xs h = rw h refl

max_block-IsFirst : (best : Block) (xs : List Block) → IsFirst (max_block best xs) (best ∷ xs)
max_block-IsFirst best [] = unfold max_block in inl (refl, tt)
max_block-IsFirst best (x ∷ xs) = elim (Bool-cases (ltb best.size x.size)) [
  | inl larger ↦
      subst (λ y. IsFirst y (best ∷ x ∷ xs)) (max_block-larger best x xs larger)
        (inr (omega (tests, larger, max_block-ge x xs), max_block-IsFirst x xs))
  | inr smaller ↦
      subst (λ y. IsFirst y (best ∷ x ∷ xs)) (max_block-smaller best x xs smaller)
        (skip_smaller _ best x xs (omega (tests, smaller)) (max_block-IsFirst best xs))
]

abbrev is_nonempty : Block → Bool
is_nonempty x = ltb 0 x.size

All-le-keep :
    (n : ℕ) (xs : List Block)
    → All (λ y. y.size ≤ n) (keep is_nonempty xs)
    → All (λ y. y.size ≤ n) xs
All-le-keep n [] h = tt
All-le-keep n (x ∷ xs) h = elim (Bool-cases (is_nonempty x)) [
  | inl some_size ↦
      let h' : All (λ y. y.size ≤ n) (x ∷ keep is_nonempty xs) = rw some_size at h in
      (h'.0, All-le-keep n xs h'.1)
  | inr no_size ↦
      let h' : All (λ y. y.size ≤ n) (keep is_nonempty xs) = rw no_size at h in
      (omega (tests, no_size), All-le-keep n xs h')
]

IsFirst-keep :
    (b : Block) (xs : List Block) → 0 < b.size → IsFirst b (keep is_nonempty xs) → IsFirst b xs
IsFirst-keep b [] z h = h
IsFirst-keep b (x ∷ xs) z h = elim (Bool-cases (is_nonempty x)) [
  | inl some_size ↦
      let h' : IsFirst b (x ∷ keep is_nonempty xs) = rw some_size at h in
      elim h' [
        | inl (same, rest) ↦ inl (same, All-le-keep b.size xs rest)
        | inr (less, rest) ↦ inr (less, IsFirst-keep b xs z rest)
      ]
  | inr no_size ↦
      let h' : IsFirst b (keep is_nonempty xs) = rw no_size at h in
      inr (omega (tests, no_size), IsFirst-keep b xs z h')
]

All-IsFirst : (P : Block → Type 0) (b : Block) (xs : List Block) → IsFirst b xs → All P xs → P b
All-IsFirst P b [] h a = absurd h
All-IsFirst P b (x ∷ xs) (inl (same, rest)) a = subst P same a.0
All-IsFirst P b (x ∷ xs) (inr (less, rest)) a = All-IsFirst P b xs rest a.1

keep-nonempty : (xs : List Block) → All (λ y. 0 < y.size) (keep is_nonempty xs)
keep-nonempty [] = tt
keep-nonempty (x ∷ xs) = elim (Bool-cases (is_nonempty x)) [
  | inl some_size ↦ rw some_size (omega (tests, some_size), keep-nonempty xs)
  | inr no_size ↦ rw no_size (keep-nonempty xs)
]

-- What difflib promises of a block: it lies within both sequences, which agree on it.
pub record IsMatch {A : Type 0} (a b : List A) (x : Block) : Type 0 where
  pub within_a : x.a + x.size ≤ length a
  pub within_b : x.b + x.size ≤ length b
  pub agrees : run_of a x.a x.size ≡ run_of b x.b x.size

-- What the report says of the longest run.
pub record IsLongest {A : Type 0} (a b : List A) (xs : List Block) (x : Block) : Type 0 where
  pub first : IsFirst x xs
  pub nonempty : 0 < x.size
  pub matches : IsMatch a b x

chosen : (xs : List Block) (x : Block) → first_longest xs ≡ some x → IsFirst x xs
unfolding first_longest
chosen [] x h = cc h
chosen (y ∷ ys) x h =
    subst (λ z. IsFirst z (y ∷ ys)) (some-injective _ _ h) (max_block-IsFirst y ys)

-- If the blocks are matches, as difflib promises, the block that is reported is one of them, not
-- empty and the first that no other one exceeds; so it lies within both sequences, which agree on
-- it, and the share of the captured events in it is at most one.
pub longest-IsLongest :
    {A : Type 0} (strace_seq vmi_seq : List A) (blocks : List Block) (x : Block)
    → All (IsMatch strace_seq vmi_seq) blocks
    → longest blocks ≡ some x
    → IsLongest strace_seq vmi_seq blocks x × (x.size ≤ length vmi_seq)
unfolding longest
longest-IsLongest s v blocks x m h =
    let picked = chosen (keep is_nonempty blocks) x h in
    let size =
      All-IsFirst (λ y. 0 < y.size) x (keep is_nonempty blocks) picked (keep-nonempty blocks) in
    let first = IsFirst-keep x blocks size picked in
    let matches = All-IsFirst (IsMatch s v) x blocks first m in
    (record { first = first; nonempty = size; matches = matches }, omega (arith, matches.within_b))

-- ===== src/Strace/Main/Matches.antt =====
-- The longest block of difflib, and when it is all of a sequence.
use unikernel_syscall_monito.Base.{
  ℕ, ◌<◌, ◌≤◌, ◌≡◌, ◌≢◌, ◌⊎◌, inl, inr, refl, sym, ap, ◌∙◌, some, List, [], ◌∷◌, ◌++◌, length, take,
  drop, take_all, take-append-drop, All, arith, keep, length-append, Bool-cases, tests, ltb, ap₂,
}
use unikernel_syscall_monito.Base.Text.{Text}
use unikernel_syscall_monito.Strace.Report.{Block, longest, first_longest, max_block}
use unikernel_syscall_monito.Strace.Report.Longest.{IsFirst, IsMatch, longest-IsLongest}

abbrev pub Any : {A : Type 0} → (A → Type 0) → List A → Type 0
Any P [] = ⊥
Any P (x ∷ xs) = P x ⊎ Any P xs

-- What the documentation of difflib promises of the blocks of two sequences: they are matches, and
-- no other match is longer than all of them.
pub record IsSequenceMatcher (a b : List Text) (blocks : List Block) : Type 0 where
  pub matches : All (IsMatch a b) blocks
  pub longest : (y : Block) → IsMatch a b y → Any (λ x. y.size ≤ x.size) blocks

-- The sequence is a contiguous part of another one.
abbrev pub IsPart : List Text → List Text → Type 0
IsPart v s = (before after : List Text) × (s ≡ before ++ (v ++ after))

drop-length : (xs ys : List Text) → drop (length xs) (xs ++ ys) ≡ ys
drop-length [] ys = refl
drop-length (x ∷ xs) ys = drop-length xs ys

take-length : (xs ys : List Text) → take (length xs) (xs ++ ys) ≡ xs
take-length [] ys = refl
take-length (x ∷ xs) ys = ap (λ r. x ∷ r) (take-length xs ys)

-- A part is a match of its own length.
IsPart-IsMatch :
    (s v before after : List Text)
    → s ≡ before ++ (v ++ after)
    → IsMatch s v (record { a = length before; b = 0; size = length v })
IsPart-IsMatch s v before after e = record {
  within_a = omega (arith, ap length e, length-append before (v ++ after), length-append v after);
  within_b = omega arith;
  agrees =
      rw (e, drop-length before (v ++ after), take-length v after)
        (sym (take_all (length v) v (omega arith)));
}

-- A match of the whole sequence is a part.
whole-IsPart : (s v : List Text) (x : Block) → IsMatch s v x → x.size ≡ length v → IsPart v s
whole-IsPart s v x m full =
    let zero_b : x.b ≡ 0 = omega (arith, m.within_b) in
    let agrees : take x.size (drop x.a s) ≡ v =
      m.agrees ∙ ap₂ (λ b n. take n (drop b v)) zero_b full ∙ take_all (length v) v (omega arith) in
    (
      take x.a s,
      drop x.size (drop x.a s),
      sym (take-append-drop x.a s)
          ∙ ap (λ r. take x.a s ++ r)
              (sym (take-append-drop x.size (drop x.a s))
                ∙ ap (λ r. r ++ drop x.size (drop x.a s)) agrees),
    )

All-Any-le :
    (n m : ℕ) (xs : List Block) → All (λ y. y.size ≤ m) xs → Any (λ y. n ≤ y.size) xs → n ≤ m
All-Any-le n m [] a h = absurd h
All-Any-le n m (x ∷ xs) a (inl here) = omega (arith, a.0)
All-Any-le n m (x ∷ xs) a (inr later) = All-Any-le n m xs a.1 later

IsFirst-ge :
    (n : ℕ) (b : Block) (xs : List Block) → IsFirst b xs → Any (λ y. n ≤ y.size) xs → n ≤ b.size
IsFirst-ge n b [] f h = absurd h
IsFirst-ge n b (x ∷ xs) (inl (same, rest)) (inl here) = omega (arith, ap (λ y. y.size) same)
IsFirst-ge n b (x ∷ xs) (inl (same, rest)) (inr later) = All-Any-le n b.size xs rest later
IsFirst-ge n b (x ∷ xs) (inr (less, rest)) (inl here) = omega arith
IsFirst-ge n b (x ∷ xs) (inr (less, rest)) (inr later) = IsFirst-ge n b xs rest later

length_pos : (v : List Text) → v ≢ [] → 0 < length v
length_pos [] ne = absurd (ne refl)
length_pos (n ∷ v) ne = omega arith

kept :
    (n : ℕ) (xs : List Block)
    → 0 < n
    → Any (λ y. n ≤ y.size) xs
    → (y : Block) × (ys : List Block) × (keep (λ x. ltb 0 x.size) xs ≡ y ∷ ys)
kept n [] z h = absurd h
kept n (x ∷ xs) z h = elim (Bool-cases (ltb 0 x.size)) [
  | inl some_size ↦ (x, keep (λ y. ltb 0 y.size) xs, rw some_size refl)
  | inr no_size ↦ elim h [
    | inl here ↦ absurd (omega (tests, no_size))
    | inr later ↦ let (y, ys, e) = kept n xs z later in (y, ys, rw no_size e)
  ]
]

longest_of :
    (n : ℕ) (blocks : List Block)
    → 0 < n
    → Any (λ y. n ≤ y.size) blocks
    → (x : Block) × (longest blocks ≡ some x)
unfolding longest first_longest
longest_of n blocks z h = let (y, ys, e) = kept n blocks z h in (max_block y ys, rw e refl)

-- The longest block is as long as the captured sequence exactly if that is a part of the other.
module _ (s v : List Text) (blocks : List Block) (m : IsSequenceMatcher s v blocks) where
  pub part_found :
      v ≢ [] → IsPart v s → (x : Block) × (longest blocks ≡ some x) × (x.size ≡ length v)
  part_found ne (before, after, e) =
      let found =
        m.longest (record { a = length before; b = 0; size = length v })
          (IsPart-IsMatch s v before after e) in
      let (x, h) = longest_of (length v) blocks (length_pos v ne) found in
      let (is_longest, bound) = longest-IsLongest s v blocks x m.matches h in
      (x, h, omega (arith, bound, IsFirst-ge (length v) x blocks is_longest.first found))

  pub longest-IsPart : (x : Block) → longest blocks ≡ some x → x.size ≡ length v → IsPart v s
  longest-IsPart x h full =
      whole-IsPart s v x (longest-IsLongest s v blocks x m.matches h).0.matches full

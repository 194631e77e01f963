-- ===== src/Strace/Report.antt =====
-- The end of `main` of validate_strace.py: the longest run that both sequences share, and the
-- names that only one of them has.
pub mod Names
pub mod Sets
pub mod NameSets
pub mod Longest
use unikernel_syscall_monito.Base.{
  ℕ, Bool, true, false, ◌&&◌, ◌||◌, not, Option, none, some, List, [], ◌∷◌, ◌++◌, keep, any, take,
  drop, length, ltb, ◌==◌, if◌then◌else◌,
}
use unikernel_syscall_monito.Base.Text.{Text, text_eq}

-- `s < t` of two texts.
unfoldable pub text_lt : Text → Text → Bool
text_lt s [] = false
text_lt [] (d ∷ t) = true
text_lt (c ∷ s) (d ∷ t) = ltb c d || (c == d && text_lt s t)

-- `name in names`
unfoldable pub is_in : Text → List Text → Bool
is_in name names = any (text_eq name) names

unfoldable pub insert_name : Text → List Text → List Text
insert_name name [] = name ∷ []
insert_name name (n ∷ names) =
    let rest = insert_name name names in
    if text_lt name n then name ∷ n ∷ names else if text_eq name n then n ∷ names else n ∷ rest

-- `sorted(set(names))`
unfoldable pub sorted_set : List Text → List Text
unfolding insert_name
sorted_set [] = []
sorted_set (name ∷ names) = insert_name name (sorted_set names)

-- `sorted(set(names) - set(others))`
unfoldable pub only_in : List Text → List Text → List Text
unfolding sorted_set is_in
only_in names others = sorted_set (keep (λ n. not (is_in n others)) names)

pub data Message : Type 0 where
  only_in_strace : List Text → Message
  only_in_vmi : List Text → Message
  full_coverage : Message

unfoldable pub when_any : (List Text → Message) → List Text → List Message
when_any message [] = []
when_any message (n ∷ names) = message (n ∷ names) ∷ []

unfoldable pub when_none : List Text → List Text → List Message
when_none [] [] = full_coverage ∷ []
when_none [] (n ∷ names) = []
when_none (n ∷ names) others = []

-- The messages on the names that one source has and the other has not.
unfoldable pub report_names : List Text → List Text → List Message
unfolding only_in when_any when_none
report_names strace_seq vmi_seq =
    let strace_only = only_in strace_seq vmi_seq in
    let vmi_only = only_in vmi_seq strace_seq in
    when_any only_in_strace strace_only
    ++ when_any only_in_vmi vmi_only
    ++ when_none strace_only vmi_only

-- A block of `SequenceMatcher.get_matching_blocks`.
pub record Block : Type 0 where
  pub a : ℕ
  pub b : ℕ
  pub size : ℕ

-- `max(..., key=lambda b: b.size)`, which keeps the first of the largest.
unfoldable pub max_block : Block → List Block → Block
max_block best [] = best
max_block best (x ∷ xs) =
    let later = max_block x xs in
    let same = max_block best xs in if ltb best.size x.size then later else same

-- `max(matching_blocks, ..., default=None)` of the blocks that are not empty.
unfoldable pub first_longest : List Block → Option Block
unfolding max_block
first_longest [] = none
first_longest (x ∷ xs) = some (max_block x xs)

unfoldable pub longest : List Block → Option Block
unfolding first_longest
longest blocks = first_longest (keep (λ x. ltb 0 x.size) blocks)

-- `seq[start:start + size]`
abbrev pub run_of : {A : Type 0} → List A → ℕ → ℕ → List A
run_of xs start size = take size (drop start xs)

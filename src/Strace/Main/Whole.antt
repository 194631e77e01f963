-- ===== src/Strace/Main/Whole.antt =====
-- When the report says that all captured events are one contiguous part of the guest's own trace.
use unikernel_syscall_monito.Base.{
  ℕ, ◌≡◌, ◌≢◌, ◌↔◌, ◌⊎◌, inl, inr, refl, ap, Option, none, some, List, [], ◌∷◌, ◌++◌, length, map,
}
use unikernel_syscall_monito.Base.Text.{Text}
use unikernel_syscall_monito.Strace.Report.{Block, Message, longest, report_names}
use unikernel_syscall_monito.Strace.Main.{
  Difflib, fraction, Printed, share, coverage, print_longest, print_diff, report, message,
  diff_line,
}
use unikernel_syscall_monito.Strace.Main.Matches.{
  Any, IsSequenceMatcher, IsPart, part_found, longest-IsPart,
}

-- The line of the report that counts the events of the longest run.
abbrev pub Says : ℕ → ℕ → List Printed → Type 0
Says size all_events = Any (λ p. p ≡ share size all_events (fraction size all_events))

Any-append : {A : Type 0} (P : A → Type 0) (xs ys : List A) → Any P (xs ++ ys) → Any P xs ⊎ Any P ys
Any-append P [] ys h = inr h
Any-append P (x ∷ xs) ys (inl here) = inl (inl here)
Any-append P (x ∷ xs) ys (inr later) = elim (Any-append P xs ys later) [
  | inl a ↦ inl (inr a)
  | inr b ↦ inr b
]

Any-front : {A : Type 0} (P : A → Type 0) (xs ys : List A) → Any P xs → Any P (xs ++ ys)
Any-front P [] ys h = absurd h
Any-front P (x ∷ xs) ys (inl here) = inl here
Any-front P (x ∷ xs) ys (inr later) = inr (Any-front P xs ys later)

-- The other parts of the report say nothing of it.
abbrev share_size : Printed → ℕ
share_size (share size n c) = size
share_size p = 0

diff_silent : (size n : ℕ) (lines : List Text) → Says size n (map diff_line lines) → ⊥
diff_silent size n [] h = absurd h
diff_silent size n (line ∷ lines) (inl here) = cc here
diff_silent size n (line ∷ lines) (inr later) = diff_silent size n lines later

print_diff_silent : (size n : ℕ) (lines : List Text) → Says size n (print_diff lines) → ⊥
unfolding print_diff
print_diff_silent size n [] (inl here) = cc here
print_diff_silent size n [] (inr later) = later
print_diff_silent size n (line ∷ lines) (inl here) = cc here
print_diff_silent size n (line ∷ lines) (inr later) = diff_silent size n lines later

messages_silent : (size n : ℕ) (ms : List Message) → Says size n (map message ms) → ⊥
messages_silent size n [] h = absurd h
messages_silent size n (m ∷ ms) (inl here) = cc here
messages_silent size n (m ∷ ms) (inr later) = messages_silent size n ms later

longest_said :
    (s v : List Text) (size n : ℕ) (o : Option Block)
    → Says size n (print_longest s v o)
    → (x : Block) × (o ≡ some x) × (x.size ≡ size)
unfolding print_longest
longest_said s v size n none h = absurd h
longest_said s v size n (some x) (inl here) = cc here
longest_said s v size n (some x) (inr (inl here)) = (x, refl, ap (share_size) here)
longest_said s v size n (some x) (inr (inr h)) = absurd h

print_longest-Says :
    (s v : List Text) (x : Block)
    → v ≢ []
    → x.size ≡ length v
    → Says (length v) (length v) (print_longest s v (some x))
unfolding print_longest coverage
print_longest-Says s [] x ne e = absurd (ne refl)
print_longest-Says s (n ∷ v) x ne e = inr (inl (rw e refl))

rest_silent :
    (size n : ℕ) (lines : List Text) (ms : List Message)
    → Says size n (print_diff lines ++ map message ms)
    → ⊥
rest_silent size n lines ms h = elim (Any-append _ (print_diff lines) (map message ms) h) [
  | inl a ↦ print_diff_silent size n lines a
  | inr b ↦ messages_silent size n ms b
]

report_said :
    (lib : Difflib) (s v : List Text) (size n : ℕ)
    → Says size n (report lib s v)
    → (x : Block) × (longest (lib.get_matching_blocks s v) ≡ some x) × (x.size ≡ size)
unfolding report
report_said lib s v size n (inl here) = cc here
report_said lib s v size n (inr (inl here)) = cc here
report_said lib s v size n (inr (inr (inl here))) = cc here
report_said lib s v size n (inr (inr (inr h))) =
    elim (Any-append _ (print_longest s v (longest (lib.get_matching_blocks s v))) _ h) [
      | inl a ↦ longest_said s v size n (longest (lib.get_matching_blocks s v)) a
      | inr b ↦ absurd (rest_silent size n (lib.unified_diff s v) (report_names s v) b)
    ]

report-Says :
    (lib : Difflib) (s v : List Text) (x : Block)
    → v ≢ []
    → longest (lib.get_matching_blocks s v) ≡ some x
    → x.size ≡ length v
    → Says (length v) (length v) (report lib s v)
unfolding report
report-Says lib s v x ne h full = rw h (
    inr (inr (inr (Any-front _ (print_longest s v (some x)) _ (print_longest-Says s v x ne full)))))

-- If difflib keeps its promises, the report says that all n captured events are in one run of the
-- guest's own trace exactly if the captured names are a contiguous part of the traced ones.
pub report-IsPart :
    (lib : Difflib) (s v : List Text)
    → IsSequenceMatcher s v (lib.get_matching_blocks s v)
    → v ≢ []
    → Says (length v) (length v) (report lib s v) ↔ IsPart v s
report-IsPart lib s v m ne =
    let blocks = lib.get_matching_blocks s v in
    (
      (λ says.
          let (x, h, full) = report_said lib s v (length v) (length v) says in
          longest-IsPart s v blocks m x h full),
      (λ part.
          let (x, h, full) = part_found s v blocks m ne part in report-Says lib s v x ne h full),
    )

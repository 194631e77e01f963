-- ===== src/Bench/Compare/Laws.antt =====
-- Which of the two comparisons can raise.
use unikernel_syscall_monito.Base.{
  ℕ, ◌≡◌, ◌↔◌, refl, sym, ap, ◌∙◌, Bool, true, false, Option, none, some, List, map, any,
  Bool-cases, inl, inr,
}
use unikernel_syscall_monito.Base.Result.{Result, ok, raise, zero_division_error, ok_injective}
use unikernel_syscall_monito.Base.Text.{Text, codes, text_eq}
use unikernel_syscall_monito.Bench.Ab.{ab_patterns, run_ab}
use unikernel_syscall_monito.Bench.Reps.{run_ab_reps}
use unikernel_syscall_monito.Bench.Summary.{keys, Stats, Statistics, summarize}
use unikernel_syscall_monito.Bench.Summary.Laws.{value_of_total, IsTotal, summarize-run_ab_reps}
use unikernel_syscall_monito.Bench.Compare.{
  Arithmetic, divided, requests_per_sec, change, throughput_change, changes, print_changes,
}

abbrev pub is_some : {A : Type 0} → Option A → Bool
is_some none = false
is_some (some a) = true

module _ {Float : Type 0} (floats : Arithmetic Float) where
  abbrev pub Summary : Type 0
  Summary = List (Text × Stats Float)

  -- A summary under the keys of `ab`.
  abbrev pub IsSummary : Summary → Type 0
  IsSummary summary = keys summary ≡ keys ab_patterns

  requests_key : any (text_eq (codes "requests_per_sec")) (keys ab_patterns) ≡ true
  unfolding ab_patterns
  requests_key = refl

  requests_per_sec_total :
      (summary : Summary)
      → IsSummary summary
      → (mean : Float) × (requests_per_sec floats summary ≡ ok mean)
  unfolding requests_per_sec
  requests_per_sec_total summary h =
      let (stats, e) = value_of_total (codes "requests_per_sec") summary (rw h requests_key) in
      (stats.mean, rw e refl)

  change_total :
      (a b : Float)
      → (floats.is_positive a ≡ true → floats.is_zero a ≡ false)
      → (shown : Option Float) × (change floats a b ≡ ok shown)
        × (is_some shown ≡ floats.is_positive a)
  unfolding change divided
  change_total a b law = elim (Bool-cases (floats.is_positive a)) [
    | inl positive ↦ (
      some (floats.neg (floats.div (floats.times_100 (floats.sub a b)) a)),
      rw (positive, law positive) refl,
      sym positive,
    )
    | inr other ↦ (none, rw other refl, sym other)
  ]

  changes_iff :
      (a b c : Float)
      → (changes floats a b c ≡ raise zero_division_error) ↔ (floats.is_zero a ≡ true)
  unfolding changes divided
  changes_iff a b c = elim (Bool-cases (floats.is_zero a)) [
    | inl zero ↦ (λ _. zero, λ _. rw zero refl)
    | inr other ↦ (λ h. absurd (cc (rw other at h)), λ h. absurd (cc (h, other)))
  ]

-- A summary that `summarize` has made of what `run_ab_reps` returned.
pub record Summarized {Float : Type 0} (is_digit : ℕ → Bool) (to_float : Text → Result Float)
    (s : Statistics Float) (summary : List (Text × Stats Float)) : Type 0 where
  pub outs : List (Result Text)
  pub reps : List (List (Text × Float))
  pub ran : run_ab_reps (map (run_ab is_digit to_float) outs) ≡ ok reps
  pub made : summarize s reps ≡ ok summary

module _ {Float : Type 0} (floats : Arithmetic Float) (is_digit : ℕ → Bool)
    (to_float : Text → Result Float) (s : Statistics Float) (total : IsTotal s) where
  Summarized-IsSummary :
      (summary : List (Text × Stats Float))
      → Summarized is_digit to_float s summary
      → IsSummary floats summary
  Summarized-IsSummary summary m =
      let (same, e, h) = summarize-run_ab_reps is_digit to_float s total m.outs m.reps m.ran in
      ap keys (ok_injective (sym m.made ∙ e)) ∙ h

  -- Of summaries that were made of runs of `ab`, bench_overhead_inline.py ends in a ZeroDivisionError
  -- exactly if the mean of the baseline is zero; the comparison of bench_overhead.py returns, and
  -- shows a change exactly if the mean of its baseline is positive. No positive float is zero.
  pub print_changes_iff :
      (a b c : List (Text × Stats Float))
      → Summarized is_digit to_float s a
      → Summarized is_digit to_float s b
      → Summarized is_digit to_float s c
      → ((x : Float) → floats.is_positive x ≡ true → floats.is_zero x ≡ false)
      → (mean : Float) × (requests_per_sec floats a ≡ ok mean)
        × ((print_changes floats a b c ≡ raise zero_division_error) ↔ (floats.is_zero mean ≡ true))
        × (shown : Option Float) × (throughput_change floats a b ≡ ok shown)
        × (is_some shown ≡ floats.is_positive mean)
  unfolding print_changes throughput_change
  print_changes_iff a b c ma mb mc law =
      let (x, ex) = requests_per_sec_total floats a (Summarized-IsSummary a ma) in
      let (y, ey) = requests_per_sec_total floats b (Summarized-IsSummary b mb) in
      let (z, ez) = requests_per_sec_total floats c (Summarized-IsSummary c mc) in
      let (shown, e, h) = change_total floats x y (law x) in
      (x, ex, rw (ex, ey, ez) (changes_iff floats x y z), shown, rw (ex, ey) e, h)

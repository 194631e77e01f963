-- ===== src/Bench/Summary/Laws.antt =====
-- `summarize` of bench_overhead.py over the repetitions of `run_ab`.
use unikernel_syscall_monito.Base.{
  ℕ, ◌≡◌, ◌≢◌, ◌≤◌, refl, ap, ap₂, sym, ◌∙◌, Bool, true, List, [], ◌∷◌, map, Bool-cases, inl, inr,
  All, subst, arith, any, length, ltb, tests,
}
use unikernel_syscall_monito.Base.Result.{Result, ok, raise, Result-cases}
use unikernel_syscall_monito.Base.Text.{Text, text_eq}
use unikernel_syscall_monito.Bench.Reps.{run_ab_reps, run_ab_reps_iff, successes}
use unikernel_syscall_monito.Bench.Pattern.{Pattern}
use unikernel_syscall_monito.Bench.Ab.{ab_patterns, run_ab}
use unikernel_syscall_monito.Bench.Ab.Laws.{AreRead, run_ab-AreRead}
use unikernel_syscall_monito.Bench.Summary.{
  keys, Stats, Statistics, value_of, column, spread, stats_of, summarize_keys, summarize,
}

-- The documented behaviour of `statistics`: a mean needs one value, a deviation two.
pub record IsTotal {Float : Type 0} (s : Statistics Float) : Type 0 where
  pub mean : (xs : List Float) → 1 ≤ length xs → (m : Float) × (s.mean xs ≡ ok m)
  pub stdev : (xs : List Float) → 2 ≤ length xs → (d : Float) × (s.stdev xs ≡ ok d)

module _ {Float : Type 0} where
  pub value_of_total :
      (key : Text) (fs : List (Text × Float))
      → any (text_eq key) (keys fs) ≡ true
      → (v : Float) × (value_of key fs ≡ ok v)
  unfolding value_of
  value_of_total key [] h = cc h
  value_of_total key ((k, v) ∷ fs) h = elim (Bool-cases (text_eq key k)) [
    | inl same ↦ (v, rw same refl)
    | inr other ↦ let (w, e) = value_of_total key fs (rw other at h) in (w, rw other e)
  ]

  -- All repetitions have these keys.
  abbrev Keyed : List Text → List (List (Text × Float)) → Type 0
  Keyed ks = All (λ r. keys r ≡ ks)

  column_total :
      (key : Text) (ks : List Text) (reps : List (List (Text × Float)))
      → any (text_eq key) ks ≡ true
      → Keyed ks reps
      → (vs : List Float) × (column key reps ≡ ok vs) × (length vs ≡ length reps)
  unfolding column
  column_total key ks [] h k = ([], refl, refl)
  column_total key ks (r ∷ reps) h k =
      let (v, e) = value_of_total key r (ap (any (text_eq key)) k.0 ∙ h) in
      let (vs, e', l) = column_total key ks reps h k.1 in
      (v ∷ vs, rw (e, e') refl, omega (arith, l))

  module _ (s : Statistics Float) (total : IsTotal s) where
    spread_total : (n : ℕ) (vs : List Float) → length vs ≡ n → (d : Float) × (spread s n vs ≡ ok d)
    unfolding spread
    spread_total n vs l = elim (Bool-cases (ltb 1 n)) [
      | inl several ↦ let (d, e) = total.stdev vs (omega (tests, several)) in (d, rw several e)
      | inr single ↦ (s.zero, rw single refl)
    ]

    stats_of_total :
        (key : Text) (ks : List Text) (reps : List (List (Text × Float)))
        → any (text_eq key) ks ≡ true
        → Keyed ks reps
        → 1 ≤ length reps
        → (stats : Stats Float) × (stats_of s key reps ≡ ok stats)
    unfolding stats_of
    stats_of_total key ks reps h k n =
        let (vs, e, l) = column_total key ks reps h k in
        let (m, e') = total.mean vs (omega (arith, l)) in
        let (d, e'') = spread_total (length reps) vs l in
        (record { mean = m; stddev = d }, rw (e, e', e'') refl)

    summarize_keys_total :
        (ks todo : List Text) (reps : List (List (Text × Float)))
        → All (λ key. any (text_eq key) ks ≡ true) todo
        → Keyed ks reps
        → 1 ≤ length reps
        → (summary : List (Text × Stats Float)) × (summarize_keys s todo reps ≡ ok summary)
          × (keys summary ≡ todo)
    unfolding summarize_keys
    summarize_keys_total ks [] reps h k n = ([], refl, refl)
    summarize_keys_total ks (key ∷ todo) reps h k n =
        let (stats, e) = stats_of_total key ks reps h.0 k n in
        let (rest, e', same) = summarize_keys_total ks todo reps h.1 k n in
        ((key, stats) ∷ rest, rw (e, e') refl, ap (λ r. key ∷ r) same)

-- `run_ab` gives every repetition the same keys.
module _ {Float : Type 0} (is_digit : ℕ → Bool) (to_float : Text → Result Float) where
  AreRead-keys :
      (text : Text) (ps : List (Text × Pattern)) (fs : List (Text × Float))
      → AreRead is_digit to_float text ps fs
      → keys fs ≡ keys ps
  AreRead-keys text [] [] h = refl
  AreRead-keys text [] (f ∷ fs) h = absurd h
  AreRead-keys text (p ∷ ps) [] h = absurd h
  AreRead-keys text ((key, pattern) ∷ ps) ((key', value) ∷ fs) h =
      ap₂ (λ k ks. k ∷ ks) (sym h.0) (AreRead-keys text ps fs h.2)

  run_ab-keys :
      (out : Result Text) (fs : List (Text × Float))
      → run_ab is_digit to_float out ≡ ok fs
      → keys fs ≡ keys ab_patterns
  run_ab-keys (raise e) fs h = unfold run_ab in cc h
  run_ab-keys (ok text) fs h =
      AreRead-keys text ab_patterns fs (run_ab-AreRead is_digit to_float text fs h)

  successes-keyed :
      (outs : List (Result Text))
      → All (λ r. keys r ≡ keys ab_patterns) (successes (map (run_ab is_digit to_float) outs))
  successes-keyed [] = tt
  successes-keyed (out ∷ outs) = elim (Result-cases (run_ab is_digit to_float out)) [
    | inl (e, h) ↦ rw h (successes-keyed outs)
    | inr (fs, h) ↦ rw h (run_ab-keys out fs h, successes-keyed outs)
  ]

  ab_keys-present : All (λ key. any (text_eq key) (keys ab_patterns) ≡ true) (keys ab_patterns)
  unfolding ab_patterns
  ab_keys-present = (refl, (refl, (refl, (refl, (refl, (refl, tt))))))

  summarize_total :
      (s : Statistics Float)
      → IsTotal s
      → (reps : List (List (Text × Float))) → All (λ r. keys r ≡ keys ab_patterns) reps
      → reps ≢ []
      → (summary : List (Text × Stats Float)) × (summarize s reps ≡ ok summary)
        × (keys summary ≡ keys ab_patterns)
  unfolding summarize
  summarize_total s total [] k ne = absurd (ne refl)
  summarize_total s total (r ∷ reps) k ne =
      let (summary, e, same) =
        summarize_keys_total s total (keys ab_patterns) (keys ab_patterns) (r ∷ reps)
          ab_keys-present k (omega arith) in
      (summary, ap (λ ks. summarize_keys s ks (r ∷ reps)) k.0 ∙ e, same)

  -- If a mean can be computed of one value and a deviation of two, `summarize` returns for whatever
  -- `run_ab_reps` returns, however many of the runs of `ab` failed, with statistics under the keys
  -- of the six patterns, in order.
  pub summarize-run_ab_reps :
      (s : Statistics Float)
      → IsTotal s
      → (outs : List (Result Text)) (reps : List (List (Text × Float)))
      → run_ab_reps (map (run_ab is_digit to_float) outs) ≡ ok reps
      → (summary : List (Text × Stats Float)) × (summarize s reps ≡ ok summary)
        × (keys summary ≡ keys ab_patterns)
  summarize-run_ab_reps s total outs reps h =
      let (_, same, ne) = (run_ab_reps_iff (map (run_ab is_digit to_float) outs) reps).0 h in
      summarize_total s total reps
        (subst (All (λ r. keys r ≡ keys ab_patterns)) (sym same) (successes-keyed outs)) ne

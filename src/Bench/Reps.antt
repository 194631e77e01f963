-- ===== src/Bench/Reps.antt =====
-- `run_ab_reps` of bench_overhead.py: a failed repetition is skipped.
use unikernel_syscall_monito.Base.{
  ◌≡◌, ◌≢◌, ◌↔◌, refl, sym, ap, ◌∙◌, Bool, true, false, List, [], ◌∷◌, ◌++◌, arith, append-nil,
  append_assoc, if◌then◌else◌, All, Bool-cases, inl, inr,
}
use unikernel_syscall_monito.Base.Result.{
  Result, Exception, ok, raise, runtime_error, timeout_expired, value_error, key_error, index_error,
  type_error, os_error, timeout_error, called_process_error, json_decode_error, keyboard_interrupt,
  attribute_error, zero_division_error, ◌>>=◌, bind-eq-ok, ok_injective,
}

-- `except (RuntimeError, subprocess.TimeoutExpired)`
unfoldable pub is_tolerated : Exception → Bool
is_tolerated runtime_error = true
is_tolerated timeout_expired = true
is_tolerated value_error = false
is_tolerated key_error = false
is_tolerated index_error = false
is_tolerated type_error = false
is_tolerated os_error = false
is_tolerated timeout_error = false
is_tolerated called_process_error = false
is_tolerated json_decode_error = false
is_tolerated keyboard_interrupt = false
is_tolerated attribute_error = false
is_tolerated zero_division_error = false

-- What `run_ab` returns or raises at each repetition, for any type of its results.
module _ {A : Type 0} where
  -- The loop, with the results so far.
  unfoldable pub collect : List A → List (Result A) → Result (List A)
  collect results [] = ok results
  collect results (ok r ∷ reps) = collect (results ++ r ∷ []) reps
  collect results (raise e ∷ reps) =
      let next = collect results reps in if is_tolerated e then next else raise e

  unfoldable pub or_raise : List A → Result (List A)
  or_raise [] = raise runtime_error
  or_raise (r ∷ results) = ok (r ∷ results)

  unfoldable pub run_ab_reps : List (Result A) → Result (List A)
  run_ab_reps reps = do results ← collect [] reps; or_raise results

  -- The results of the repetitions that succeeded.
  abbrev pub successes : List (Result A) → List A
  successes [] = []
  successes (ok r ∷ reps) = r ∷ successes reps
  successes (raise e ∷ reps) = successes reps

  abbrev pub IsBearable : Result A → Type 0
  IsBearable (ok r) = Unit
  IsBearable (raise e) = is_tolerated e ≡ true

  collect-IsBearable :
      (results : List A) (reps : List (Result A))
      → All IsBearable reps
      → collect results reps ≡ ok (results ++ successes reps)
  unfolding collect
  collect-IsBearable results [] h = ap (λ rs. ok rs) (sym (append-nil results))
  collect-IsBearable results (ok r ∷ reps) h =
      collect-IsBearable (results ++ r ∷ []) reps h.1
      ∙ ap (λ rs. ok rs) (append_assoc results (r ∷ []) (successes reps))
  collect-IsBearable results (raise e ∷ reps) h = rw h.0 (collect-IsBearable results reps h.1)

  IsBearable-collect :
      (results out : List A) (reps : List (Result A))
      → collect results reps ≡ ok out
      → All IsBearable reps
  unfolding collect
  IsBearable-collect results out [] h = tt
  IsBearable-collect results out (ok r ∷ reps) h =
      (tt, IsBearable-collect (results ++ r ∷ []) out reps h)
  IsBearable-collect results out (raise e ∷ reps) h = elim (Bool-cases (is_tolerated e)) [
    | inl t ↦ (t, IsBearable-collect results out reps (ground arith))
    | inr f ↦ absurd (ground arith)
  ]

  or_raise-ok : (rs out : List A) → or_raise rs ≡ ok out → (out ≡ rs) × (out ≢ [])
  unfolding or_raise
  or_raise-ok [] out h = cc
  or_raise-ok (r ∷ rs) out h = ground arith

  or_raise_of_ne : (rs : List A) → rs ≢ [] → or_raise rs ≡ ok rs
  unfolding or_raise
  or_raise_of_ne [] h = absurd (h refl)
  or_raise_of_ne (r ∷ rs) h = refl

  reps_sound :
      (reps : List (Result A)) (results : List A)
      → run_ab_reps reps ≡ ok results
      → All IsBearable reps × (results ≡ successes reps) × (results ≢ [])
  unfolding run_ab_reps
  reps_sound reps results h =
      let (rs, collected, nonempty) = bind-eq-ok (collect [] reps) or_raise h in
      let bearable = IsBearable-collect [] rs reps collected in
      let (same, ne) = or_raise-ok rs results nonempty in
      let e : rs ≡ successes reps =
        ok_injective (sym collected ∙ collect-IsBearable [] reps bearable) in
      (bearable, same ∙ e, ne)

  reps_complete :
      (reps : List (Result A)) (results : List A)
      → All IsBearable reps × (results ≡ successes reps) × (results ≢ [])
      → run_ab_reps reps ≡ ok results
  unfolding run_ab_reps
  reps_complete reps results (bearable, same, ne) =
      rw (collect-IsBearable [] reps bearable, ← same) (or_raise_of_ne results ne)

  -- The repetitions give these results exactly if each failure was a RuntimeError or an expired
  -- timeout and the results are those of the successful repetitions, all of them, in order, and at
  -- least one.
  pub run_ab_reps_iff :
      (reps : List (Result A)) (results : List A)
      → (run_ab_reps reps ≡ ok results)
        ↔ (All IsBearable reps × (results ≡ successes reps) × (results ≢ []))
  run_ab_reps_iff reps results = (reps_sound reps results, reps_complete reps results)

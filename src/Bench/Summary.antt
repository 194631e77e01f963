-- ===== src/Bench/Summary.antt =====
-- `summarize` of bench_overhead.py, with `statistics.mean` and `statistics.stdev` as parameters.
pub mod Laws
use unikernel_syscall_monito.Base.{
  ℕ, Bool, Option, none, some, List, [], ◌∷◌, length, ltb, if◌then◌else◌,
}
use unikernel_syscall_monito.Base.Result.{Result, ok, raise, key_error, index_error, ◌>>=◌}
use unikernel_syscall_monito.Base.Text.{Text, text_eq}

abbrev pub keys {ℓ} : {A : Type ℓ} → List (Text × A) → List Text
keys [] = []
keys ((key, _) ∷ rest) = key ∷ keys rest

pub record Stats (Float : Type 0) : Type 0 where
  pub mean : Float
  pub stddev : Float

-- What the module `statistics` offers, and the float 0.0.
pub record Statistics (Float : Type 0) : Type 0 where
  pub mean : List Float → Result Float
  pub stdev : List Float → Result Float
  pub zero : Float

module _ {Float : Type 0} where
  -- `r[key]`
  unfoldable pub value_of : Text → List (Text × Float) → Result Float
  value_of key [] = raise key_error
  value_of key ((k, v) ∷ rest) =
      let later = value_of key rest in if text_eq key k then ok v else later

  -- `r[key] for r in reps`
  unfoldable pub column : Text → List (List (Text × Float)) → Result (List Float)
  unfolding value_of
  column key [] = ok []
  column key (r ∷ reps) = do v ← value_of key r; vs ← column key reps; ok (v ∷ vs)

  module _ (statistics : Statistics Float) where
    -- `statistics.stdev(...) if len(reps) > 1 else 0.0`
    unfoldable pub spread : ℕ → List Float → Result Float
    spread n values = if ltb 1 n then statistics.stdev values else ok statistics.zero

    unfoldable pub stats_of : Text → List (List (Text × Float)) → Result (Stats Float)
    unfolding column spread
    stats_of key reps = do
      values ← column key reps
      m ← statistics.mean values
      d ← spread (length reps) values
      ok (record { mean = m; stddev = d })

    -- The comprehension over the keys.
    unfoldable pub summarize_keys :
        List Text → List (List (Text × Float)) → Result (List (Text × Stats Float))
    unfolding stats_of
    summarize_keys [] reps = ok []
    summarize_keys (key ∷ ks) reps = do
      stats ← stats_of key reps
      rest ← summarize_keys ks reps
      ok ((key, stats) ∷ rest)

    unfoldable pub summarize : List (List (Text × Float)) → Result (List (Text × Stats Float))
    unfolding summarize_keys
    summarize [] = raise index_error
    summarize (r ∷ reps) = summarize_keys (keys r) (r ∷ reps)

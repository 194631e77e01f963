-- ===== src/Bench/Ab.antt =====
-- `run_ab` of bench_overhead.py: the figures in the output of `ab`.
pub mod Laws
use unikernel_syscall_monito.Base.{ℕ, Bool, Option, none, some, List, [], ◌∷◌, map}
use unikernel_syscall_monito.Base.Result.{Result, ok, raise, runtime_error, ◌>>=◌}
use unikernel_syscall_monito.Base.Text.{Text, codes}
use unikernel_syscall_monito.Bench.Pattern.{
  Pattern, decimal, whole, at_line_start, anything, of_mean, find_figure,
}

unfoldable pub ab_patterns : List (Text × Pattern)
ab_patterns =
    (codes "requests_per_sec", decimal (codes "Requests per second:") anything)
    ∷ (codes "mean_ms", decimal (codes "Time per request:") of_mean)
    ∷ (codes "p50_ms", at_line_start (codes "50%"))
    ∷ (codes "p90_ms", at_line_start (codes "90%"))
    ∷ (codes "p99_ms", at_line_start (codes "99%"))
    ∷ (codes "failed_requests", whole (codes "Failed requests:"))
    ∷ []

-- The class `\d`, and `float`, which raises on some of the texts that the patterns let through.
module _ {Float : Type 0} (is_digit : ℕ → Bool) (to_float : Text → Result Float) where
  abbrev pub found : Option Text → Result Text
  found none = raise runtime_error
  found (some g) = ok g

  -- The loop over the patterns.
  unfoldable pub read_figures : List (Text × Pattern) → Text → Result (List (Text × Float))
  read_figures [] text = ok []
  read_figures ((key, pattern) ∷ patterns) text = do
    group ← found (find_figure is_digit pattern text)
    value ← to_float group
    rest ← read_figures patterns text
    ok ((key, value) ∷ rest)

  -- From the standard output of `ab`, or the exception of its call.
  unfoldable pub run_ab : Result Text → Result (List (Text × Float))
  unfolding read_figures ab_patterns
  run_ab out = do text ← out; read_figures ab_patterns text

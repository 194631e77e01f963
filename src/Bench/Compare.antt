-- ===== src/Bench/Compare.antt =====
-- The comparison of the means with which both benchmarks end, over a type of floats.
pub mod Laws
use unikernel_syscall_monito.Base.{Bool, Option, none, some, List, if◌then◌else◌}
use unikernel_syscall_monito.Base.Result.{Result, ok, raise, zero_division_error, ◌>>=◌}
use unikernel_syscall_monito.Base.Text.{Text, codes}
use unikernel_syscall_monito.Bench.Summary.{Stats, value_of}

-- Python's floats: `100.0 * x`, `-100 * x`, `-x`, `x - y`, `x / y` where y is not zero, and tests.
pub record Arithmetic (Float : Type 0) : Type 0 where
  pub times_100 : Float → Float
  pub times_minus_100 : Float → Float
  pub neg : Float → Float
  pub sub : Float → Float → Float
  pub div : Float → Float → Float
  pub is_zero : Float → Bool
  pub is_positive : Float → Bool

module _ {Float : Type 0} (floats : Arithmetic Float) where
  -- `x / y`
  unfoldable pub divided : Float → Float → Result Float
  divided x y = if floats.is_zero y then raise zero_division_error else ok (floats.div x y)

  -- `summary["requests_per_sec"]["mean"]`
  unfoldable pub requests_per_sec : List (Text × Stats Float) → Result Float
  requests_per_sec summary = do stats ← value_of (codes "requests_per_sec") summary; ok stats.mean

  unfoldable pub change : Float → Float → Result (Option Float)
  unfolding divided
  change baseline monitored =
      if floats.is_positive baseline
      then (do
        pct ← divided (floats.times_100 (floats.sub baseline monitored)) baseline
        ok (some (floats.neg pct)))
      else ok none

  -- What bench_overhead.py prints of the two summaries, if anything.
  unfoldable pub throughput_change :
      List (Text × Stats Float) → List (Text × Stats Float) → Result (Option Float)
  unfolding change requests_per_sec
  throughput_change baseline_summary monitored_summary = do
    baseline ← requests_per_sec baseline_summary
    monitored ← requests_per_sec monitored_summary
    change baseline monitored

  unfoldable pub changes : Float → Float → Float → Result (Float × Float)
  unfolding divided
  changes a b c = do
    inline ← divided (floats.times_minus_100 (floats.sub a b)) a
    gdb_rsp ← divided (floats.times_minus_100 (floats.sub a c)) a
    ok (inline, gdb_rsp)

  -- What bench_overhead_inline.py prints of the three summaries.
  unfoldable pub print_changes :
      List (Text × Stats Float)
      → List (Text × Stats Float)
      → List (Text × Stats Float)
      → Result (Float × Float)
  unfolding changes requests_per_sec
  print_changes baseline_custom inline gdb_rsp = do
    a ← requests_per_sec baseline_custom
    b ← requests_per_sec inline
    c ← requests_per_sec gdb_rsp
    changes a b c

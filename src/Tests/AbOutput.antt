-- ===== src/Tests/AbOutput.antt =====
-- A concrete output of `ab`, and the figures that `run_ab` finds in it.
use unikernel_syscall_monito.Base.{
  ℕ, ◌≡◌, refl, Bool, true, false, List, [], ◌∷◌, between, inr, arith,
}
use unikernel_syscall_monito.Base.Result.{Result, ok, raise, runtime_error}
use unikernel_syscall_monito.Base.Text.{Text, codes}
use unikernel_syscall_monito.Py.Strip.{is_space, starts_with}
use unikernel_syscall_monito.Bench.Pattern.{
  anything, of_mean, Pattern, decimal, whole, at_line_start, fits, one_or_more, literal,
  find_figure,
}
use unikernel_syscall_monito.Bench.Pattern.Laws.Stands.{Stands}
use unikernel_syscall_monito.Bench.Ab.{run_ab, ab_patterns}
use unikernel_syscall_monito.Bench.Ab.Laws.{AreRead, AreReadable, IsReadable, run_ab_total}

abbrev pub report : Text
report =
    codes
      "Requests per second: 812.5 [#/sec]\nTime per request: 1.2 [ms] (mean)\n 50% 1\n 90% 2\n 99% 3\nFailed requests: 0\n"

abbrev pub is_digit : ℕ → Bool
is_digit = between b'0' b'9'

-- The figures as texts.
abbrev pub to_float : Text → Result Text
to_float g = ok g

disjoint : (c : ℕ) → is_digit c ≡ true → is_space c ≡ false
unfolding is_space
disjoint c h = ground arith

sec-Stands :
    Stands is_digit (decimal (codes "Requests per second:") anything) (codes "812.5") report
unfolding is_space fits one_or_more literal starts_with
sec-Stands = (
  (codes ""),
  (codes
      "Requests per second: 812.5 [#/sec]\nTime per request: 1.2 [ms] (mean)\n 50% 1\n 90% 2\n 99% 3\nFailed requests: 0\n"),
  refl,
  record {
    blank = codes " ";
    rest =
        codes
          " [#/sec]\nTime per request: 1.2 [ms] (mean)\n 50% 1\n 90% 2\n 99% 3\nFailed requests: 0\n";
    text = refl;
    some_blank = λ e. cc e;
    only_blank = (refl, tt);
    some_figure = λ e. cc e;
    only_figure = (refl, (refl, (refl, (refl, (refl, tt)))));
    ends = refl;
    fit = refl;
  },
)

mean-Stands : Stands is_digit (decimal (codes "Time per request:") of_mean) (codes "1.2") report
unfolding is_space fits one_or_more literal starts_with
mean-Stands = (
  (codes "Requests per second: 812.5 [#/sec]\n"),
  (codes "Time per request: 1.2 [ms] (mean)\n 50% 1\n 90% 2\n 99% 3\nFailed requests: 0\n"),
  refl,
  record {
    blank = codes " ";
    rest = codes " [ms] (mean)\n 50% 1\n 90% 2\n 99% 3\nFailed requests: 0\n";
    text = refl;
    some_blank = λ e. cc e;
    only_blank = (refl, tt);
    some_figure = λ e. cc e;
    only_figure = (refl, (refl, (refl, tt)));
    ends = refl;
    fit = refl;
  },
)

p50-Stands : Stands is_digit (at_line_start (codes "50%")) (codes "1") report
unfolding is_space fits one_or_more literal starts_with
p50-Stands = inr (
  (codes "Requests per second: 812.5 [#/sec]\nTime per request: 1.2 [ms] (mean)"),
  (codes " 50% 1\n 90% 2\n 99% 3\nFailed requests: 0\n"),
  refl,
  (
    codes " ",
    (codes "50% 1\n 90% 2\n 99% 3\nFailed requests: 0\n"),
    refl,
    (refl, tt),
    record {
      blank = codes " ";
      rest = codes "\n 90% 2\n 99% 3\nFailed requests: 0\n";
      text = refl;
      some_blank = λ e. cc e;
      only_blank = (refl, tt);
      some_figure = λ e. cc e;
      only_figure = (refl, tt);
      ends = refl;
      fit = refl;
    },
  ),
)

p90-Stands : Stands is_digit (at_line_start (codes "90%")) (codes "2") report
unfolding is_space fits one_or_more literal starts_with
p90-Stands = inr (
  (codes "Requests per second: 812.5 [#/sec]\nTime per request: 1.2 [ms] (mean)\n 50% 1"),
  (codes " 90% 2\n 99% 3\nFailed requests: 0\n"),
  refl,
  (
    codes " ",
    (codes "90% 2\n 99% 3\nFailed requests: 0\n"),
    refl,
    (refl, tt),
    record {
      blank = codes " ";
      rest = codes "\n 99% 3\nFailed requests: 0\n";
      text = refl;
      some_blank = λ e. cc e;
      only_blank = (refl, tt);
      some_figure = λ e. cc e;
      only_figure = (refl, tt);
      ends = refl;
      fit = refl;
    },
  ),
)

p99-Stands : Stands is_digit (at_line_start (codes "99%")) (codes "3") report
unfolding is_space fits one_or_more literal starts_with
p99-Stands = inr (
  (codes "Requests per second: 812.5 [#/sec]\nTime per request: 1.2 [ms] (mean)\n 50% 1\n 90% 2"),
  (codes " 99% 3\nFailed requests: 0\n"),
  refl,
  (
    codes " ",
    (codes "99% 3\nFailed requests: 0\n"),
    refl,
    (refl, tt),
    record {
      blank = codes " ";
      rest = codes "\nFailed requests: 0\n";
      text = refl;
      some_blank = λ e. cc e;
      only_blank = (refl, tt);
      some_figure = λ e. cc e;
      only_figure = (refl, tt);
      ends = refl;
      fit = refl;
    },
  ),
)

failed-Stands : Stands is_digit (whole (codes "Failed requests:")) (codes "0") report
unfolding is_space fits one_or_more literal starts_with
failed-Stands = (
  (codes
      "Requests per second: 812.5 [#/sec]\nTime per request: 1.2 [ms] (mean)\n 50% 1\n 90% 2\n 99% 3\n"),
  (codes "Failed requests: 0\n"),
  refl,
  record {
    blank = codes " ";
    rest = codes "\n";
    text = refl;
    some_blank = λ e. cc e;
    only_blank = (refl, tt);
    some_figure = λ e. cc e;
    only_figure = (refl, tt);
    ends = refl;
    fit = refl;
  },
)

readable :
    (pattern : Pattern) (figure : Text)
    → Stands is_digit pattern figure report
    → IsReadable is_digit to_float report pattern
readable pattern figure stands = record {
  figure = figure;
  stands = stands;
  floats = λ g h. (g, refl);
}

report-AreReadable : AreReadable is_digit to_float report ab_patterns
unfolding ab_patterns
report-AreReadable = (
  readable _ _ sec-Stands,
  (
    readable _ _ mean-Stands,
    (
      readable _ _ p50-Stands,
      (readable _ _ p90-Stands, (readable _ _ p99-Stands, (readable _ _ failed-Stands, tt))),
    ),
  ),
)

run_ab_total_example :
    (figures : List (Text × Text)) × (run_ab is_digit to_float (ok report) ≡ ok figures)
    × AreRead is_digit to_float report ab_patterns figures
run_ab_total_example = run_ab_total is_digit to_float disjoint report report-AreReadable

abbrev pub figures_read : List (Text × Text)
figures_read =
    (codes "requests_per_sec", codes "812.5")
    ∷ (codes "mean_ms", codes "1.2")
    ∷ (codes "p50_ms", codes "1")
    ∷ (codes "p90_ms", codes "2")
    ∷ (codes "p99_ms", codes "3")
    ∷ (codes "failed_requests", codes "0")
    ∷ []

report_read : run_ab is_digit to_float (ok report) ≡ ok figures_read
unfolding run_ab find_figure is_space
report_read = refl

no_figures : run_ab is_digit to_float (ok (codes "Failed requests: 3\n")) ≡ raise runtime_error
unfolding run_ab find_figure
no_figures = refl

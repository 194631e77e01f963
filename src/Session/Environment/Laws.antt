-- ===== src/Session/Environment/Laws.antt =====
-- What monitor.py reads back from the environment that run_capture.py builds.
use unikernel_syscall_monito.Base.{
  ◌≡◌, ◌≢◌, refl, true, false, Option, none, some, List, [], ◌∷◌, map, if◌then◌else◌, inl, inr,
  Bool-cases, ◌∙◌, ap,
}
use unikernel_syscall_monito.Base.Int.{ℤ, pos, int_eq}
use unikernel_syscall_monito.Base.Result.{ok}
use unikernel_syscall_monito.Base.Text.{Text, codes, text_eq}
use unikernel_syscall_monito.Py.Number.{str}
use unikernel_syscall_monito.Py.Split.{join}
use unikernel_syscall_monito.Monitor.NrSet.{
  read_config, or_no_numbers, parse_nr_set, parse_max_events, to_int,
}
use unikernel_syscall_monito.Monitor.NrSet.Laws.{parse_nr_set-join, to_int-str, str-ne-nil}
use unikernel_syscall_monito.Session.Environment.{
  Environ, get, Args, set_text, set_count, environment, config_from,
}

-- Numbers as the command line gives them: nothing, or joined by commas.
abbrev pub listed : List ℤ → Text
listed [] = []
listed (n ∷ ns) = join b',' (map str (n ∷ ns))

-- What a variable gets that the script sets to a text, or leaves unset.
abbrev or_unset : Text → Option Text
or_unset [] = none
or_unset (c ∷ s) = some (c ∷ s)

abbrev count_text : Option ℤ → Option Text
count_text none = none
count_text (some n) = if int_eq n (pos 0) then none else some (str n)

abbrev pub IsUnset : Environ → Type 0
IsUnset env =
    (get (codes "VMI_INCLUDE_NRS") env ≡ none)
    × (get (codes "VMI_EXCLUDE_NRS") env ≡ none)
    × (get (codes "VMI_MAX_EVENTS") env ≡ none)

get-set_text_same :
    (key s : Text) (env : Environ)
    → text_eq key key ≡ true
    → get key env ≡ none
    → get key (set_text key s env) ≡ or_unset s
unfolding set_text
get-set_text_same key [] env e h = h
get-set_text_same key (c ∷ s) env e h = rw e refl

get-set_text_other :
    (name key s : Text) (env : Environ)
    → text_eq name key ≡ false
    → get name (set_text key s env) ≡ get name env
unfolding set_text
get-set_text_other name key [] env e = refl
get-set_text_other name key (c ∷ s) env e = rw e refl

get-set_count_same :
    (key : Text) (n : Option ℤ) (env : Environ)
    → text_eq key key ≡ true
    → get key env ≡ none
    → get key (set_count key n env) ≡ count_text n
unfolding set_count
get-set_count_same key none env e h = h
get-set_count_same key (some n) env e h = elim (Bool-cases (int_eq n (pos 0))) [
  | inl z ↦ rw z h
  | inr z ↦ rw (z, e) refl
]

get-set_count_other :
    (name key : Text) (n : Option ℤ) (env : Environ)
    → text_eq name key ≡ false
    → get name (set_count key n env) ≡ get name env
unfolding set_count
get-set_count_other name key none env e = refl
get-set_count_other name key (some n) env e = elim (Bool-cases (int_eq n (pos 0))) [
  | inl z ↦ rw z refl
  | inr z ↦ rw (z, e) refl
]

environment-get :
    (args : Args) (env : Environ)
    → IsUnset env
    → (get (codes "VMI_INCLUDE_NRS") (environment args env) ≡ or_unset args.include)
      × (get (codes "VMI_EXCLUDE_NRS") (environment args env) ≡ or_unset args.exclude)
      × (get (codes "VMI_MAX_EVENTS") (environment args env) ≡ count_text args.max_events)
unfolding environment
environment-get args env (i, x, m) = (
  get-set_count_other (codes "VMI_INCLUDE_NRS") _ args.max_events _ refl
      ∙ get-set_text_other (codes "VMI_INCLUDE_NRS") _ args.exclude _ refl
      ∙ get-set_text_same (codes "VMI_INCLUDE_NRS") args.include _ refl i,
  get-set_count_other (codes "VMI_EXCLUDE_NRS") _ args.max_events _ refl
      ∙ get-set_text_same (codes "VMI_EXCLUDE_NRS") args.exclude _ refl (
          get-set_text_other (codes "VMI_EXCLUDE_NRS") (codes "VMI_INCLUDE_NRS") args.include _ refl
          ∙ x),
  get-set_count_same _ args.max_events _ refl (
      get-set_text_other (codes "VMI_MAX_EVENTS") _ args.exclude _ refl
      ∙ get-set_text_other (codes "VMI_MAX_EVENTS") (codes "VMI_INCLUDE_NRS") args.include _ refl
      ∙ m),
)

-- The log file is the one of the command line, whatever was inherited.
pub environment-log :
    (args : Args) (env : Environ)
    → get (codes "VMI_LOG_PATH") (environment args env) ≡ some args.log
unfolding environment
environment-log args env =
    get-set_count_other (codes "VMI_LOG_PATH") _ args.max_events _ refl
    ∙ get-set_text_other (codes "VMI_LOG_PATH") _ args.exclude _ refl
    ∙ get-set_text_other (codes "VMI_LOG_PATH") (codes "VMI_INCLUDE_NRS") args.include _ refl

-- The settings that a listing asks for.
abbrev pub requested : List ℤ → Option (List ℤ)
requested [] = none
requested (n ∷ ns) = some (n ∷ ns)

-- Zero events count as no limit.
abbrev pub limit : Option ℤ → Option ℤ
limit none = none
limit (some n) = if int_eq n (pos 0) then none else some n

or_unset_of_ne : (s : Text) → s ≢ [] → or_unset s ≡ some s
or_unset_of_ne [] h = absurd (h refl)
or_unset_of_ne (c ∷ s) h = refl

join-ne-nil : (p : Text) (ps : List Text) → p ≢ [] → join b',' (p ∷ ps) ≢ []
unfolding join
join-ne-nil [] ps h = absurd (h refl)
join-ne-nil (c ∷ p) [] h = λ e. cc
join-ne-nil (c ∷ p) (q ∷ ps) h = λ e. cc

parse_listed : (ns : List ℤ) → parse_nr_set (or_unset (listed ns)) ≡ ok (requested ns)
unfolding parse_nr_set
parse_listed [] = refl
parse_listed (n ∷ ns) =
    ap parse_nr_set
      (or_unset_of_ne (listed (n ∷ ns)) (join-ne-nil (str n) (map str ns) (str-ne-nil n)))
    ∙ parse_nr_set-join n ns

parse_given :
    (s : Text) (n : ℤ) → s ≢ [] → to_int s ≡ ok n → parse_max_events (some s) ≡ ok (some n)
unfolding parse_max_events
parse_given [] n h e = absurd (h refl)
parse_given (c ∷ s) n h e = rw e refl

parse_count : (n : Option ℤ) → parse_max_events (count_text n) ≡ ok (limit n)
unfolding parse_max_events
parse_count none = refl
parse_count (some n) = elim (Bool-cases (int_eq n (pos 0))) [
  | inl z ↦ rw z refl
  | inr z ↦ rw z (parse_given (str n) n (str-ne-nil n) (to_int-str n))
]

or_no_numbers-requested : (ns : List ℤ) → or_no_numbers (requested ns) ≡ ns
or_no_numbers-requested [] = refl
or_no_numbers-requested (n ∷ ns) = refl

read_config-ok :
    (a x m : Option Text) (i e : Option (List ℤ)) (l : Option ℤ)
    → parse_nr_set a ≡ ok i
    → parse_nr_set x ≡ ok e
    → parse_max_events m ≡ ok l
    → read_config a x m ≡ ok (record { include = i; exclude = or_no_numbers e; max_events = l })
unfolding read_config
read_config-ok a x m i e l h h' h'' = rw (h, h', h'') refl

-- The arguments of a command line that lists these numbers.
abbrev pub arguments : Text → Text → List ℤ → List ℤ → Option ℤ → Args
arguments name log include exclude max_events = record {
  name = name;
  log = log;
  include = listed include;
  exclude = listed exclude;
  max_events = max_events;
}

-- monitor.py reads from the environment what the command line asked for: the numbers of
-- `--include` and `--exclude`, and the limit, unless the limit is zero, which counts as none. The
-- three variables were not set before.
pub config_from-environment :
    (name log : Text) (include exclude : List ℤ) (max_events : Option ℤ) (env : Environ)
    → IsUnset env
    → config_from (environment (arguments name log include exclude max_events) env)
      ≡ ok
          (record { include = requested include; exclude = exclude; max_events = limit max_events })
unfolding config_from
config_from-environment name log include exclude max_events env unset =
    let (i, x, m) = environment-get (arguments name log include exclude max_events) env unset in
    read_config-ok _ _ _ (requested include) (requested exclude) (limit max_events)
      (ap parse_nr_set i ∙ parse_listed include) (ap parse_nr_set x ∙ parse_listed exclude)
      (ap parse_max_events m ∙ parse_count max_events)
    ∙ ap
        (λ e.
          ok (record { include = requested include; exclude = e; max_events = limit max_events }))
        (or_no_numbers-requested exclude)

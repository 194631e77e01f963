-- ===== src/Bench/Ab/Laws.antt =====
-- What `run_ab` reads, and when it fails.
use unikernel_syscall_monito.Base.{
  ℕ, ◌≡◌, refl, Bool, true, false, Option, none, some, List, [], ◌∷◌, Option-cases, inl, inr, subst,
}
use unikernel_syscall_monito.Base.Result.{Result, ok, ◌>>=◌, ok_injective, Result-cases}
use unikernel_syscall_monito.Base.Text.{Text}
use unikernel_syscall_monito.Py.Strip.{is_space}
use unikernel_syscall_monito.Bench.Pattern.{Pattern, find_figure}
use unikernel_syscall_monito.Bench.Pattern.Laws.Stands.{
  Stands, IsPlain, find_figure-Stands, Stands-find_figure,
}
use unikernel_syscall_monito.Bench.Ab.{ab_patterns, read_figures, run_ab, found}

module _ {Float : Type 0} (is_digit : ℕ → Bool) (to_float : Text → Result Float) where
  -- The value is that of a figure which stands in the text where the pattern says.
  pub record IsRead (text : Text) (pattern : Pattern) (value : Float) : Type 0 where
    pub figure : Text
    pub stands : Stands is_digit pattern figure text
    pub read : to_float figure ≡ ok value

  -- One value for each pattern, in order, under its key.
  abbrev pub AreRead : Text → List (Text × Pattern) → List (Text × Float) → Type 0
  AreRead text [] [] = Unit
  AreRead text [] (f ∷ fs) = ⊥
  AreRead text (p ∷ ps) [] = ⊥
  AreRead text ((key, pattern) ∷ ps) ((key', value) ∷ fs) =
      (key ≡ key') × IsRead text pattern value × AreRead text ps fs

  -- A figure stands where the pattern says.
  abbrev pub Shows : Text → Text × Pattern → Type 0
  Shows text (key, pattern) = (figure : Text) × Stands is_digit pattern figure text

  -- The parts of a round that returns.
  record Round (key : Text) (o : Option Text) (later : Result (List (Text × Float)))
      (figures : List (Text × Float)) : Type 0 where
    group : Text
    value : Float
    rest : List (Text × Float)
    matched : o ≡ some group
    read : to_float group ≡ ok value
    others : later ≡ ok rest
    same : (key, value) ∷ rest ≡ figures

  round :
      (key : Text) (o : Option Text) (later : Result (List (Text × Float)))
      (figures : List (Text × Float))
      → (found is_digit to_float o >>= λ g.
          to_float g >>= λ v. later >>= λ rest. ok ((key, v) ∷ rest))
        ≡ ok figures
      → Round key o later figures
  round key none later figures h = cc h
  round key (some g) later figures h = elim (Result-cases (to_float g)) [
    | inl (exc, e) ↦ cc (rw e at h)
    | inr (v, e) ↦ elim (Result-cases later) [
      | inl (exc, e') ↦ cc (rw (e, e') at h)
      | inr (rest, e') ↦ record {
        group = g;
        value = v;
        rest = rest;
        matched = refl;
        read = e;
        others = e';
        same = ok_injective (rw (e, e') at h);
      }
    ]
  ]

  read_figures-AreRead :
      (ps : List (Text × Pattern)) (text : Text) (figures : List (Text × Float))
      → read_figures is_digit to_float ps text ≡ ok figures
      → AreRead text ps figures
  unfolding read_figures
  read_figures-AreRead [] text [] h = tt
  read_figures-AreRead [] text (f ∷ fs) h = cc h
  read_figures-AreRead ((key, pattern) ∷ ps) text figures h =
      let r = round key (find_figure is_digit pattern text) _ figures h in
      let here : IsRead text pattern r.value = record {
        figure = r.group;
        stands = find_figure-Stands is_digit pattern text r.group r.matched;
        read = r.read;
      } in
      let all : AreRead text ((key, pattern) ∷ ps) ((key, r.value) ∷ r.rest) =
        (refl, here, read_figures-AreRead ps text r.rest r.others) in
      subst (λ fs. AreRead text ((key, pattern) ∷ ps) fs) r.same all

  -- What `run_ab` returns has exactly the keys of the six patterns, and each value is that of a
  -- figure which stands behind its label.
  pub run_ab-AreRead :
      (text : Text) (figures : List (Text × Float))
      → run_ab is_digit to_float (ok text) ≡ ok figures
      → AreRead text ab_patterns figures
  unfolding run_ab
  run_ab-AreRead text figures h = read_figures-AreRead ab_patterns text figures h

  -- A figure stands where the pattern says, and `float` takes every one that does.
  pub record IsReadable (text : Text) (pattern : Pattern) : Type 0 where
    pub figure : Text
    pub stands : Stands is_digit pattern figure text
    pub floats : (g : Text) → Stands is_digit pattern g text → (v : Float) × (to_float g ≡ ok v)

  abbrev pub AreReadable : Text → List (Text × Pattern) → Type 0
  AreReadable text [] = Unit
  AreReadable text ((key, pattern) ∷ ps) = IsReadable text pattern × AreReadable text ps

  abbrev ArePlain : List (Text × Pattern) → Type 0
  ArePlain [] = Unit
  ArePlain ((key, pattern) ∷ ps) = IsPlain is_digit pattern × ArePlain ps

  module _ (disjoint : (c : ℕ) → is_digit c ≡ true → is_space c ≡ false) where
    read_figures_total :
        (ps : List (Text × Pattern)) (text : Text)
        → ArePlain ps
        → AreReadable text ps
        → (figures : List (Text × Float)) × (read_figures is_digit to_float ps text ≡ ok figures)
    unfolding read_figures
    read_figures_total [] text plain h = ([], refl)
    read_figures_total ((key, pattern) ∷ ps) text plain h =
        let here = h.0 in
        let shown =
          Stands-find_figure is_digit disjoint pattern text here.figure plain.0 here.stands in
        elim (Option-cases (find_figure is_digit pattern text)) [
          | inl missing ↦ absurd (shown missing)
          | inr (g, e) ↦
              let (v, read) = here.floats g (find_figure-Stands is_digit pattern text g e) in
              let (rest, later) = read_figures_total ps text plain.1 h.1 in
              ((key, v) ∷ rest, rw (e, read, later) refl)
        ]

    -- If no digit is white space, every pattern has a figure in the text, and `float` takes every
    -- figure that stands where a pattern says, `run_ab` returns, with one value for each pattern,
    -- each that of a figure behind its label.
    pub run_ab_total :
        (text : Text)
        → AreReadable text ab_patterns
        → (figures : List (Text × Float)) × (run_ab is_digit to_float (ok text) ≡ ok figures)
          × AreRead text ab_patterns figures
    unfolding run_ab is_space
    run_ab_total text h =
        let (figures, e) =
          read_figures_total ab_patterns text (tt, (tt, (refl, (refl, (refl, (tt, tt)))))) h in
        (figures, e, run_ab-AreRead text figures e)

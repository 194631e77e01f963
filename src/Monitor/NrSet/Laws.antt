-- ===== src/Monitor/NrSet/Laws.antt =====
-- What `_parse_nr_set` accepts.
use unikernel_syscall_monito.Base.{
  ℕ, suc, ◌≡◌, ◌≢◌, refl, false, some, List, [], ◌∷◌, map, arith, All,
}
use unikernel_syscall_monito.Base.Int.{ℤ, pos, negsuc}
use unikernel_syscall_monito.Base.Result.{ok}
use unikernel_syscall_monito.Base.Text.{Text}
use unikernel_syscall_monito.Py.Number.{
  str, int-str, str-NoSpace, digits-IsDigit, digits-ne-nil, IsDigit,
}
use unikernel_syscall_monito.Py.Split.{join, Lacks, split-join}
use unikernel_syscall_monito.Py.Strip.{strip, is_space, NoSpace, strip-NoSpace}
use unikernel_syscall_monito.Monitor.NrSet.{is_empty, to_int, to_ints, parse_nr_set}

IsDigit-Lacks : (s : Text) → All IsDigit s → Lacks b',' s
IsDigit-Lacks [] h = tt
IsDigit-Lacks (c ∷ s) h = (ground arith, IsDigit-Lacks s h.1)

str-Lacks : (n : ℤ) → Lacks b',' (str n)
unfolding str
str-Lacks (pos n) = IsDigit-Lacks _ (digits-IsDigit n)
str-Lacks (negsuc n) = (ground arith, IsDigit-Lacks _ (digits-IsDigit (suc n)))

pub str-ne-nil : (n : ℤ) → str n ≢ []
unfolding str
str-ne-nil (pos n) = digits-ne-nil 10 n
str-ne-nil (negsuc n) = λ h. cc

is_empty_of_ne : (s : Text) → s ≢ [] → is_empty s ≡ false
is_empty_of_ne [] h = absurd (h refl)
is_empty_of_ne (c ∷ s) h = refl

is_empty-str : (n : ℤ) → is_empty (str n) ≡ false
is_empty-str n = is_empty_of_ne (str n) (str-ne-nil n)

pub to_int-str : (n : ℤ) → to_int (str n) ≡ ok n
unfolding to_int
to_int-str n = rw (int-str n, to_int)

to_ints-str : (ns : List ℤ) → to_ints (map str ns) ≡ ok ns
unfolding to_ints
to_ints-str [] = refl
to_ints-str (n ∷ ns) =
    rw (strip-NoSpace (str n) (str-NoSpace n), is_empty-str n, to_int-str n, to_ints-str ns)

map-str-Lacks : (ns : List ℤ) → All (Lacks b',') (map str ns)
map-str-Lacks [] = tt
map-str-Lacks (n ∷ ns) = (str-Lacks n, map-str-Lacks ns)

is_empty-strip : (c : ℕ) (s : Text) → is_space c ≡ false → is_empty (strip (c ∷ s)) ≡ false
unfolding strip
is_empty-strip c s h = rw h (ground arith)

is_empty-strip-join :
    (p : Text) (ps : List Text) → p ≢ [] → NoSpace p → is_empty (strip (join b',' (p ∷ ps))) ≡ false
unfolding join
is_empty-strip-join [] ps ne h = absurd (ne refl)
is_empty-strip-join (c ∷ p) [] ne h = is_empty-strip c p h.0
is_empty-strip-join (c ∷ p) (q ∷ ps) ne h = is_empty-strip c _ h.0

-- The numbers joined by commas, as `--include 0,1,232` passes them, are read back as they were.
pub parse_nr_set-join :
    (n : ℤ) (ns : List ℤ) → parse_nr_set (some (join b',' (map str (n ∷ ns)))) ≡ ok (some (n ∷ ns))
unfolding parse_nr_set
parse_nr_set-join n ns = rw (
  split-join b',' (str n) (map str ns) (map-str-Lacks (n ∷ ns)),
  is_empty-strip-join (str n) (map str ns) (str-ne-nil n) (str-NoSpace n),
  to_ints-str (n ∷ ns),
)

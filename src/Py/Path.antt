-- ===== src/Py/Path.antt =====
-- `os.path.dirname`.
use unikernel_syscall_monito.Base.{
  ℕ, ◌≡◌, ◌≢◌, refl, Bool, true, false, not, [], ◌∷◌, ◌++◌, ◌==◌, any, arith, if◌then◌else◌,
}
use unikernel_syscall_monito.Base.Text.{Text}
use unikernel_syscall_monito.Py.Split.{Lacks}

abbrev pub is_slash : ℕ → Bool
is_slash c = c == b'/'

-- The text up to its last slash, with that slash.
unfoldable pub head_of : Text → Text
head_of [] = []
head_of (c ∷ s) = let rest = head_of s in if any is_slash (c ∷ s) then c ∷ rest else []

-- Without the slashes at its end.
unfoldable pub without_slashes : Text → Text
without_slashes [] = []
without_slashes (c ∷ s) =
    let rest = without_slashes s in if any (λ d. not (is_slash d)) (c ∷ s) then c ∷ rest else []

-- `os.path.dirname`; a head of slashes alone is kept.
unfoldable pub dirname : Text → Text
unfolding head_of without_slashes
dirname path =
    let head = head_of path in
    if any (λ d. not (is_slash d)) head then without_slashes head else head

no_slash : (s : Text) → Lacks b'/' s → any is_slash s ≡ false
no_slash [] h = refl
no_slash (c ∷ s) h = ground (arith, no_slash s h.1)

head_of-Lacks : (s : Text) → Lacks b'/' s → head_of s ≡ []
unfolding head_of
head_of-Lacks [] h = refl
head_of-Lacks (c ∷ s) h = rw (no_slash (c ∷ s) h) refl

-- A path without a slash has no directory.
pub dirname-Lacks : (path : Text) → Lacks b'/' path → dirname path ≡ []
unfolding dirname without_slashes
dirname-Lacks path h = rw (head_of-Lacks path h) refl

module _ (c : ℕ) (h : c ≢ b'/') where
  any_slash : (s t : Text) → any is_slash (s ++ c ∷ b'/' ∷ t) ≡ true
  any_slash [] t = ground arith
  any_slash (d ∷ s) t = ground (arith, any_slash s t)

  any_other : (s t : Text) → any (λ d. not (is_slash d)) (s ++ c ∷ t) ≡ true
  any_other [] t = ground arith
  any_other (d ∷ s) t = ground (arith, any_other s t)

  head_of-append :
      (s file : Text) → Lacks b'/' file → head_of (s ++ c ∷ b'/' ∷ file) ≡ s ++ c ∷ b'/' ∷ []
  unfolding head_of
  head_of-append [] file lacks = ground (arith, head_of-Lacks file lacks)
  head_of-append (d ∷ s) file lacks = ground (arith, any_slash s file, head_of-append s file lacks)

  without_slashes-append : (s : Text) → without_slashes (s ++ c ∷ b'/' ∷ []) ≡ s ++ c ∷ []
  unfolding without_slashes
  without_slashes-append [] = ground arith
  without_slashes-append (d ∷ s) = ground (arith, any_other s (b'/' ∷ []), without_slashes-append s)

  -- The directory of a file is what stands before its last slash, if that ends in no slash.
  pub dirname-append :
      (s file : Text) → Lacks b'/' file → dirname (s ++ c ∷ b'/' ∷ file) ≡ s ++ c ∷ []
  unfolding dirname
  dirname-append s file lacks =
      rw (head_of-append s file lacks, any_other s (b'/' ∷ [])) (without_slashes-append s)

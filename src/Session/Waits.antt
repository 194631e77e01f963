-- ===== src/Session/Waits.antt =====
-- The loops that wait with a deadline: `wait_for_new_runtime_dir` and `wait_for_path` of
-- run_capture_from_boot.py.
pub mod Outcomes
use unikernel_syscall_monito.Base.{
  ℕ, ◌<◌, ◌≡◌, ◌↔◌, refl, Bool, true, false, Option, none, some, List, [], ◌∷◌, ◌++◌, arith, ltb,
  if◌then◌else◌, All, Bool-cases, inl, inr, any, ap, ◌∙◌, ◌≢◌, not, Option-cases, map, keep, ◌&&◌,
}
use unikernel_syscall_monito.Base.Text.{Text, text_eq, text_eq_iff}
use unikernel_syscall_monito.Base.Result.{Result, ok, raise, timeout_error}

-- One round of a loop: the time that the condition reads, and what the body then finds.
pub record Round (A : Type 0) : Type 0 where
  pub now : ℕ
  pub found : Option A

-- How far a loop is after some rounds: still waiting, or ended with a result.
pub data Waiting (A : Type 0) : Type 0 where
  running : Waiting A
  ended : Result A → Waiting A

module _ {A : Type 0} where
  abbrev pub settle : Option A → Waiting A → Waiting A
  settle none later = later
  settle (some a) later = ended (ok a)

  -- `while time.monotonic() < deadline` with a return in its body, and a TimeoutError behind it.
  unfoldable pub wait_until : ℕ → List (Round A) → Waiting A
  wait_until deadline [] = running
  wait_until deadline (round ∷ rounds) =
      let later = wait_until deadline rounds in
      if ltb round.now deadline then settle round.found later else ended (raise timeout_error)

-- Whether the path exists, round by round.
unfoldable pub wait_for_path : ℕ → List (ℕ × Bool) → Waiting Unit
wait_for_path deadline readings =
    wait_until deadline
      (map (λ r. record { now = r.0; found = if r.1 then some tt else none }) readings)

abbrev pub is_listed : Text → List Text → Bool
is_listed name = any (text_eq name)

abbrev first : List Text → Option Text
first [] = none
first (d ∷ ds) = some d

-- `set(os.listdir(...)) - before`, where the order of a set is that of the listing.
unfoldable pub new_dir : List Text → List Text → Option Text
new_dir before listing = first (keep (λ d. not (is_listed d before)) listing)

-- The listing of the runtime directory, round by round; the result is a name in that directory.
unfoldable pub wait_for_new_runtime_dir : List Text → ℕ → List (ℕ × List Text) → Waiting Text
wait_for_new_runtime_dir before deadline readings =
    wait_until deadline (map (λ r. record { now = r.0; found = new_dir before r.1 }) readings)

refl_text : (s : Text) → text_eq s s ≡ true
refl_text s = (text_eq_iff s s).1 refl

new_dir-is_listed :
    (before listing : List Text) (d : Text)
    → new_dir before listing ≡ some d
    → (is_listed d before ≡ false) × (is_listed d listing ≡ true)
unfolding new_dir
new_dir-is_listed before [] d h = absurd (ground arith)
new_dir-is_listed before (e ∷ listing) d h = elim (Bool-cases (is_listed e before)) [
  | inl old ↦ ground (arith, new_dir-is_listed before listing d)
  | inr new ↦ let same : e ≡ d = ground arith in rw (← same) (new, rw (refl_text e) refl)
]

-- The directory returned was listed in some round before the deadline, and was not there before.
pub wait_for_new_runtime_dir-is_listed :
    (before : List Text) (deadline : ℕ) (readings : List (ℕ × List Text)) (d : Text)
    → wait_for_new_runtime_dir before deadline readings ≡ ended (ok d)
    → (is_listed d before ≡ false) × any (λ r. ltb r.0 deadline && is_listed d r.1) readings ≡ true
unfolding wait_for_new_runtime_dir wait_until
wait_for_new_runtime_dir-is_listed before deadline [] d h = absurd (ground arith)
wait_for_new_runtime_dir-is_listed before deadline ((t, listing) ∷ readings) d h =
    elim (Bool-cases (ltb t deadline)) [
      | inl early ↦ elim (Option-cases (new_dir before listing)) [
        | inl e ↦ ground (arith, wait_for_new_runtime_dir-is_listed before deadline readings d)
        | inr (b, e) ↦
            let same : b ≡ d = ground arith in ground (arith, new_dir-is_listed before listing d)
      ]
      | inr late ↦ absurd (ground arith)
    ]

-- ===== src/Session/Waits/Outcomes.antt =====
-- How a waiting loop can end.
use unikernel_syscall_monito.Base.{
  ℕ, ◌<◌, ◌≤◌, ◌≡◌, ◌↔◌, refl, sym, none, some, List, [], ◌∷◌, ◌++◌, arith, ltb, All, Bool-cases,
  Option-cases, inl, inr, ap, ◌∙◌, subst, append-nil,
}
use unikernel_syscall_monito.Base.Result.{ok, raise, timeout_error}
use unikernel_syscall_monito.Session.Waits.{Round, Waiting, running, ended, wait_until}

module _ {A : Type 0} where
  -- A round before the deadline that finds nothing.
  abbrev pub IsIdle : ℕ → Round A → Type 0
  IsIdle deadline round = (round.now < deadline) × (round.found ≡ none)

  -- A round of some kind after rounds before the deadline that found nothing.
  pub record EndsIn (Last : Round A → Type 0) (deadline : ℕ) (rounds : List (Round A))
      : Type 0 where
    pub before : List (Round A)
    pub round : Round A
    pub after : List (Round A)
    pub split : rounds ≡ before ++ round ∷ after
    pub idle : All (IsIdle deadline) before
    pub last : Last round

  -- What the loop waits for is found before the deadline.
  abbrev pub FoundBy : ℕ → List (Round A) → A → Type 0
  FoundBy deadline rounds a =
      EndsIn (λ round. (round.now < deadline) × (round.found ≡ some a)) deadline rounds

  -- The clock has reached the deadline.
  abbrev pub PassedBy : ℕ → List (Round A) → Type 0
  PassedBy deadline rounds = EndsIn (λ round. deadline ≤ round.now) deadline rounds

  EndsIn-cons :
      (Last : Round A → Type 0) (deadline : ℕ) (round : Round A) (rounds : List (Round A))
      → IsIdle deadline round
      → EndsIn Last deadline rounds
      → EndsIn Last deadline (round ∷ rounds)
  EndsIn-cons Last deadline round rounds idle e = record {
    before = round ∷ e.before;
    round = e.round;
    after = e.after;
    split = ap (λ rs. round ∷ rs) e.split;
    idle = (idle, e.idle);
    last = e.last;
  }

  EndsIn-first :
      (Last : Round A → Type 0) (deadline : ℕ) (round : Round A) (rounds : List (Round A))
      → Last round
      → EndsIn Last deadline (round ∷ rounds)
  EndsIn-first Last deadline round rounds l = record {
    before = [];
    round = round;
    after = rounds;
    split = refl;
    idle = tt;
    last = l;
  }

  data Outcome (deadline : ℕ) (rounds : List (Round A)) : Waiting A → Type 0 where
    waits : All (IsIdle deadline) rounds → Outcome deadline rounds running
    finds : (a : A) → FoundBy deadline rounds a → Outcome deadline rounds (ended (ok a))
    passes : PassedBy deadline rounds → Outcome deadline rounds (ended (raise timeout_error))

  Outcome-cons :
      (deadline : ℕ) (round : Round A) (rounds : List (Round A)) (w : Waiting A)
      → IsIdle deadline round
      → Outcome deadline rounds w
      → Outcome deadline (round ∷ rounds) w
  Outcome-cons deadline round rounds w idle (waits h) = waits (idle, h)
  Outcome-cons deadline round rounds w idle (finds a f) =
      finds a (EndsIn-cons _ deadline round rounds idle f)
  Outcome-cons deadline round rounds w idle (passes p) =
      passes (EndsIn-cons _ deadline round rounds idle p)

  outcome :
      (deadline : ℕ) (rounds : List (Round A))
      → Outcome deadline rounds (wait_until deadline rounds)
  unfolding wait_until
  outcome deadline [] = waits tt
  outcome deadline (round ∷ rounds) = elim (Bool-cases (ltb round.now deadline)) [
    | inl early ↦ elim (Option-cases round.found) [
      | inl e ↦
          simp (early, e)
            (Outcome-cons deadline round rounds _ (ground arith, e) (outcome deadline rounds))
      | inr (a, e) ↦
          simp (early, e) (finds a (EndsIn-first _ deadline round rounds (ground arith, e)))
    ]
    | inr late ↦ simp late (passes (EndsIn-first _ deadline round rounds (ground arith)))
  ]

  found_of :
      (deadline : ℕ) (rounds : List (Round A)) (a : A)
      → Outcome deadline rounds (ended (ok a))
      → FoundBy deadline rounds a
  found_of deadline rounds a (finds _ f) = f

  passed_of :
      (deadline : ℕ) (rounds : List (Round A))
      → Outcome deadline rounds (ended (raise timeout_error))
      → PassedBy deadline rounds
  passed_of deadline rounds (passes p) = p

  still_waits :
      (deadline : ℕ) (rounds : List (Round A))
      → Outcome deadline rounds running
      → All (IsIdle deadline) rounds
  still_waits deadline rounds (waits h) = h

  wait_until-idle :
      (deadline : ℕ) (before : List (Round A)) (rest : List (Round A))
      → All (IsIdle deadline) before
      → wait_until deadline (before ++ rest) ≡ wait_until deadline rest
  unfolding wait_until
  wait_until-idle deadline [] rest h = refl
  wait_until-idle deadline (round ∷ before) rest h =
      ground (arith, wait_until-idle deadline before rest h.1)

  found_complete :
      (deadline : ℕ) (rounds : List (Round A)) (a : A)
      → FoundBy deadline rounds a
      → wait_until deadline rounds ≡ ended (ok a)
  unfolding wait_until
  found_complete deadline rounds a f =
      rw f.split
        (wait_until-idle deadline f.before (f.round ∷ f.after) f.idle ∙ ground (arith, f.last))

  passed_complete :
      (deadline : ℕ) (rounds : List (Round A))
      → PassedBy deadline rounds
      → wait_until deadline rounds ≡ ended (raise timeout_error)
  unfolding wait_until
  passed_complete deadline rounds p =
      rw p.split
        (wait_until-idle deadline p.before (p.round ∷ p.after) p.idle ∙ ground (arith, p.last))

  waits_complete :
      (deadline : ℕ) (rounds : List (Round A))
      → All (IsIdle deadline) rounds
      → wait_until deadline rounds ≡ running
  unfolding wait_until
  waits_complete deadline rounds h =
      ap (wait_until deadline) (sym (append-nil rounds)) ∙ wait_until-idle deadline rounds [] h

  pub wait_until_iff :
      (deadline : ℕ) (rounds : List (Round A)) (a : A)
      → (wait_until deadline rounds ≡ ended (ok a)) ↔ FoundBy deadline rounds a
  wait_until_iff deadline rounds a = (
    (λ h. found_of deadline rounds a (subst (Outcome deadline rounds) h (outcome deadline rounds))),
    found_complete deadline rounds a,
  )

  -- The loop returns something exactly if a round before the deadline found it, and raises a
  -- TimeoutError exactly if the clock has reached the deadline in a round, in both cases after
  -- rounds before the deadline that found nothing; and it still waits exactly if all rounds so
  -- far are such, so it has ended once the clock has reached the deadline.
  pub wait_until_cases :
      (deadline : ℕ) (rounds : List (Round A)) (a : A)
      → ((wait_until deadline rounds ≡ ended (ok a)) ↔ FoundBy deadline rounds a)
        × ((wait_until deadline rounds ≡ ended (raise timeout_error)) ↔ PassedBy deadline rounds)
        × ((wait_until deadline rounds ≡ running) ↔ All (IsIdle deadline) rounds)
  wait_until_cases deadline rounds a =
      let by : (w : Waiting A) → wait_until deadline rounds ≡ w → Outcome deadline rounds w =
        λ w h. subst (Outcome deadline rounds) h (outcome deadline rounds) in
      (
        wait_until_iff deadline rounds a,
        ((λ h. passed_of deadline rounds (by _ h)), passed_complete deadline rounds),
        ((λ h. still_waits deadline rounds (by _ h)), waits_complete deadline rounds),
      )

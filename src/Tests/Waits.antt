-- ===== src/Tests/Waits.antt =====
-- The waiting loops at concrete clock readings.
use unikernel_syscall_monito.Base.{
  ℕ, ◌≡◌, ◌↔◌, refl, true, false, none, some, List, [], ◌∷◌, any, ltb, ◌&&◌, All,
}
use unikernel_syscall_monito.Base.Result.{ok, raise, timeout_error}
use unikernel_syscall_monito.Base.Text.{Text, codes}
use unikernel_syscall_monito.Session.Waits.{
  Round, running, ended, wait_until, is_listed, wait_for_new_runtime_dir,
  wait_for_new_runtime_dir-is_listed, new_dir,
}
use unikernel_syscall_monito.Session.Waits.Outcomes.{IsIdle, FoundBy, PassedBy, wait_until_cases}

-- Found in the second round; the third one is past the deadline.
abbrev rounds : List (Round ℕ)
rounds =
    record { now = 1; found = none }
    ∷ record { now = 2; found = some 5 }
    ∷ record { now = 60; found = none }
    ∷ []

wait_until_cases_example :
    ((wait_until 60 rounds ≡ ended (ok 5)) ↔ FoundBy 60 rounds 5)
    × ((wait_until 60 rounds ≡ ended (raise timeout_error)) ↔ PassedBy 60 rounds)
    × ((wait_until 60 rounds ≡ running) ↔ All (IsIdle 60) rounds)
wait_until_cases_example = wait_until_cases 60 rounds 5

abbrev readings : List (ℕ × List Text)
readings = (1, codes "a" ∷ []) ∷ (2, codes "b" ∷ codes "a" ∷ []) ∷ []

appeared : wait_for_new_runtime_dir (codes "a" ∷ []) 60 readings ≡ ended (ok (codes "b"))
unfolding wait_for_new_runtime_dir wait_until new_dir
appeared = refl

wait_for_new_runtime_dir-is_listed_example :
    (is_listed (codes "b") (codes "a" ∷ []) ≡ false)
    × (any (λ r. ltb r.0 60 && is_listed (codes "b") r.1) readings ≡ true)
wait_for_new_runtime_dir-is_listed_example =
    wait_for_new_runtime_dir-is_listed (codes "a" ∷ []) 60 readings (codes "b") appeared

-- ===== src/Inline/Armed.antt =====
-- `wait_for_armed_message`: the wait for the patched QEMU's word that the breakpoint is armed.
use unikernel_syscall_monito.Base.{
  ℕ, ◌≡◌, ◌↔◌, refl, ap, Bool, true, false, ◌||◌, Option, none, some, List, map, if◌then◌else◌,
}
use unikernel_syscall_monito.Base.Result.{ok, raise}
use unikernel_syscall_monito.Base.Text.{Text, codes}
use unikernel_syscall_monito.Py.Strip.{contains}
use unikernel_syscall_monito.Session.Waits.{Round, Waiting, running, ended, wait_until}
use unikernel_syscall_monito.Session.Waits.Outcomes.{wait_until_iff, FoundBy}

unfoldable pub is_armed : Text → Bool
is_armed text =
    contains text (codes "readback=0xcc confirmed")
    || contains text (codes "first real hit observed")

-- The text of the debug log, if it exists.
abbrev pub look : Option Text → Option {0} Unit
look none = none
look (some text) = if is_armed text then some tt else none

-- The deadline makes the function return, not raise.
abbrev pub as_flag : Waiting Unit → Waiting Bool
as_flag running = running
as_flag (ended (ok _)) = ended (ok true)
as_flag (ended (raise e)) = ended (ok false)

-- The readings of the clock and of the file, round by round.
unfoldable pub wait_for_armed_message : ℕ → List (ℕ × Option Text) → Waiting Bool
unfolding is_armed
wait_for_armed_message deadline readings =
    as_flag (wait_until deadline (map (λ r. record { now = r.0; found = look r.1 }) readings))

as_flag-true : (w : Waiting Unit) → as_flag w ≡ ended (ok true) → w ≡ ended (ok tt)
as_flag-true running h = cc h
as_flag-true (ended (ok _)) h = refl
as_flag-true (ended (raise e)) h = cc h

-- It is true exactly if a round before the deadline found one of the two messages, after rounds
-- before the deadline that found none.
pub wait_for_armed_message_iff :
    (deadline : ℕ) (readings : List (ℕ × Option Text))
    → (wait_for_armed_message deadline readings ≡ ended (ok true))
      ↔ FoundBy deadline (map (λ r. record { now = r.0; found = look r.1 }) readings) tt
unfolding wait_for_armed_message
wait_for_armed_message_iff deadline readings =
    let rounds : List (Round Unit) = map (λ r. record { now = r.0; found = look r.1 }) readings in
    let (sound, complete) = wait_until_iff deadline rounds tt in
    ((λ h. sound (as_flag-true _ h)), (λ h. ap as_flag (complete h)))

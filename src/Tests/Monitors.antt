-- ===== src/Tests/Monitors.antt =====
-- attach_gdbstub.py at concrete replies and answers of `kraft ps`.
use unikernel_syscall_monito.Base.{
  ℕ, ◌≡◌, ◌↔◌, refl, Bool, true, false, List, [], ◌∷◌, ◌++◌, arith, flatten, leb, some,
}
use unikernel_syscall_monito.Base.Result.{ok, raise, runtime_error}
use unikernel_syscall_monito.Base.Text.{Text, codes}
use unikernel_syscall_monito.Py.Strip.{strip, contains, ends_with, starts_with, is_space}
use unikernel_syscall_monito.Json.Value.{get, Items, arr, item, obj, field, str, end, nil}
use unikernel_syscall_monito.Gdbstub.Hmp.{
  prompt, clean_reply, recv_until_prompt, without_prompt, after_line,
}
use unikernel_syscall_monito.Gdbstub.Hmp.Ansi.{Piece, render, strip_ansi, char, sequence}
use unikernel_syscall_monito.Gdbstub.Hmp.Receive.{
  Received, recv_until_prompt_iff, recv_until_prompt-flatten,
}
use unikernel_syscall_monito.Gdbstub.Hmp.Reply.{clean_reply-render}
use unikernel_syscall_monito.Gdbstub.Attach.{Socket, attach_gdbserver, check_reply}
use unikernel_syscall_monito.Gdbstub.Port.{find_free_port, find_free_port_iff, IsFirstFree}
use unikernel_syscall_monito.Gdbstub.Instance.Found.{FirstNamed, HasDir, instances_iff}
use unikernel_syscall_monito.Gdbstub.Instance.{
  find_instance_runtime_dir, instance_is_running, found-is_running, not_running-raise,
  loads_or_raise, instances, any_named, find_in, is_named, is_falsy, joined, machine_dir,
}
use unikernel_syscall_monito.Json.Loads.{
  loads, at_end, read_value, skip, read_scalar, first_item, first_field, read_key, read_string,
  read_colon, after_field, after_item,
}

-- The prompt comes in two pieces, and a third piece is left for the next call.
abbrev pieces : List Text
pieces = codes "QEMU 8.2\r\n(qe" ∷ codes "mu) " ∷ codes "later" ∷ []

received : recv_until_prompt [] pieces ≡ (ok (codes "QEMU 8.2\r\n(qemu) "), codes "later" ∷ [])
unfolding recv_until_prompt ends_with
received = refl

recv_until_prompt_iff_example :
    (recv_until_prompt [] pieces ≡ (ok (codes "QEMU 8.2\r\n(qemu) "), codes "later" ∷ []))
    ↔ Received [] pieces (codes "QEMU 8.2\r\n(qemu) ") (codes "later" ∷ [])
recv_until_prompt_iff_example =
    recv_until_prompt_iff [] pieces (codes "QEMU 8.2\r\n(qemu) ") (codes "later" ∷ [])

recv_until_prompt-flatten_example :
    ((front : Text) × (codes "QEMU 8.2\r\n(qemu) " ≡ front ++ prompt))
    × (codes "QEMU 8.2\r\n(qemu) " ++ flatten (codes "later" ∷ []) ≡ flatten pieces)
recv_until_prompt-flatten_example =
    recv_until_prompt-flatten [] pieces (codes "QEMU 8.2\r\n(qemu) ") (codes "later" ∷ []) received

-- A line editor moves the cursor back before the second letter.
abbrev echo : List Piece
echo = char b'h' ∷ sequence [] b'D' ∷ char b'i' ∷ []

clean_reply-render_example :
    clean_reply (λ s. s) (render echo ++ 13 ∷ 10 ∷ (codes " ok" ++ prompt)) ≡ strip (codes " ok")
clean_reply-render_example =
    clean_reply-render (λ s. s) echo (codes " ok") (λ _ _. refl)
      (omega arith, ((tt, refl), (omega arith, tt))) (omega arith) (omega arith) (omega arith)

-- A socket on which QEMU greets and then answers.
abbrev socket : Socket
socket = record {
  there = true;
  accepts = true;
  is_open = false;
  incoming =
      codes "QEMU 8.2\r\n(qemu) "
      ∷ codes "gdbserver\r\nWaiting for gdb connection on device\r\n(qemu) "
      ∷ [];
  sent = [];
}

answered :
    (attach_gdbserver (λ s. s) 1234 socket).0 ≡ ok (codes "Waiting for gdb connection on device")
unfolding attach_gdbserver recv_until_prompt ends_with check_reply contains clean_reply strip
    without_prompt after_line strip_ansi is_space
answered = refl

-- Ports from 1236 on can be bound.
abbrev can_bind : ℕ → Bool
can_bind = leb 1236

find_free_port_iff_example :
    (find_free_port can_bind 1234 ≡ ok 1236) ↔ IsFirstFree can_bind 1234 100 1236
find_free_port_iff_example = find_free_port_iff can_bind 1234 1236

abbrev listing : Text
listing = codes "[{\"name\": \"vm\", \"machine_id\": \"ab\"}]"

found : find_instance_runtime_dir (codes "/run") (codes "vm") listing ≡ ok (codes "/run/ab")
unfolding find_instance_runtime_dir loads_or_raise loads at_end read_value skip first_item
    first_field read_key read_string read_colon after_field after_item instances find_in is_named
    get is_falsy joined machine_dir starts_with
found = refl

found-is_running_example : instance_is_running (codes "vm") listing ≡ ok true
found-is_running_example =
    found-is_running (codes "/run") (codes "vm") listing (codes "/run/ab") found

abbrev listed : Items
listed =
    item
      (obj (
        field (codes "name") (str (codes "vm"))
          (field (codes "machine_id") (str (codes "ab")) end)))
      nil

listing-loads : loads listing ≡ some (arr listed)
unfolding loads at_end read_value skip first_item first_field read_key read_string read_colon
    after_field after_item
listing-loads = refl

instances_iff_example :
    ((find_instance_runtime_dir (codes "/run") (codes "vm") listing ≡ ok (codes "/run/ab"))
      ↔ FirstNamed (codes "vm") listed (λ inst. HasDir (codes "/run") inst (codes "/run/ab")))
    × ((instance_is_running (codes "vm") listing ≡ ok true)
        ↔ FirstNamed (codes "vm") listed (λ inst. Unit {0}))
instances_iff_example =
    instances_iff (codes "/run") (codes "vm") listing (codes "/run/ab") (arr listed) listed
      listing-loads (unfold instances in refl) tt

nothing_runs : instance_is_running (codes "vm") (codes "null") ≡ ok false
unfolding instance_is_running loads_or_raise loads at_end read_value skip read_scalar starts_with
    instances any_named
nothing_runs = refl

not_running-raise_example :
    find_instance_runtime_dir (codes "/run") (codes "vm") (codes "null") ≡ raise runtime_error
not_running-raise_example =
    not_running-raise (codes "/run") (codes "vm") (codes "null") nothing_runs

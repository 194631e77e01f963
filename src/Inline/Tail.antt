-- ===== src/Inline/Tail.antt =====
-- `tail_lines`, which follows the log that QEMU appends to. The writer and the reader are
-- interleaved by a list of ticks; the reader's file position and the lines it yielded are state.
pub mod Lines
pub mod Laws
pub mod Progress
use unikernel_syscall_monito.Base.{
  ℕ, ◌+◌, Bool, true, false, ◌||◌, not, Option, none, some, List, [], ◌∷◌, ◌++◌, ◌==◌,
  if◌then◌else◌, length, drop,
}
use unikernel_syscall_monito.Base.Text.{Text}
use unikernel_syscall_monito.Inline.Tail.Lines.{read_line}
use unikernel_syscall_monito.Py.Strip.{ends_with}

pub record Tail : Type 0 where
  -- the file, once it is there
  pub file : Option Text
  pub opened : Bool
  pub position : ℕ
  pub yielded : List Text
  pub returned : Bool

-- QEMU appends a piece of text, of any length; or the generator makes one round of its loop, at
-- a moment when the deadline has passed or not.
pub data Tick : Type 0 where
  write : Text → Tick
  poll : Bool → Tick

abbrev pub content : Option Text → Text
content none = []
content (some s) = s

unfoldable pub start : Option Text → Tail
start file = record { file = file; opened = false; position = 0; yielded = []; returned = false }

abbrev pub is_some : Option Text → Bool
is_some none = false
is_some (some s) = true

-- A line is yielded if it is complete; otherwise the position goes back to where it was.
unfoldable pub accept_line : Text → Tail → Tail
accept_line [] t = t
accept_line (c ∷ line) t =
    if ends_with (c ∷ line) (10 ∷ [])
    then record t {
      position = t.position + length (c ∷ line);
      yielded = t.yielded ++ (c ∷ line) ∷ [];
    }
    else t

unfoldable pub read_round : Tail → Tail
unfolding accept_line
read_round t = accept_line (read_line (drop t.position (content t.file))) t

-- A round waits for the file before it is opened, and reads after that.
unfoldable pub poll_round : Bool → Tail → Tail
poll_round expired t =
    if t.returned
    then t
    else if t.opened
    then (if expired then record t { returned = true } else read_round t)
    else if is_some t.file
    then record t { opened = true }
    else if expired
    then record t { returned = true }
    else t

unfoldable pub tick : Tick → Tail → Tail
unfolding poll_round
tick (write s) t = record t { file = some (content t.file ++ s) }
tick (poll expired) t = poll_round expired t

unfoldable pub run : List Tick → Tail → Tail
run [] t = t
run (k ∷ ks) t = run ks (tick k t)

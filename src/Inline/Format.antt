-- ===== src/Inline/Format.antt =====
-- `format_ret` and `format_event`: the lines of the live view.
pub mod Records
use unikernel_syscall_monito.Base.{
  ℕ, Bool, true, false, Option, none, some, [], ◌∷◌, ◌++◌, leb, ltb, if◌then◌else◌, suc,
}
use unikernel_syscall_monito.Base.Int.{ℤ, pos, negsuc, negate}
use unikernel_syscall_monito.Base.Result.{Result, ok, raise, type_error, key_error, ◌>>=◌}
use unikernel_syscall_monito.Base.Text.{Text, codes}
use unikernel_syscall_monito.Json.Value.{
  Json, null, bool, int, real, str, arr, obj, Items, nil, item, Fields, get,
}
use unikernel_syscall_monito.Py.Number

-- What Python takes from the operating system and from its floats: the time of day of a number as
-- `datetime.fromtimestamp(ts).strftime("%H:%M:%S")` gives it, or the exception of a number out of
-- its range; `int((ts % 1) * 1000)` of a number in it; `os.strerror`, whether a number is a key of
-- `errno.errorcode`, and the text of a value that is no text or integer.
pub record Os : Type 0 where
  pub time_of_day : Json → Result Text
  pub milliseconds : Json → ℕ
  pub strerror : ℤ → Text
  pub has_errno : ℤ → Bool
  pub show : Json → Text

-- `f"{value}"`
unfoldable pub display : Os → Json → Text
display os (str s) = s
display os (int n) = Number.str n
display os v = os.show v

-- `f"{n:03d}"`
unfoldable pub three_digits : ℕ → Text
three_digits n =
    if ltb n 10
    then b'0' ∷ b'0' ∷ Number.str (pos n)
    else if ltb n 100
    then b'0' ∷ Number.str (pos n)
    else Number.str (pos n)

-- `-ret`
abbrev pub opposite : ℤ → ℤ
opposite (pos n) = negate n
opposite (negsuc n) = pos (suc n)

-- `ret >= 0x10000`
abbrev pub is_pointer_like : ℤ → Bool
is_pointer_like (pos n) = leb 0x10000 n
is_pointer_like (negsuc n) = false

module _ (os : Os) where
  -- `os.strerror(-ret) if -ret in errno.errorcode else "unknown error"`
  unfoldable pub error_message : ℤ → Text
  error_message ret =
      if os.has_errno (opposite ret) then os.strerror (opposite ret) else codes "unknown error"

  -- The result of a system call that has returned, with or without an error name.
  unfoldable pub result_text : ℤ → Option Json → Text
  unfolding display error_message
  result_text ret none = if is_pointer_like ret then Number.hex ret else Number.str ret
  result_text ret (some err) =
      Number.str ret ++ b' ' ∷ (display os err ++ codes " (" ++ error_message ret ++ codes ")")

  abbrev duration_text : Option Json → Text → Result Text
  duration_text none res = raise key_error
  duration_text (some dur) res =
      ok (codes " = " ++ (res ++ codes "  <" ++ display os dur ++ codes "us>"))

  -- A result that is no integer, which QEMU does not write, counts as a TypeError.
  abbrev returned_text : Option Json → Fields → Result Text
  returned_text none evt = ok []
  returned_text (some (int ret)) evt =
      duration_text (get (codes "dur_us") evt) (result_text ret (get (codes "err") evt))
  returned_text (some v) evt = raise type_error

  unfoldable pub format_ret : Fields → Result Text
  format_ret evt = elim (get (codes "unfinished") evt) [
    | some v ↦ ok (codes " = ? <unfinished: " ++ (display os v ++ codes ">"))
    | none ↦ returned_text (get (codes "ret") evt) evt
  ]

  -- `", ".join(args)`: every element must be a text.
  unfoldable pub join_args : Items → Result Text
  join_args nil = ok []
  join_args (item (str s) nil) = ok s
  join_args (item (str s) rest) = do t ← join_args rest; ok (s ++ b',' ∷ b' ' ∷ t)
  join_args (item v rest) = raise type_error

  -- `evt.get("args", [])`; a text would be joined character by character, and an empty object too.
  abbrev pub args_text : Option Json → Result Text
  args_text none = ok []
  args_text (some (arr vs)) = join_args vs
  args_text (some v) = raise type_error

  abbrev or_none_word : Option Json → Text
  or_none_word none = codes "None"
  or_none_word (some v) = display os v

  -- `evt.get("syscall", f"syscall_{evt.get('num')}")`
  abbrev pub name_text : Fields → Text
  name_text evt = elim (get (codes "syscall") evt) [
    | some v ↦ display os v
    | none ↦ codes "syscall_" ++ or_none_word (get (codes "num") evt)
  ]

  abbrev time_stamp : Option Json → Json
  time_stamp none =
      real (record { negative = false; whole = codes "0"; fraction = codes "0"; exponent = [] })
  time_stamp (some v) = v

  -- What `datetime.fromtimestamp` takes at all.
  abbrev pub is_number : Json → Bool
  is_number (int n) = true
  is_number (real r) = true
  is_number (bool b) = true
  is_number null = false
  is_number (str s) = false
  is_number (arr vs) = false
  is_number (obj fs) = false

  unfoldable pub time_text : Json → Result Text
  time_text ts =
      if is_number ts
      then (do t ← os.time_of_day ts; ok (t ++ b'.' ∷ three_digits (os.milliseconds ts)))
      else raise type_error

  -- The time is formatted first, then the arguments, then the return.
  unfoldable pub format_event : Fields → Result Text
  unfolding time_text
  format_event evt = do
    t ← time_text (time_stamp (get (codes "ts") evt))
    args ← args_text (get (codes "args") evt)
    ret ← format_ret evt
    ok (b'[' ∷ (t ++ codes "] " ++ name_text evt ++ b'(' ∷ (args ++ b')' ∷ ret)))

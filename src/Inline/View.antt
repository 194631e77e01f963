-- ===== src/Inline/View.antt =====
-- `run_interactive`: which events are shown, and how many are counted.
pub mod Events
pub mod Laws
use unikernel_syscall_monito.Base.{
  ℕ, ◌+◌, Bool, true, false, Option, none, some, List, [], ◌∷◌, ◌++◌, not, if◌then◌else◌,
}
use unikernel_syscall_monito.Base.Result.{Result, ok, raise, attribute_error, ◌>>=◌}
use unikernel_syscall_monito.Base.Text.{Text, codes, text_eq}
use unikernel_syscall_monito.Json.Value.{Json, obj, str, Fields, get}
use unikernel_syscall_monito.Json.Loads.{loads}
use unikernel_syscall_monito.Inline.Format.{Os, format_event}

pub record View : Type 0 where
  pub n_events : ℕ
  pub ready_seen : Bool
  pub printed : List Text

abbrev pub banner : Text
banner = codes "[VMI] first connection accepted -- nginx is ready, showing syscalls from here on\n"

abbrev is_word : Text → Option Json → Bool
is_word w (some (str s)) = text_eq s w
is_word w _ = false

-- `evt.get("syscall") == "accept4"`
unfoldable pub is_accept4 : Fields → Bool
is_accept4 evt = is_word (codes "accept4") (get (codes "syscall") evt)

module _ (os : Os) where
  unfoldable pub print_event : Fields → View → Result View
  print_event evt v = do
    text ← format_event os evt
    ok (record v { printed = v.printed ++ text ∷ [] })

  -- An event that is counted is shown if nginx is known to be ready, or makes it known.
  unfoldable pub show_event : Json → View → Result View
  show_event (obj evt) v =
      if v.ready_seen
      then print_event evt v
      else if is_accept4 evt
      then print_event evt (record v { ready_seen = true; printed = v.printed ++ banner ∷ [] })
      else ok v
  show_event _ v = raise attribute_error

  -- A line that does not decode is skipped.
  unfoldable pub show_decoded : Option Json → View → Result View
  unfolding show_event
  show_decoded none v = ok v
  show_decoded (some evt) v = show_event evt (record v { n_events = v.n_events + 1 })

  unfoldable pub show_line : Text → View → Result View
  show_line line v = show_decoded (loads line) v

  unfoldable pub show_lines : List Text → View → Result View
  show_lines [] v = ok v
  show_lines (line ∷ lines) v = do w ← show_line line v; show_lines lines w

  -- The lines that come before the deadline or Ctrl-C.
  unfoldable pub run_interactive : Bool → List Text → Result View
  run_interactive show_after_ready lines =
      show_lines lines (record { n_events = 0; ready_seen = not show_after_ready; printed = [] })

-- ===== src/Inline/View/Events.antt =====
-- The events of a list of lines, for the statements about the live view.
use unikernel_syscall_monito.Base.{Option, none, some, List, [], ◌∷◌, ◌++◌, if◌then◌else◌, any}
use unikernel_syscall_monito.Base.Text.{Text}
use unikernel_syscall_monito.Json.Value.{Json, obj, Fields}
use unikernel_syscall_monito.Json.Loads.{loads}
use unikernel_syscall_monito.Inline.View.{banner, is_accept4}

-- A line that decodes to an object, or does not decode.
abbrev pub IsEvent : Option Json → Type 0
IsEvent none = Unit
IsEvent (some (obj evt)) = Unit
IsEvent (some v) = ⊥

abbrev pub AreEvents : List Text → Type 0
AreEvents [] = Unit
AreEvents (line ∷ lines) = IsEvent (loads line) × AreEvents lines

abbrev pub event_of : Option Json → List Fields
event_of (some (obj evt)) = evt ∷ []
event_of _ = []

-- The events in the file.
abbrev pub events : List Text → List Fields
events [] = []
events (line ∷ lines) = event_of (loads line) ++ events lines

-- From the first connection on.
abbrev pub from_accept : List Fields → List Fields
from_accept [] = []
from_accept (evt ∷ evts) = if is_accept4 evt then evt ∷ evts else from_accept evts

abbrev pub opening : List Fields → List Text
opening evts = if any is_accept4 evts then banner ∷ [] else []

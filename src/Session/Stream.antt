-- ===== src/Session/Stream.antt =====
-- The thread of gdb_session.py that relays what gdb prints, interleaved with gdb.
pub mod Ending
pub mod Invariant
use unikernel_syscall_monito.Base.{
  ℕ, ◌≡◌, Bool, true, false, List, [], ◌∷◌, ◌++◌, flatten, if◌then◌else◌,
}
use unikernel_syscall_monito.Base.Text.{Text}

-- Where the thread is in its loop: about to read, or about to append or to write a line.
pub data Pc : Type 0 where
  reading : Pc
  appending : Text → Pc
  writing : Text → Pc
  finished : Pc

-- The lines that gdb has printed so far, whether its standard output is closed, the lines still in
-- the pipe, `proc._captured_lines`, and the lines on the script's own standard output.
pub record Stream : Type 0 where
  pub printed : List Text
  pub is_closed : Bool
  pub unread : List Text
  pub captured : List Text
  pub shown : List Text
  pub pc : Pc

-- `_popen_gdb`: the process and its thread have just been started.
unfoldable pub popen_gdb : Stream
popen_gdb = record {
  printed = [];
  is_closed = false;
  unread = [];
  captured = [];
  shown = [];
  pc = reading;
}

-- `readline`, which waits while the pipe is empty and returns the empty text at its end.
abbrev pub read_line : List Text → Stream → Stream
read_line [] s = record s { pc = if s.is_closed then finished else reading }
read_line (line ∷ unread) s = record s { unread = unread; pc = appending line }

-- One step of `_stream_to_stdout`.
unfoldable pub stream_to_stdout : Pc → Stream → Stream
stream_to_stdout reading s = read_line s.unread s
stream_to_stdout (appending line) s = record s {
  captured = s.captured ++ line ∷ [];
  pc = writing line;
}
stream_to_stdout (writing line) s = record s { shown = s.shown ++ line ∷ []; pc = reading }
stream_to_stdout finished s = s

-- What `drain_gdb_output` returns, if its wait for the thread ends here.
unfoldable pub drained : Stream → Text
drained s = flatten s.captured

-- gdb prints a line or closes its output, or the thread takes a step.
pub data Step (s : Stream) : Stream → Type 0 where
  prints :
      (line : Text)
      → s.is_closed ≡ false
      → Step s (record s { printed = s.printed ++ line ∷ []; unread = s.unread ++ line ∷ [] })
  closes : Step s (record s { is_closed = true })
  relays : Step s (stream_to_stdout s.pc s)

pub data Reach : Stream → Type 0 where
  start : Reach popen_gdb
  later : {s t : Stream} → Reach s → Step s t → Reach t

-- ===== src/Lib.antt =====
-- The VMI syscall monitor for the Unikraft nginx unikernel: a model of its Python tools.
--
-- The program watches the system calls of a guest from outside. In one mode gdb stops the guest at
-- a hardware breakpoint and monitor.py, inside gdb, writes one JSON line for each call; the scripts
-- run_capture.py and run_capture_from_boot.py start the guest with kraft, open a gdb stub over
-- QEMU's monitor socket (attach_gdbstub.py) and run gdb (gdb_session.py). In the other mode a
-- patched QEMU writes the lines and run_capture_inline.py shows them while they arrive.
-- validate_strace.py compares a capture with the guest's own trace; bench_overhead.py and
-- bench_overhead_inline.py measure the cost.
--
-- Which file models what:
--   Base        the names that all share: tests and lists over the native numbers, texts as lists
--               of code points (bytes in Gdbstub), integers, and results (a value or an exception,
--               without its message)
--   Py          the functions of Python's library that the tools call on texts: strip, split, join,
--               startswith, endswith, os.path.dirname, str and hex of integers, int(text)
--               and int(text, 16)
--   Json        JSON values and Python's json.dumps and json.loads (RoundTrip: what the first
--               writes, the second reads)
--   Monitor     syscall_table.py (Table: SYSCALL_TABLE and its lookup with the default) and
--               monitor.py (NrSet: _parse_nr_set and the settings; Handler: SyscallBreakpoint, whose
--               attributes are the record Breakpoint, with __init__ as new_breakpoint and stop; the
--               log file, the standard output and the commands given to gdb are fields of it; its
--               Records: the lines of the log as records, in the form that Inline/Format takes;
--               Hook: _resolve_hook_address and the end of the module)
--   Gdbstub     attach_gdbstub.py (Hmp: _recv_until_prompt and the cleaning in hmp_command; Attach:
--               hmp_command and attach_gdbserver over a socket that is a list of the pieces recv
--               will return, its Laws: what is sent and returned; Port: find_free_port; Instance:
--               find_instance_runtime_dir, and instance_is_running of the run_capture scripts, its
--               Found: what both make of an answer; Main: main)
--   Session     run_capture.py, run_capture_from_boot.py and gdb_session.py (Environment: the
--               variables handed to gdb; Load: monitor.py as gdb reads it in them; Script: what a
--               script does outside, in order, with what it returns or raises; Chain: the effects of
--               one kind in a chain of steps; Host: what the scripts that attach gdb share; Gdb: the
--               command lines and the ending of a gdb process; Stream: the thread that relays gdb's
--               output, as a step relation, its Ending: what is returned of it; Capture: main of
--               run_capture.py; Waits and Boot: the loops with a deadline and main of
--               run_capture_from_boot.py)
--   Inline      run_capture_inline.py (Tail: tail_lines, whose generator state is a record and whose
--               interleaving with the writer is a list of ticks; Format: format_ret, format_event;
--               View: the loop of run_interactive; Live: that loop over tail_lines, and the
--               watching of main; Resolve: the two addresses; Armed:
--               wait_for_armed_message; Start: start_instance and main)
--   Strace      validate_strace.py (Line: STRACE_LINE_RE and parse_strace_log; Capture:
--               parse_vmi_jsonl; Report: the longest run and the names of one source alone, its
--               NameSets: sequences as sets; Main: all that main prints, and its Run: the monitor and
--               the comparison together)
--   Bench       bench_overhead.py (Pattern: the patterns of AB_PATTERNS and their search; Ab: run_ab;
--               Reps: run_ab_reps; Summary: summarize; Compare: the comparison of the means, of both
--               scripts; Overhead: main) and bench_overhead_inline.py (Inline: the conditions and
--               main)
--   Tests       runs on concrete inputs
--
-- What comes from outside is an argument: the registers and clock readings of a hit, the output of
-- kraft, ab, nm and objdump, the ports that can be bound, the pieces a socket returns, how a gdb
-- process behaves and whether it can be run and takes what it is told, Path.resolve, the decoding
-- of bytes, str.isprintable, the class of digits of re, float, the functions of statistics, what
-- difflib computes, addresses on the command line as int(_, 0) reads them, and the texts of times
-- and of error numbers.
--
-- Fuel: the printing of a number in base b has fuel for its digits, n + 1 for n, since n / b < n as
-- long as n is not 0; reading JSON has fuel for the length of the text and one more, and each nested
-- value takes at least one character, so that fuel is enough for all that json.dumps writes
-- (Json/RoundTrip). The loop of find_free_port counts its hundred ports down. The other loops recurse
-- on their lists.
--
-- Not modelled: floats in JSON are kept as their decimal text and are never computed with, and the
-- benchmarks compute with a type of floats whose operations are arguments; NaN and Infinity are not
-- read; int() takes ASCII digits only; files and outputs are lists of lines, without the translation
-- of line ends; sending on the monitor socket does not fail; writes to the standard output are kept
-- only where the text matters; the waiting times; signals that come from the user outside the live
-- view; the parsing of command lines; captured names that are no texts, in the report of the
-- comparison; and the C patch of QEMU.
pub mod Base
pub mod Py
pub mod Json
pub mod Monitor
pub mod Inline
mod Tests
pub mod Gdbstub
pub mod Strace
pub mod Session
pub mod Bench

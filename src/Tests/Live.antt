-- ===== src/Tests/Live.antt =====
-- The live view of run_capture_inline.py over a log of two records.
use unikernel_syscall_monito.Base.{
  ◌≡◌, ◌≤◌, ap, refl, true, false, none, some, List, [], ◌∷◌, ◌++◌, arith, length,
}
use unikernel_syscall_monito.Base.Int.{pos, negsuc}
use unikernel_syscall_monito.Base.Result.{ok}
use unikernel_syscall_monito.Base.Text.{Text, codes}
use unikernel_syscall_monito.Json.Value.{int, real, str, arr, item, nil, get}
use unikernel_syscall_monito.Inline.Format.Records.{
  returned, unfinished, an_integer, a_decimal, a_text, a_list, empty, more,
}
use unikernel_syscall_monito.Inline.Live.{live, count_events}
use unikernel_syscall_monito.Inline.View.Events.{events}
use unikernel_syscall_monito.Inline.Start.Laws.{Ready}
use unikernel_syscall_monito.Inline.Live.Laws.{
  AreLogged, view_all, view_ready, live-AreLogged, live-polls,
}
use unikernel_syscall_monito.Inline.Start.{World, main, captured}
use unikernel_syscall_monito.Inline.Start.Captured.{followed, final_text, main-captured}
use unikernel_syscall_monito.Inline.Tail.{
  Tick, write, poll, content, start, run, read_round, tick, Tail,
}
use unikernel_syscall_monito.Inline.Tail.Lines.{complete_lines, read_line, count_lines, count_from}
use unikernel_syscall_monito.Inline.Tail.Progress.{polls}
use unikernel_syscall_monito.Py.Strip.{
  ends_with, left_strip, right_strip, strip, starts_with, contains, is_space,
}
use unikernel_syscall_monito.Json.Loads.{
  loads, at_end, read_value, skip, read_scalar, first_field, read_key, read_string, read_colon,
  after_field, first_item, after_item, read_number,
}
use unikernel_syscall_monito.Py.Number.{digit_char, digit_value, digits, value}
use unikernel_syscall_monito.Inline.Resolve.{
  find_addr, find_ret_addr, first_word, word, before_colon, resolve_syscall_addr,
  resolve_syscall_ret_addr, is_hook_line, is_return_line,
}
use unikernel_syscall_monito.Inline.Resolve.Laws.{hook_line, instruction}
use unikernel_syscall_monito.Gdbstub.Instance.{
  instance_is_running, loads_or_raise, instances, any_named,
}
use unikernel_syscall_monito.Py.Hex.{
  int16, is_hex_digit, magnitude, prefixed, scan_hex, signed_hex, padded, zeros,
}
use unikernel_syscall_monito.Tests.Sessions.{os}
use unikernel_syscall_monito.Tests.Starts.{world}

abbrev first_record : Text
first_record =
    codes
      "{\"ts\": 1785136912.5, \"syscall\": \"read\", \"args\": [\"0x3\", \"0x0\"], \"ret\": -2, \"err\": \"ENOENT\", \"dur_us\": 58}\n"

abbrev rest_of_second : Text
rest_of_second = codes "ept4\", \"args\": [], \"ret\": null, \"unfinished\": \"shutdown\"}\n"

-- The second record is written in two pieces, while the reader has seen the first one.
abbrev writes : List Tick
writes =
    poll false
    ∷ write (first_record ++ codes "{\"ts\": 1785136912.75, \"syscall\": \"acc")
    ∷ poll false
    ∷ poll false
    ∷ poll false
    ∷ write rest_of_second
    ∷ []

abbrev end : Tail
end = run writes (start none)

both_records :
    complete_lines (content end.file)
    ≡ first_record ∷ (codes "{\"ts\": 1785136912.75, \"syscall\": \"acc" ++ rest_of_second) ∷ []
unfolding run tick start read_round read_line ends_with complete_lines
both_records = refl

writes-AreLogged : AreLogged os (complete_lines (content end.file))
unfolding run tick start read_round read_line ends_with complete_lines loads at_end read_value skip
    first_field read_key read_string read_colon after_field first_item after_item read_scalar
    starts_with read_number get value digit_value
writes-AreLogged = (
  record {
    is_record = record {
      ts = record {
        value = real (record {
          negative = false;
          whole = codes "1785136912";
          fraction = codes "5";
          exponent = [];
        });
        there = refl;
        typed = a_decimal _;
      };
      syscall = record { value = str (codes "read"); there = refl; typed = a_text _ };
      args = record {
        value = arr (item (str (codes "0x3")) (item (str (codes "0x0")) nil));
        there = refl;
        typed = a_list (more _ (more _ empty));
      };
      outcome =
          returned refl (record { value = int (negsuc 1); there = refl; typed = an_integer _ })
            (record { value = int (pos 58); there = refl; typed = an_integer _ });
    };
    time = codes "12:00:00";
    in_range = refl;
  },
  (
    record {
      is_record = record {
        ts = record {
          value = real (record {
            negative = false;
            whole = codes "1785136912";
            fraction = codes "75";
            exponent = [];
          });
          there = refl;
          typed = a_decimal _;
        };
        syscall = record { value = str (codes "accept4"); there = refl; typed = a_text _ };
        args = record { value = arr nil; there = refl; typed = a_list empty };
        outcome =
            unfinished (record { value = str (codes "shutdown"); there = refl; typed = a_text _ });
      };
      time = codes "12:00:00";
      in_range = refl;
    },
    tt,
  ),
)

live-AreLogged_example :
    (rest : List Text) × (h : AreLogged os end.yielded) × (complete_lines (content end.file)
      ≡ end.yielded ++ rest)
    × (live os false none writes ≡ ok (view_all os end.yielded h))
    × (live os true none writes ≡ ok (view_ready os end.yielded h))
live-AreLogged_example = live-AreLogged os none writes writes-AreLogged

live-polls_example :
    (live os false none (writes ++ polls 3)
      ≡ ok (view_all os (complete_lines (content end.file)) writes-AreLogged))
    × (live os true none (writes ++ polls 3)
        ≡ ok (view_ready os (complete_lines (content end.file)) writes-AreLogged))
unfolding run tick start read_round read_line ends_with
live-polls_example =
    live-polls os none writes 3 writes-AreLogged refl refl (omega (arith, ap length both_records))

abbrev watching : World
watching = record world {
  written_later = codes "{}" ∷ [];
  watch = record {
    quiet = false;
    slept = ok tt;
    os = os;
    show_after_ready = true;
    log_file = none;
    ticks = writes;
  };
}

watching-Ready :
    Ready
      (codes "vm")
      (codes "log")
      watching
      (pos 0x101000)
      (some (pos 0x101050))
      (codes "/vmi/log")
unfolding find_addr find_ret_addr resolve_syscall_addr resolve_syscall_ret_addr first_word word
    left_strip right_strip strip is_space ends_with starts_with contains is_hook_line is_return_line
    before_colon int16 is_hex_digit magnitude prefixed scan_hex signed_hex digit_char hook_line
    padded zeros digits instruction instance_is_running loads_or_raise instances any_named loads
    at_end read_value skip read_scalar digit_value
watching-Ready = record {
  there = refl;
  found_addr = refl;
  found_ret = refl;
  fresh = refl;
  out = codes "null";
  listed = refl;
  free = refl;
  resolves = refl;
}

main-captured_example :
    ((main (codes "vm") (codes "log") watching).0
      ≡ ok (captured (count_lines (final_text (codes "vm") (codes "log") watching))))
    × (count_events watching.watch
        ≡ ok (length (events (followed (codes "vm") (codes "log") watching).yielded)))
    × (length (events (followed (codes "vm") (codes "log") watching).yielded)
        ≤ count_lines (final_text (codes "vm") (codes "log") watching))
main-captured_example =
    main-captured (codes "vm") (codes "log") watching watching-Ready refl refl refl writes-AreLogged

-- The view has read one record when it is ended, and the log has three lines in the end.
three_captured : (main (codes "vm") (codes "log") watching).0 ≡ ok (captured 3)
unfolding run tick start count_lines count_from read_round read_line ends_with
three_captured =
    (main-captured (codes "vm") (codes "log") watching watching-Ready refl refl refl
      writes-AreLogged).0

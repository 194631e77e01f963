-- ===== src/Monitor/Handler/Line.antt =====
-- The event that `stop` writes, as a value of JSON.
use unikernel_syscall_monito.Base.{
  ℕ, zero, suc, ◌≤◌, ◌<◌, ◌≡◌, refl, Bool, true, List, [], ◌∷◌, ◌++◌, arith, All, All-append, all,
  ltb, take, map, Option-cases, inl, inr,
}
use unikernel_syscall_monito.Base.Int.{ℤ, pos, negsuc}
use unikernel_syscall_monito.Base.Text.{Text, codes}
use unikernel_syscall_monito.Json.RoundTrip.Strings.{IsScalar}
use unikernel_syscall_monito.Json.RoundTrip.Numbers.{IsReal}
use unikernel_syscall_monito.Json.RoundTrip.Opening.{IsJson, AreItems}
use unikernel_syscall_monito.Py.Number.{str, hex, digits-All, digit_char, digits}
use unikernel_syscall_monito.Monitor.Table.{Entry, syscall_table, find, lookup_syscall}
use unikernel_syscall_monito.Monitor.Table.Laws.{find_sound, lookup-none, lookup-some}
use unikernel_syscall_monito.Monitor.Handler.Event.{Hit, make_event, event_json, arg_regs, texts}

is_plain : Text → Bool
is_plain = all (λ c. ltb c 128)

is_plain-IsScalar : (s : Text) → is_plain s ≡ true → All IsScalar s
unfolding is_plain
is_plain-IsScalar [] h = tt
is_plain-IsScalar (c ∷ s) h = (ground arith, is_plain-IsScalar s (ground arith))

digit_char-IsScalar : (d : ℕ) → d < 16 → IsScalar (digit_char d)
unfolding digit_char
digit_char-IsScalar d h = ground arith

digits-IsScalar : (base : ℕ) → 0 < base → base ≤ 16 → (n : ℕ) → All IsScalar (digits base n)
digits-IsScalar base h k n =
    digits-All IsScalar base h (λ d l. digit_char-IsScalar d (omega arith)) n

str-IsScalar : (n : ℤ) → All IsScalar (str n)
unfolding str
str-IsScalar (pos n) = digits-IsScalar 10 (omega arith) (omega arith) n
str-IsScalar (negsuc n) = (ground arith, digits-IsScalar 10 (omega arith) (omega arith) (suc n))

hex-IsScalar : (n : ℤ) → All IsScalar (hex n)
unfolding hex
hex-IsScalar (pos n) =
    (ground arith, (ground arith, digits-IsScalar 16 (omega arith) (omega arith) n))
hex-IsScalar (negsuc n) = (
  ground arith,
  (ground arith, (ground arith, digits-IsScalar 16 (omega arith) (omega arith) (suc n))),
)

is_plain_entry : Entry → Bool
unfolding is_plain
is_plain_entry e = is_plain e.name

table-is_plain : all is_plain_entry syscall_table ≡ true
unfolding is_plain_entry syscall_table
table-is_plain = refl

entry-IsScalar : (e : Entry) → is_plain_entry e ≡ true → All IsScalar e.name
unfolding is_plain_entry
entry-IsScalar e h = is_plain-IsScalar e.name h

default-IsScalar : (n : ℤ) → All IsScalar (codes "syscall_" ++ str n)
default-IsScalar n =
    All-append IsScalar (codes "syscall_") (str n)
      (is_plain-IsScalar (codes "syscall_") (unfold is_plain in refl)) (str-IsScalar n)

name-IsScalar : (rax : ℤ) → All IsScalar (lookup_syscall rax).0
name-IsScalar (negsuc n) = unfold lookup_syscall in default-IsScalar (negsuc n)
name-IsScalar (pos n) = elim (Option-cases (find n syscall_table)) [
  | inl h ↦ rw (lookup-none n h) (default-IsScalar (pos n))
  | inr (e, h) ↦
      let (plain, _) = find_sound n is_plain_entry syscall_table e table-is_plain h in
      rw (lookup-some n e h) (entry-IsScalar e plain)
]

texts-AreItems : (ts : List Text) → All (All IsScalar) ts → AreItems (texts ts)
unfolding IsJson
texts-AreItems [] h = tt
texts-AreItems (t ∷ ts) h = (h.0, texts-AreItems ts h.1)

args-IsScalar : (k : ℕ) (ns : List ℤ) → All (All IsScalar) (map hex (take k ns))
args-IsScalar zero ns = tt
args-IsScalar (suc k) [] = tt
args-IsScalar (suc k) (n ∷ ns) = (hex-IsScalar n, args-IsScalar k ns)

-- The event of a hit, if the clock gave a finite float.
pub event_json-IsJson : (h : Hit) → IsReal h.now → IsJson (event_json (make_event h))
unfolding IsJson event_json make_event is_plain
event_json-IsJson h r =
    let args = args-IsScalar (lookup_syscall h.rax).1 (arg_regs h) in
    (
      is_plain-IsScalar (codes "ts") refl,
      r,
      (
        is_plain-IsScalar (codes "num") refl,
        tt,
        (
          is_plain-IsScalar (codes "syscall") refl,
          name-IsScalar h.rax,
          (
            is_plain-IsScalar (codes "args") refl,
            texts-AreItems _ args,
            (is_plain-IsScalar (codes "handler_latency_ns") refl, tt, tt),
          ),
        ),
      ),
    )

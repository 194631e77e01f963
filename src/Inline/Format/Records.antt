-- ===== src/Inline/Format/Records.antt =====
-- The records of the log, as the README describes them, and that the live view formats them.
use unikernel_syscall_monito.Base.{◌≡◌, refl, ap, ◌∙◌, none, some, [], ◌∷◌, ◌++◌}
use unikernel_syscall_monito.Base.Int.{ℤ}
use unikernel_syscall_monito.Base.Result.{ok}
use unikernel_syscall_monito.Base.Text.{Text, codes}
use unikernel_syscall_monito.Json.Value.{
  Json, int, real, str, arr, Items, nil, item, Fields, Real, get,
}
use unikernel_syscall_monito.Py.Number
use unikernel_syscall_monito.Inline.Format.{
  Os, display, result_text, format_ret, join_args, three_digits, args_text, name_text, format_event,
  time_text,
}

-- The types of the fields of a record.
pub data Ty : Type 0 where
  integer : Ty
  decimal : Ty
  text : Ty
  texts : Ty

mutual
  pub data HasType : Json → Ty → Type 0 where
    an_integer : (n : ℤ) → HasType (int n) integer
    a_decimal : (r : Real) → HasType (real r) decimal
    a_text : (s : Text) → HasType (str s) text
    a_list : {vs : Items} → AreTexts vs → HasType (arr vs) texts

  pub data AreTexts : Items → Type 0 where
    empty : AreTexts nil
    more : (s : Text) {vs : Items} → AreTexts vs → AreTexts (item (str s) vs)

-- A field that is there, with a value of the type.
pub record Has (key : Text) (ty : Ty) (evt : Fields) : Type 0 where
  pub value : Json
  pub there : get key evt ≡ some value
  pub typed : HasType value ty

abbrev pub Lacks : Text → Fields → Type 0
Lacks key evt = get key evt ≡ none

-- What a record says of the return: nothing, where only entries are logged; the value, and how long
-- the call took; or why no return was seen.
pub data Outcome (evt : Fields) : Type 0 where
  entry_only : Lacks (codes "unfinished") evt → Lacks (codes "ret") evt → Outcome evt
  returned :
      Lacks (codes "unfinished") evt
      → Has (codes "ret") integer evt
      → Has (codes "dur_us") integer evt
      → Outcome evt
  unfinished : Has (codes "unfinished") text evt → Outcome evt

pub record IsRecord (evt : Fields) : Type 0 where
  pub ts : Has (codes "ts") decimal evt
  pub syscall : Has (codes "syscall") text evt
  pub args : Has (codes "args") texts evt
  pub outcome : Outcome evt

-- A record whose time stamp `datetime.fromtimestamp` takes, which asks that it is in the range of
-- the platform's clock.
pub record IsShown (os : Os) (evt : Fields) : Type 0 where
  pub is_record : IsRecord evt
  pub time : Text
  pub in_range : os.time_of_day is_record.ts.value ≡ ok time

abbrev integer_of : {v : Json} → HasType v integer → ℤ
integer_of (an_integer n) = n

abbrev text_of : {v : Json} → HasType v text → Text
text_of (a_text s) = s

integer_eq : {v : Json} (t : HasType v integer) → v ≡ int (integer_of t)
integer_eq (an_integer n) = refl

text_eq : {v : Json} (t : HasType v text) → v ≡ str (text_of t)
text_eq (a_text s) = refl

integer_there :
    {key : Text} {evt : Fields} (h : Has key integer evt)
    → get key evt ≡ some (int (integer_of h.typed))
integer_there h = h.there ∙ ap some (integer_eq h.typed)

text_there :
    {key : Text} {evt : Fields} (h : Has key text evt) → get key evt ≡ some (str (text_of h.typed))
text_there h = h.there ∙ ap some (text_eq h.typed)

-- The texts with ", " between them.
abbrev joined : {vs : Items} → AreTexts vs → Text
joined empty = []
joined (more s empty) = s
joined (more s (more t ts)) = s ++ b',' ∷ b' ' ∷ joined (more t ts)

abbrev joined_of : {v : Json} → HasType v texts → Text
joined_of (a_list ts) = joined ts

module _ (os : Os) where
  -- What is shown of the return.
  abbrev pub outcome_text : (evt : Fields) → Outcome evt → Text
  outcome_text evt (entry_only _ _) = []
  outcome_text evt (returned _ ret dur) =
      codes " = "
      ++ (result_text os (integer_of ret.typed) (get (codes "err") evt)
          ++ codes "  <"
          ++ Number.str (integer_of dur.typed)
          ++ codes "us>")
  outcome_text evt (unfinished why) = codes " = ? <unfinished: " ++ (text_of why.typed ++ codes ">")

  -- The line of a record: the time, the name with the arguments, and the return.
  abbrev pub record_line : (evt : Fields) → IsShown os evt → Text
  record_line evt h =
      b'['
      ∷ ((h.time ++ b'.' ∷ three_digits (os.milliseconds h.is_record.ts.value))
          ++ codes "] "
          ++ text_of h.is_record.syscall.typed
          ++ b'('
            ∷ (joined_of h.is_record.args.typed ++ b')' ∷ outcome_text evt h.is_record.outcome))

  join_args_lem : {vs : Items} (ts : AreTexts vs) → join_args os vs ≡ ok (joined ts)
  unfolding join_args
  join_args_lem empty = refl
  join_args_lem (more s empty) = refl
  join_args_lem (more s (more t ts)) = rw (join_args_lem (more t ts)) refl

  format_ret_lem : (evt : Fields) (o : Outcome evt) → format_ret os evt ≡ ok (outcome_text evt o)
  unfolding format_ret
  format_ret_lem evt (entry_only u r) = rw (u, format_ret) (rw r refl)
  format_ret_lem evt (returned u ret dur) =
      rw (u, format_ret) (rw (integer_there ret, integer_there dur) (unfold display in refl))
  format_ret_lem evt (unfinished why) = rw (text_there why, format_ret) (unfold display in refl)

  args_text_lem : {v : Json} (t : HasType v texts) → args_text os (some v) ≡ ok (joined_of t)
  args_text_lem (a_list ts) = join_args_lem ts

  name_text_lem :
      (evt : Fields) (h : Has (codes "syscall") text evt) → name_text os evt ≡ text_of h.typed
  name_text_lem evt h = rw (text_there h, name_text) (unfold display in refl)

  time_text_lem :
      {v : Json} (t : HasType v decimal) (time : Text)
      → os.time_of_day v ≡ ok time
      → time_text os v ≡ ok (time ++ b'.' ∷ three_digits (os.milliseconds v))
  unfolding time_text
  time_text_lem (a_decimal r) time e = rw e refl

  -- A record is formatted, whatever it says of the return.
  pub format_event-IsShown :
      (evt : Fields) (h : IsShown os evt) → format_event os evt ≡ ok (record_line evt h)
  unfolding format_event
  format_event-IsShown evt h =
      let r = h.is_record in
      rw
        (
          r.ts.there,
          time_text_lem r.ts.typed h.time h.in_range,
          r.args.there,
          args_text_lem r.args.typed,
          format_ret_lem evt r.outcome,
        )
        (rw (name_text_lem evt r.syscall) refl)

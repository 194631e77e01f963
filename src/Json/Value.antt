-- ===== src/Json/Value.antt =====
-- The values of JSON. A float is kept as its literal: the sign, the digits before the point, the
-- digits behind it (none if there is no point) and the exponent with its letter.
use unikernel_syscall_monito.Base.{Bool, Option, none, some, if◌then◌else◌}
use unikernel_syscall_monito.Base.Int.{ℤ}
use unikernel_syscall_monito.Base.Text.{Text, text_eq}

pub record Real : Type 0 where
  pub negative : Bool
  pub whole : Text
  pub fraction : Text
  pub exponent : Text

mutual
  pub data Json : Type 0 where
    null : Json
    bool : Bool → Json
    int : ℤ → Json
    real : Real → Json
    str : Text → Json
    arr : Items → Json
    obj : Fields → Json

  pub data Items : Type 0 where
    nil : Items
    item : Json → Items → Items

  pub data Fields : Type 0 where
    end : Fields
    field : Text → Json → Fields → Fields

abbrev later : Option Json → Json → Option Json
later none v = some v
later (some w) v = some w

-- `d.get(key)`: where a text names a key twice, `json.loads` keeps the last value.
unfoldable pub get : Text → Fields → Option Json
get key end = none
get key (field k v rest) =
    let found = get key rest in if text_eq k key then later found v else found

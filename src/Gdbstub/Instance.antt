-- ===== src/Gdbstub/Instance.antt =====
-- What the tools read off `kraft ps`: `find_instance_runtime_dir` of attach_gdbstub.py, and
-- `instance_is_running` of run_capture.py and run_capture_inline.py.
pub mod Found
use unikernel_syscall_monito.Base.{
  ◌≡◌, refl, Bool, true, false, Option, none, some, [], ◌∷◌, ◌++◌, arith, all, ◌==◌, if◌then◌else◌,
  ◌&&◌, not,
}
use unikernel_syscall_monito.Base.Int.{pos, int_eq}
use unikernel_syscall_monito.Base.Result.{
  Result, ok, raise, runtime_error, attribute_error, type_error, json_decode_error, ◌>>=◌,
  bind-eq-ok,
}
use unikernel_syscall_monito.Base.Text.{Text, codes, text_eq}
use unikernel_syscall_monito.Json.Value.{
  Json, null, bool, int, real, str, arr, obj, Items, nil, item, end, field, Real, get,
}
use unikernel_syscall_monito.Json.Loads.{loads}
use unikernel_syscall_monito.Py.Strip.{starts_with}

-- `json.loads(text)` with its exception.
unfoldable pub loads_or_raise : Text → Result Json
loads_or_raise text = elim (loads text) [ none ↦ raise json_decode_error | some v ↦ ok v ]

-- A float is zero if all its digits are.
abbrev is_zero : Real → Bool
is_zero r = all (λ c. c == b'0') r.whole && all (λ c. c == b'0') r.fraction

-- `not value`
unfoldable pub is_falsy : Json → Bool
is_falsy null = true
is_falsy (bool b) = not b
is_falsy (int n) = int_eq n (pos 0)
is_falsy (real r) = is_zero r
is_falsy (str []) = true
is_falsy (str (c ∷ s)) = false
is_falsy (arr nil) = true
is_falsy (arr (item v vs)) = false
is_falsy (obj end) = true
is_falsy (obj (field k v fs)) = false

-- The loop over `json.loads(...) or []`. A text or an object that is not empty is iterated over,
-- and its first element has no `get`; other values cannot be iterated over.
unfoldable pub instances : Json → Result Items
unfolding is_falsy
instances (arr vs) = ok vs
instances (str (c ∷ s)) = raise attribute_error
instances (obj (field k v fs)) = raise attribute_error
instances v = if is_falsy v then ok nil else raise type_error

-- `inst.get("name") == name`
unfoldable pub is_named : Text → Option Json → Bool
is_named name (some (str s)) = text_eq s name
is_named name _ = false

-- `KRAFTKIT_RUNTIME_DIR / instance_id`, where an absolute path stands for itself.
unfoldable pub joined : Text → Json → Result Text
joined dir (str id) = ok (if starts_with id (codes "/") then id else dir ++ b'/' ∷ id)
joined dir _ = raise type_error

-- What is done with the instance that has the name.
unfoldable pub machine_dir : Text → Option Json → Result Text
unfolding joined is_falsy
machine_dir dir none = raise runtime_error
machine_dir dir (some id) = if is_falsy id then raise runtime_error else joined dir id

unfoldable pub find_in : Text → Text → Items → Result Text
find_in dir name nil = raise runtime_error
find_in dir name (item (obj inst) rest) =
    let next = find_in dir name rest in
    if is_named name (get (codes "name") inst)
    then machine_dir dir (get (codes "machine_id") inst)
    else next
find_in dir name (item _ rest) = raise attribute_error

-- From the standard output of `kraft ps -l -o json`.
unfoldable pub find_instance_runtime_dir : Text → Text → Text → Result Text
find_instance_runtime_dir dir name out = do
  v ← loads_or_raise out
  vs ← instances v
  find_in dir name vs

-- `any(inst.get("name") == name for inst in instances)`
unfoldable pub any_named : Text → Items → Result Bool
any_named name nil = ok false
any_named name (item (obj inst) rest) =
    let next = any_named name rest in
    if is_named name (get (codes "name") inst) then ok true else next
any_named name (item _ rest) = raise attribute_error

-- From the standard output of `kraft ps -o json`.
unfoldable pub instance_is_running : Text → Text → Result Bool
instance_is_running name out = do v ← loads_or_raise out; vs ← instances v; any_named name vs

-- An instance is found to be running by one function exactly if the other one reaches it.
found_is_running :
    (dir name : Text) (vs : Items) (path : Text)
    → find_in dir name vs ≡ ok path
    → any_named name vs ≡ ok true
unfolding find_in any_named
found_is_running dir name nil path h = cc
found_is_running dir name (item (obj inst) rest) path h =
    ground (arith, found_is_running dir name rest path)
found_is_running dir name (item _ rest) path h = cc

not_running :
    (dir name : Text) (vs : Items)
    → any_named name vs ≡ ok false
    → find_in dir name vs ≡ raise runtime_error
unfolding find_in any_named
not_running dir name nil h = refl
not_running dir name (item (obj inst) rest) h = ground (arith, not_running dir name rest)
not_running dir name (item _ rest) h = cc

-- For one answer of `kraft ps`: where a runtime directory is found, the instance counts as running.
pub found-is_running :
    (dir name out path : Text)
    → find_instance_runtime_dir dir name out ≡ ok path
    → instance_is_running name out ≡ ok true
unfolding find_instance_runtime_dir instance_is_running
found-is_running dir name out path h =
    let (v, loaded, more) =
      bind-eq-ok (loads_or_raise out) (λ v. instances v >>= λ vs. find_in dir name vs) h in
    let (vs, listed, found) = bind-eq-ok (instances v) (λ vs. find_in dir name vs) more in
    rw (loaded, listed) (found_is_running dir name vs path found)

-- Where the instance does not count as running, looking for its directory is a RuntimeError.
pub not_running-raise :
    (dir name out : Text)
    → instance_is_running name out ≡ ok false
    → find_instance_runtime_dir dir name out ≡ raise runtime_error
unfolding find_instance_runtime_dir instance_is_running
not_running-raise dir name out h =
    let (v, loaded, more) =
      bind-eq-ok (loads_or_raise out) (λ v. instances v >>= λ vs. any_named name vs) h in
    let (vs, listed, found) = bind-eq-ok (instances v) (λ vs. any_named name vs) more in
    rw (loaded, listed) (not_running dir name vs found)

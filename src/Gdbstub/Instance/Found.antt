-- ===== src/Gdbstub/Instance/Found.antt =====
-- What both functions make of one answer of `kraft ps`.
use unikernel_syscall_monito.Base.{
  ◌≡◌, ◌≢◌, ◌↔◌, refl, sym, ap, ◌∙◌, Bool, true, false, Option, none, some, [], ◌∷◌, ◌++◌, arith,
  if◌then◌else◌,
}
use unikernel_syscall_monito.Base.Result.{Result, ok, raise, runtime_error}
use unikernel_syscall_monito.Base.Text.{Text, codes}
use unikernel_syscall_monito.Json.Value.{Json, str, obj, Items, nil, item, Fields, get}
use unikernel_syscall_monito.Json.Loads.{loads}
use unikernel_syscall_monito.Py.Strip.{starts_with}
use unikernel_syscall_monito.Gdbstub.Instance.{
  loads_or_raise, is_falsy, instances, is_named, joined, machine_dir, find_in,
  find_instance_runtime_dir, any_named, instance_is_running,
}

-- A list of objects.
abbrev pub AreObjects : Items → Type 0
AreObjects nil = Unit
AreObjects (item (obj inst) rest) = AreObjects rest
AreObjects (item v rest) = ⊥

-- The first instance of the name.
abbrev pub first_named : Text → Items → Option Fields
first_named name nil = none
first_named name (item (obj inst) rest) =
    if is_named name (get (codes "name") inst) then some inst else first_named name rest
first_named name (item v rest) = none

-- An instance with an identifier, and its directory.
pub record HasDir (dir : Text) (inst : Fields) (path : Text) : Type 0 where
  pub id : Text
  pub identified : get (codes "machine_id") inst ≡ some (str id)
  pub not_empty : id ≢ []
  pub located : path ≡ (if starts_with id (codes "/") then id else dir ++ b'/' ∷ id)

abbrev dir_of : Text → Option Fields → Result Text
dir_of dir none = raise runtime_error
dir_of dir (some inst) = machine_dir dir (get (codes "machine_id") inst)

abbrev is_there : Option Fields → Bool
is_there none = false
is_there (some inst) = true

find_in_lem :
    (dir name : Text) (vs : Items)
    → AreObjects vs
    → find_in dir name vs ≡ dir_of dir (first_named name vs)
unfolding find_in
find_in_lem dir name nil h = refl
find_in_lem dir name (item (obj inst) rest) h = ground (arith, find_in_lem dir name rest h)
find_in_lem dir name (item _ rest) h = absurd h

any_named_lem :
    (name : Text) (vs : Items)
    → AreObjects vs
    → any_named name vs ≡ ok (is_there (first_named name vs))
unfolding any_named
any_named_lem name nil h = refl
any_named_lem name (item (obj inst) rest) h = ground (arith, any_named_lem name rest h)
any_named_lem name (item _ rest) h = absurd h

dir_sound :
    (dir path : Text) (inst : Fields) (id : Option Json)
    → get (codes "machine_id") inst ≡ id
    → machine_dir dir id ≡ ok path
    → HasDir dir inst path
unfolding machine_dir joined is_falsy
dir_sound dir path inst none e h = absurd (cc h)
dir_sound dir path inst (some (str [])) e h = cc h
dir_sound dir path inst (some (str (c ∷ id))) e h = record {
  id = c ∷ id;
  identified = e;
  not_empty = λ z. cc z;
  located = cc h;
}
dir_sound dir path inst (some v) e h = absurd (ground arith)

dir_of_text :
    (dir path id : Text)
    → id ≢ []
    → path ≡ (if starts_with id (codes "/") then id else dir ++ b'/' ∷ id)
    → machine_dir dir (some (str id)) ≡ ok path
unfolding machine_dir joined is_falsy
dir_of_text dir path [] n e = absurd (n refl)
dir_of_text dir path (c ∷ id) n e = ap ok (sym e)

dir_complete :
    (dir path : Text) (inst : Fields)
    → HasDir dir inst path
    → machine_dir dir (get (codes "machine_id") inst) ≡ ok path
dir_complete dir path inst d =
    ap (machine_dir dir) d.identified ∙ dir_of_text dir path d.id d.not_empty d.located

-- The instance with the name that comes first, if it is of some kind.
abbrev pub FirstNamed : Text → Items → (Fields → Type 0) → Type 0
FirstNamed name vs P = (inst : Fields) × (first_named name vs ≡ some inst) × P inst

first_dir_iff :
    (dir path : Text) (first : Option Fields)
    → (dir_of dir first ≡ ok path) ↔ ((inst : Fields) × (first ≡ some inst) × HasDir dir inst path)
first_dir_iff dir path none = ((λ h. absurd (cc h)), (λ p. absurd (cc p.1)))
first_dir_iff dir path (some inst) = (
  (λ h. (inst, refl, dir_sound dir path inst (get (codes "machine_id") inst) refl h)),
  (λ p. ap (dir_of dir) p.1 ∙ dir_complete dir path p.0 p.2),
)

there_iff :
    (first : Option Fields)
    → (ok (is_there first) ≡ ok true) ↔ ((inst : Fields) × (first ≡ some inst) × Unit {0})
there_iff none = ((λ h. absurd (cc h)), (λ p. absurd (cc p.1)))
there_iff (some inst) = ((λ h. (inst, refl, tt)), (λ p. refl))

loaded : (out : Text) (v : Json) → loads out ≡ some v → loads_or_raise out ≡ ok v
unfolding loads_or_raise
loaded out v l = rw (loads_or_raise, l) refl

found_in :
    (dir name out : Text) (v : Json) (vs : Items)
    → loads out ≡ some v
    → instances v ≡ ok vs
    → find_instance_runtime_dir dir name out ≡ find_in dir name vs
unfolding find_instance_runtime_dir
found_in dir name out v vs l i = rw (loaded out v l, i) refl

running_in :
    (name out : Text) (v : Json) (vs : Items)
    → loads out ≡ some v
    → instances v ≡ ok vs
    → instance_is_running name out ≡ any_named name vs
unfolding instance_is_running
running_in name out v vs l i = rw (loaded out v l, i) refl

-- From an answer of `kraft ps` that is read as a list of objects, or as null: a runtime directory is
-- found exactly if the first instance with the name has an identifier, a text that is not empty,
-- and it is that of this identifier; and the instance counts as running exactly if one has the name.
pub instances_iff :
    (dir name out path : Text) (v : Json) (vs : Items)
    → loads out ≡ some v
    → instances v ≡ ok vs
    → AreObjects vs
    → ((find_instance_runtime_dir dir name out ≡ ok path)
        ↔ FirstNamed name vs (λ inst. HasDir dir inst path))
      × ((instance_is_running name out ≡ ok true) ↔ FirstNamed name vs (λ inst. Unit {0}))
instances_iff dir name out path v vs l i h =
    rw
      (
        found_in dir name out v vs l i ∙ find_in_lem dir name vs h,
        running_in name out v vs l i ∙ any_named_lem name vs h,
      )
      (first_dir_iff dir path (first_named name vs), there_iff (first_named name vs))

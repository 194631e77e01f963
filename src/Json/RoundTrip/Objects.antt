-- ===== src/Json/RoundTrip/Objects.antt =====
-- The fields of an object, read back one at a time.
use unikernel_syscall_monito.Base.{
  ℕ, zero, suc, ◌+◌, ◌≤◌, ◌≡◌, refl, ap, ◌∙◌, Option, none, some, [], ◌∷◌, ◌++◌, arith, All,
  append_assoc, length, length-append,
}
use unikernel_syscall_monito.Base.Text.{Text}
use unikernel_syscall_monito.Json.Value.{Json, obj, Fields, end, field}
use unikernel_syscall_monito.Json.Dumps.{dumps, dumps_fields, quote, escape}
use unikernel_syscall_monito.Json.Loads.{
  skip, read_value, read_fields, first_field, after_field, read_key, read_colon, read_string,
  colon_after, as_obj,
}
use unikernel_syscall_monito.Json.RoundTrip.Strings.{IsScalar, read_string-escape}
use unikernel_syscall_monito.Json.RoundTrip.Numbers.{Stops}
use unikernel_syscall_monito.Json.RoundTrip.Opening.{
  IsJson, Opens, ReadsValue, ReadsFields, skip-Opens, dumps-Opens,
}

quote-length : (k : Text) → length (quote k) ≡ length (escape k) + 2
unfolding quote
quote-length k = omega (arith, length-append (escape k) (b'"' ∷ []))

fields-Opens : (k : Text) (v : Json) (fs : Fields) → Opens (dumps_fields (field k v fs))
unfolding dumps_fields quote
fields-Opens k v end = ground arith
fields-Opens k v (field k' w fs) = ground arith

first_field-Opens :
    (s rest : Text) (more : Text → Option (Fields × Text))
    → Opens s
    → first_field (s ++ rest) more ≡ more (s ++ rest)
unfolding first_field
first_field-Opens [] rest more h = absurd h
first_field-Opens (c ∷ s) rest more h = ground arith

-- A key and its colon have been read.
read_key-quote :
    (k s : Text) → All IsScalar k → skip s ≡ s → read_key (quote k ++ b':' ∷ b' ' ∷ s) ≡ some (k, s)
unfolding read_key quote read_colon skip
read_key-quote k s h e =
    ap (λ t. colon_after (read_string t)) (append_assoc (escape k) (b'"' ∷ []) (b':' ∷ b' ' ∷ s))
    ∙ ap colon_after (read_string-escape k (b':' ∷ b' ' ∷ s) h)
    ∙ ap (λ t. some (k, t)) e

read_fields_step :
    (f : ℕ) (s k t r : Text) (v : Json)
    → read_key s ≡ some (k, t)
    → read_value f t ≡ some (v, r)
    → read_fields (suc f) s ≡ after_field k v (skip r) (λ u. read_fields f u)
unfolding read_fields
read_fields_step f s k t r v h e = rw (h, read_fields) (rw (e, read_fields) refl)

after_field-close :
    (k : Text) (v : Json) (r : Text) (more : Text → Option (Fields × Text))
    → after_field k v (skip (b'}' ∷ r)) more ≡ some (field k v end, r)
unfolding after_field skip
after_field-close k v r more = refl

after_field-comma :
    (k : Text) (v : Json) (fs : Fields) (s r : Text) (more : Text → Option (Fields × Text))
    → skip s ≡ s
    → more s ≡ some (fs, r)
    → after_field k v (skip (b',' ∷ b' ' ∷ s)) more ≡ some (field k v fs, r)
unfolding after_field skip
after_field-comma k v fs s r more h e =
    ap (λ o. elim o [ none ↦ none | some (gs, t) ↦ some (field k v gs, t) ]) (ap more h ∙ e)

-- A field and what follows it, as one text.
field_text : Text → Json → Text → Text
field_text k v s = quote k ++ b':' ∷ b' ' ∷ (dumps v ++ s)

field_text-append :
    (k : Text) (v : Json) (s t : Text) → field_text k v s ++ t ≡ field_text k v (s ++ t)
unfolding field_text
field_text-append k v s t =
    append_assoc (quote k) (b':' ∷ b' ' ∷ (dumps v ++ s)) t
    ∙ ap (λ u. quote k ++ b':' ∷ b' ' ∷ u) (append_assoc (dumps v) s t)

length-field_text :
    (k : Text) (v : Json) (s : Text) → length (dumps v) + length s + 3 ≤ length (field_text k v s)
unfolding field_text
length-field_text k v s = omega (
  arith,
  length-append (quote k) (b':' ∷ b' ' ∷ (dumps v ++ s)),
  quote-length k,
  length-append (dumps v) s,
)

read_field :
    (f : ℕ) (k : Text) (v : Json) (s : Text)
    → All IsScalar k
    → IsJson v
    → ReadsValue v
    → Stops s
    → length (dumps v) ≤ f
    → read_fields (suc f) (field_text k v s) ≡ after_field k v (skip s) (λ u. read_fields f u)
unfolding field_text
read_field f k v s hk hv ih st l =
    read_fields_step f _ k (dumps v ++ s) s v
      (read_key-quote k (dumps v ++ s) hk (skip-Opens (dumps v) s (dumps-Opens v hv)))
      (ih hv s f st l)

pub fields-Reads :
    (k : Text) (v : Json) (fs : Fields) → ReadsValue v → ReadsFields fs → ReadsFields (field k v fs)
unfolding dumps_fields IsJson field_text
fields-Reads k v end ih ihs h rest zero l = absurd (omega (arith, length-append (quote k)))
fields-Reads k v end ih ihs h rest (suc f) l =
    ap (read_fields (suc f)) (field_text-append k v (b'}' ∷ []) rest)
    ∙ read_field f k v (b'}' ∷ rest) h.0 h.1 ih (ground arith)
        (omega (arith, length-field_text k v (b'}' ∷ [])))
    ∙ after_field-close k v rest _
fields-Reads k v (field k' w fs) ih ihs h rest zero l =
    absurd (omega (arith, length-append (quote k)))
fields-Reads k v (field k' w fs) ih ihs h rest (suc f) l =
    let more = dumps_fields (field k' w fs) in
    ap (read_fields (suc f)) (field_text-append k v (b',' ∷ b' ' ∷ more) rest)
    ∙ read_field f k v (b',' ∷ b' ' ∷ (more ++ rest)) h.0 h.1 ih (ground arith)
        (omega (arith, length-field_text k v (b',' ∷ b' ' ∷ more)))
    ∙ after_field-comma k v (field k' w fs) _ rest _ (skip-Opens more rest (fields-Opens k' w fs))
        (ihs h.2 rest f (omega (arith, length-field_text k v (b',' ∷ b' ' ∷ more))))

pub obj-Reads : (fs : Fields) → ReadsFields fs → ReadsValue (obj fs)
unfolding dumps read_value IsJson
obj-Reads fs ih h rest zero st l = absurd (omega arith)
obj-Reads end ih h rest (suc f) st l = unfold skip first_field in refl
obj-Reads (field k v fs) ih h rest (suc f) st l =
    let o = fields-Opens k v fs in
    ap as_obj (
      ap (λ t. first_field t (λ u. read_fields f u))
        (skip-Opens (dumps_fields (field k v fs)) rest o)
      ∙ first_field-Opens (dumps_fields (field k v fs)) rest _ o
      ∙ ih h rest f (omega arith))

-- ===== src/Json/RoundTrip/Arrays.antt =====
-- The elements of an array, read back one at a time.
use unikernel_syscall_monito.Base.{
  ℕ, zero, suc, ◌≡◌, refl, ap, ◌∙◌, Option, none, some, [], ◌∷◌, ◌++◌, arith, append_assoc,
  length-append,
}
use unikernel_syscall_monito.Base.Text.{Text}
use unikernel_syscall_monito.Json.Value.{Json, arr, Items, nil, item}
use unikernel_syscall_monito.Json.Dumps.{dumps, dumps_items}
use unikernel_syscall_monito.Json.Loads.{
  skip, read_value, read_items, first_item, after_item, as_arr,
}
use unikernel_syscall_monito.Json.RoundTrip.Opening.{
  IsJson, Opens, ReadsValue, ReadsItems, skip-Opens, first_item-Opens, dumps-Opens, append-Opens,
}

items-Opens : (v : Json) (xs : Items) → IsJson v → Opens (dumps_items (item v xs))
unfolding dumps_items
items-Opens v nil h = append-Opens (dumps v) _ (dumps-Opens v h)
items-Opens v (item w xs) h = append-Opens (dumps v) _ (dumps-Opens v h)

-- One element has been read.
read_items_step :
    (f : ℕ) (s r : Text) (v : Json)
    → read_value f s ≡ some (v, r)
    → read_items (suc f) s ≡ after_item v (skip r) (λ t. read_items f t)
unfolding read_items
read_items_step f s r v h = rw (h, read_items) refl

after_item-close :
    (v : Json) (r : Text) (more : Text → Option (Items × Text))
    → after_item v (skip (b']' ∷ r)) more ≡ some (item v nil, r)
unfolding after_item skip
after_item-close v r more = refl

after_item-comma :
    (v : Json) (xs : Items) (s r : Text) (more : Text → Option (Items × Text))
    → skip s ≡ s
    → more s ≡ some (xs, r)
    → after_item v (skip (b',' ∷ b' ' ∷ s)) more ≡ some (item v xs, r)
unfolding after_item skip
after_item-comma v xs s r more h e =
    ap (λ o. elim o [ none ↦ none | some (vs, t) ↦ some (item v vs, t) ]) (ap more h ∙ e)

pub items-Reads : (v : Json) (xs : Items) → ReadsValue v → ReadsItems xs → ReadsItems (item v xs)
unfolding dumps_items IsJson
items-Reads v nil ih ihs h rest zero l = absurd (omega (arith, length-append (dumps v)))
items-Reads v nil ih ihs h rest (suc f) l =
    ap (read_items (suc f)) (append_assoc (dumps v) (b']' ∷ []) rest)
    ∙ read_items_step f _ _ v
        (ih h.0 (b']' ∷ rest) f (ground arith) (omega (arith, length-append (dumps v) (b']' ∷ []))))
    ∙ after_item-close v rest _
items-Reads v (item w xs) ih ihs h rest zero l = absurd (omega (arith, length-append (dumps v)))
items-Reads v (item w xs) ih ihs h rest (suc f) l =
    let o = items-Opens w xs h.1.0 in
    ap (read_items (suc f)) (append_assoc (dumps v) (b',' ∷ b' ' ∷ dumps_items (item w xs)) rest)
    ∙ read_items_step f _ _ v (
        ih h.0 (b',' ∷ b' ' ∷ (dumps_items (item w xs) ++ rest)) f (ground arith)
          (omega (arith, length-append (dumps v) (b',' ∷ b' ' ∷ dumps_items (item w xs)))))
    ∙ after_item-comma v (item w xs) _ rest _ (skip-Opens (dumps_items (item w xs)) rest o) (
        ihs h.1 rest f
          (omega (arith, length-append (dumps v) (b',' ∷ b' ' ∷ dumps_items (item w xs)))))

pub arr-Reads : (xs : Items) → ReadsItems xs → ReadsValue (arr xs)
unfolding dumps read_value IsJson
arr-Reads xs ih h rest zero st l = absurd (omega arith)
arr-Reads nil ih h rest (suc f) st l = unfold skip first_item in refl
arr-Reads (item v xs) ih h rest (suc f) st l =
    let o = items-Opens v xs h.0 in
    ap as_arr (
      ap (λ t. first_item t (λ u. read_items f u)) (skip-Opens (dumps_items (item v xs)) rest o)
      ∙ first_item-Opens (dumps_items (item v xs)) rest _ o
      ∙ ih h rest f (omega arith))

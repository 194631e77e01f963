-- ===== src/Inline/View/Laws.antt =====
-- Which events the live view shows.
use unikernel_syscall_monito.Base.{
  ℕ, suc, ◌+◌, ◌≡◌, refl, sym, ap, ◌∙◌, Bool, true, false, Option, none, some, List, [], ◌∷◌, ◌++◌,
  length, any, arith, append_assoc, append-nil, Bool-cases, inl, inr, ap₂,
}
use unikernel_syscall_monito.Base.Result.{Result, ok, raise, ◌>>=◌}
use unikernel_syscall_monito.Base.Text.{Text}
use unikernel_syscall_monito.Json.Value.{Json, null, bool, int, real, arr, obj, str, Fields}
use unikernel_syscall_monito.Json.Loads.{loads}
use unikernel_syscall_monito.Inline.Format.{Os, format_event}
use unikernel_syscall_monito.Inline.View.{
  View, banner, is_accept4, print_event, show_event, show_decoded, show_line, show_lines,
  run_interactive,
}
use unikernel_syscall_monito.Inline.View.Events.{
  IsEvent, AreEvents, event_of, events, from_accept, opening,
}

module _ (os : Os) where
  abbrev pub format_all : List Fields → Result (List Text)
  format_all [] = ok []
  format_all (evt ∷ evts) = do
    text ← format_event os evt
    texts ← format_all evts
    ok (text ∷ texts)

  -- The view with that many more events counted and these lines printed.
  abbrev pub extended : View → ℕ → Bool → List Text → View
  extended v n ready texts = record {
    n_events = v.n_events + n;
    ready_seen = ready;
    printed = v.printed ++ texts;
  }

  extended-cons :
      (v : View) (t : Text) (m : ℕ) (rs : Result (List Text))
      → (rs >>= λ ts. ok (extended (extended v 1 true (t ∷ [])) m true ts))
        ≡ ((rs >>= λ ts. ok (t ∷ ts)) >>= λ ts. ok (extended v (suc m) true ts))
  extended-cons v t m (raise e) = refl
  extended-cons v t m (ok ts) =
      ap₂ (λ n texts. ok (record { n_events = n; ready_seen = true; printed = texts }))
        (omega arith) (append_assoc v.printed (t ∷ []) ts)

  print_then :
      (v : View) (m : ℕ) (f : View → Result View) (r : Result Text) (rs : Result (List Text))
      → ((t : Text)
          → f (extended v 1 true (t ∷ []))
            ≡ (rs >>= λ ts. ok (extended (extended v 1 true (t ∷ [])) m true ts)))
      → ((r >>= λ t. ok (extended v 1 true (t ∷ []))) >>= f)
        ≡ ((r >>= λ t. rs >>= λ ts. ok (t ∷ ts)) >>= λ ts. ok (extended v (suc m) true ts))
  print_then v m f (ok t) rs h = h t ∙ extended-cons v t m rs
  print_then v m f (raise e) rs h = refl

  -- The rest of the lines, when nginx is known to be ready.
  ShowsAll : List Text → Type 0
  ShowsAll lines =
      (v : View)
      → v.ready_seen ≡ true
      → show_lines os lines v ≡ (
          format_all (events lines) >>= λ texts. ok (extended v (length (events lines)) true texts))

  decoded_ready :
      (d : Option Json) (lines : List Text)
      → IsEvent d
      → ShowsAll lines
      → (v : View) → v.ready_seen ≡ true
      → (show_decoded os d v >>= λ w. show_lines os lines w) ≡ (
          format_all (event_of d ++ events lines) >>= λ texts.
          ok (extended v (length (event_of d ++ events lines)) true texts))
  unfolding ShowsAll show_decoded show_event print_event
  decoded_ready none lines h rest v r = rest v r
  decoded_ready (some (obj evt)) lines h rest v r = rw r (
      print_then v (length (events lines)) (λ w. show_lines os lines w) (format_event os evt)
        (format_all (events lines)) (λ t. rest (extended v 1 true (t ∷ [])) refl))
  decoded_ready (some null) lines h rest v r = absurd h
  decoded_ready (some (bool b)) lines h rest v r = absurd h
  decoded_ready (some (int b)) lines h rest v r = absurd h
  decoded_ready (some (real b)) lines h rest v r = absurd h
  decoded_ready (some (str b)) lines h rest v r = absurd h
  decoded_ready (some (arr b)) lines h rest v r = absurd h

  abbrev initial : Bool → View
  initial ready = record { n_events = 0; ready_seen = ready; printed = [] }

  zero_add : (n : ℕ) → 0 + n ≡ n
  zero_add n = omega arith

  add_zero : (n : ℕ) → n ≡ n + 0
  add_zero n = omega arith

  same : (v : View) → v.ready_seen ≡ true → v ≡ extended v 0 true []
  same v r = λ i. record {
    n_events = add_zero v.n_events i;
    ready_seen = r i;
    printed = sym (append-nil v.printed) i;
  }

  show_ready : (lines : List Text) → AreEvents lines → ShowsAll lines
  unfolding ShowsAll show_lines show_line
  show_ready [] h v r = ap (λ w. ok w) (same v r)
  show_ready (line ∷ lines) h v r = decoded_ready (loads line) lines h.0 (show_ready lines h.1) v r

  -- What is shown once the events that are decoded are these.
  shown_from : View → List Fields → Result View
  shown_from v evts = format_all (from_accept evts) >>= λ texts.
      ok (extended v (length evts) (any is_accept4 evts) (opening evts ++ texts))

  one_more :
      (v : View) (m : ℕ) (ready : Bool) (front : List Text) (rs : Result (List Text))
      → (rs >>= λ ts. ok (extended (record v { n_events = v.n_events + 1 }) m ready (front ++ ts)))
        ≡ (rs >>= λ ts. ok (extended v (suc m) ready (front ++ ts)))
  one_more v m ready front (raise e) = refl
  one_more v m ready front (ok ts) =
      ap
        (λ n.
          ok (record { n_events = n; ready_seen = ready; printed = v.printed ++ (front ++ ts) }))
        (omega arith)

  abbrev accepted : View → View
  accepted v = record v { printed = v.printed ++ banner ∷ [] }

  accepted-extended :
      (v : View) (m : ℕ) (rs : Result (List Text))
      → (rs >>= λ ts. ok (extended (accepted v) m true ts))
        ≡ (rs >>= λ ts. ok (extended v m true (banner ∷ ts)))
  accepted-extended v m (raise e) = refl
  accepted-extended v m (ok ts) =
      ap (λ texts. ok (record { n_events = v.n_events + m; ready_seen = true; printed = texts }))
        (append_assoc v.printed (banner ∷ []) ts)

  ShowsFrom : List Text → Type 0
  ShowsFrom lines =
      (v : View) → v.ready_seen ≡ false → show_lines os lines v ≡ shown_from v (events lines)

  object_waiting :
      (evt : Fields) (lines : List Text)
      → ShowsAll lines
      → ShowsFrom lines
      → (v : View) → v.ready_seen ≡ false
      → (show_decoded os (some (obj evt)) v >>= λ w. show_lines os lines w)
        ≡ shown_from v (evt ∷ events lines)
  unfolding ShowsAll ShowsFrom show_decoded show_event print_event shown_from
  object_waiting evt lines all rest v r = elim (Bool-cases (is_accept4 evt)) [
    | inl accept ↦
        rw (r, accept)
          (print_then (accepted v) (length (events lines)) (λ w. show_lines os lines w)
              (format_event os evt) (format_all (events lines)) (λ t. all _ refl)
            ∙ accepted-extended v (suc (length (events lines))) (format_all (evt ∷ events lines)))
    | inr other ↦
        rw (r, other)
          (rest (record { n_events = v.n_events + 1; ready_seen = false; printed = v.printed }) refl
            ∙ one_more v (length (events lines)) (any is_accept4 (events lines))
                (opening (events lines)) (format_all (from_accept (events lines))))
  ]

  decoded_waiting :
      (d : Option Json) (lines : List Text)
      → IsEvent d
      → ShowsAll lines
      → ShowsFrom lines
      → (v : View) → v.ready_seen ≡ false
      → (show_decoded os d v >>= λ w. show_lines os lines w)
        ≡ shown_from v (event_of d ++ events lines)
  unfolding ShowsFrom show_decoded
  decoded_waiting none lines h all rest v r = rest v r
  decoded_waiting (some (obj evt)) lines h all rest v r = object_waiting evt lines all rest v r
  decoded_waiting (some null) lines h all rest v r = absurd h
  decoded_waiting (some (bool b)) lines h all rest v r = absurd h
  decoded_waiting (some (int b)) lines h all rest v r = absurd h
  decoded_waiting (some (real b)) lines h all rest v r = absurd h
  decoded_waiting (some (str b)) lines h all rest v r = absurd h
  decoded_waiting (some (arr b)) lines h all rest v r = absurd h

  show_waiting : (lines : List Text) → AreEvents lines → ShowsFrom lines
  unfolding ShowsFrom show_lines show_line shown_from
  show_waiting [] h v r = λ i. ok (record {
    n_events = add_zero v.n_events i;
    ready_seen = r i;
    printed = sym (append-nil v.printed) i;
  })
  show_waiting (line ∷ lines) h v r =
      decoded_waiting (loads line) lines h.0 (show_ready lines h.1) (show_waiting lines h.1) v r

  -- The live view over lines that are objects or do not decode: every line that decodes is counted.
  -- With `--show-after-ready` the banner and the lines of the events from the first accept4 on are
  -- printed, and nothing before; without it the lines of all events. If formatting one of these
  -- events raises, so does the view.
  pub run_interactive_lem :
      (lines : List Text)
      → AreEvents lines
      → (run_interactive os true lines ≡ (
          format_all (from_accept (events lines)) >>= λ texts. ok (record {
            n_events = length (events lines);
            ready_seen = any is_accept4 (events lines);
            printed = opening (events lines) ++ texts;
          })))
        × (run_interactive os false lines ≡ (
            format_all (events lines) >>= λ texts.
            ok (record { n_events = length (events lines); ready_seen = true; printed = texts })))
  unfolding run_interactive ShowsFrom ShowsAll shown_from
  run_interactive_lem lines h = (
    show_waiting lines h (initial false) refl
        ∙ ap
            (λ n. format_all (from_accept (events lines)) >>= λ texts. ok (record {
              n_events = n;
              ready_seen = any is_accept4 (events lines);
              printed = opening (events lines) ++ texts;
            }))
            (zero_add (length (events lines))),
    show_ready lines h (initial true) refl
        ∙ ap
            (λ n. format_all (events lines) >>= λ texts.
              ok (record { n_events = n; ready_seen = true; printed = texts }))
            (zero_add (length (events lines))),
  )

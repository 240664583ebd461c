-- ===== src/Loop/Append/Ledger.antt =====
-- run.go: appendWith against what appending a list of inputs is to leave, on every error path.
use agentturn.Base.{
  true, false, List, [], ◌∷◌, ◌++◌, Option, some, Result, ok, err, ◌≡◌, refl, sym, ap, ◌∙◌, subst,
  arith, Bool-cases, Option-cases, inl, inr, ◌⊎◌,
}
use agentturn.Items.{Input, plain, marked, is_nil_input, Trigger, marks, provenance}
use agentturn.Loop.{InputMode, Event, item_start, item_end, Halt, fault, Runner, State}
use agentturn.Loop.Append.{appended, append_one, append_with, bind_ok, bind_err}
use agentturn.Loop.Append.Grown.{
  live, grown, start_of, end_of, grown-nil, grown-live, appended-grown, nothing-grown,
}

module _ {W Err : Type 0} (send : Event Err → W → Option Err × W) (mode : InputMode)
    (t end_t : Trigger) where
  -- The error, and the state, are those with which a subscriber refused the event.
  abbrev pub Refused : Event Err → Result (Halt Err) (Unit {0}) × State W → Type 0
  Refused ev (res, s) =
      (x : Err) × (w : W) × (res ≡ err (fault x)) × (send ev w ≡ (some x, s.world))

  -- An append refused at its start leaves the runner; one refused at its end does not.
  abbrev Step : Input → Runner → Result (Halt Err) (Unit {0}) × State W → Type 0
  Step i r (res, s) =
      (Refused (start_of i) (res, s) × (s.run ≡ r))
      ⊎ ((s.run ≡ appended i mode t end_t r) × ((res ≡ ok tt) ⊎ Refused (end_of end_t i) (res, s)))

  Step-append_one :
      (i : Input) (s : State W)
      → is_nil_input i ≡ false
      → start_of {Err = Err} i ≡ item_start (marks i).0 (marks i).1 (marks i).2 (provenance i)
      → end_of {Err = Err} end_t i
        ≡ item_end (marks i).0 (marks i).1 (marks i).2 end_t (provenance i)
      → Step i s.run (append_one send i mode t end_t s)
  unfolding append_one
  Step-append_one i s live_i starts ends =
      let w1 = (send (start_of i) s.world).1 in
      elim (Option-cases (send (start_of i) s.world).0) [
        | inl e ↦ elim (Option-cases (send (end_of end_t i) w1).0) [
          | inl f ↦ inr (
            ground (arith, live_i, starts, ends, e, f),
            inl (ground (arith, live_i, starts, ends, e, f)),
          )
          | inr (x, f) ↦ inr (
            ground (arith, live_i, starts, ends, e, f),
            inr (
              x,
              w1,
              ground (arith, live_i, starts, ends, e, f),
              ground (arith, live_i, starts, ends, e, f),
            ),
          )
        ]
        | inr (x, e) ↦ inl (
          (x, s.world, ground (arith, live_i, starts, e), ground (arith, live_i, starts, e)),
          ground (arith, live_i, starts, e),
        )
      ]

  -- Why an append of some inputs, and not of the rest, is over.
  abbrev Ends : List Input → List Input → Result (Halt Err) (Unit {0}) × State W → Type 0
  Ends done rest out =
      ((rest ≡ []) × (out.0 ≡ ok tt))
      ⊎ ((i : Input) × (later : List Input) × (rest ≡ i ∷ later)
          × (is_nil_input i ≡ false)
          × Refused (start_of i) out)
      ⊎ ((before : List Input) × (i : Input) × (done ≡ before ++ i ∷ [])
          × (is_nil_input i ≡ false)
          × Refused (end_of end_t i) out)

  -- What an append of `items` leaves: those before some point are in, and why it is over.
  abbrev pub Appended : List Input → Runner → Result (Halt Err) (Unit {0}) × State W → Type 0
  Appended items r (res, s) =
      (done : List Input) × (rest : List Input) × (items ≡ done ++ rest)
      × (s.run ≡ grown mode t end_t (live done) r)
      × Ends done rest (res, s)

  module _ (i : Input) (items : List Input) (s : State W) where
    append_with_nil :
        is_nil_input i ≡ true
        → append_with send (i ∷ items) mode t end_t s ≡ append_with send items mode t end_t s
    unfolding append_with append_one
    append_with_nil n =
        bind_ok (append_one send i mode t end_t) (λ _. append_with send items mode t end_t) s
          (ap (λ r. r.0) skipped)
        ∙ ap (λ r. append_with send items mode t end_t r.1) skipped
      where
        skipped : append_one send i mode t end_t s ≡ (ok tt, s)
        skipped = ground (arith, n)

    append_with_ok :
        (append_one send i mode t end_t s).0 ≡ ok tt
        → append_with send (i ∷ items) mode t end_t s
          ≡ append_with send items mode t end_t (append_one send i mode t end_t s).1
    unfolding append_with
    append_with_ok o =
        bind_ok (append_one send i mode t end_t) (λ _. append_with send items mode t end_t) s o

    append_with_err :
        {x : Halt Err}
        → (append_one send i mode t end_t s).0 ≡ err x
        → append_with send (i ∷ items) mode t end_t s
          ≡ (err x, (append_one send i mode t end_t s).1)
    unfolding append_with
    append_with_err o =
        bind_err (append_one send i mode t end_t) (λ _. append_with send items mode t end_t) s o

  Ends-step :
      (i : Input) (done rest : List Input) (out : Result (Halt Err) (Unit {0}) × State W)
      → Ends done rest out
      → Ends (i ∷ done) rest out
  Ends-step i done rest out (inl h) = inl h
  Ends-step i done rest out (inr (inl h)) = inr (inl h)
  Ends-step i done rest out (inr (inr (before, j, e, n, h))) =
      inr (inr (i ∷ before, j, ap (◌∷◌ i) e, n, h))

  Appended-step :
      (i : Input) (items : List Input) (r r1 : Runner)
      (out : Result (Halt Err) (Unit {0}) × State W)
      → r1 ≡ grown mode t end_t (live (i ∷ [])) r
      → Appended items r1 out
      → Appended (i ∷ items) r out
  Appended-step i items r r1 (res, s) e (done, rest, split, ran, ends) = (
    i ∷ done,
    rest,
    ap (◌∷◌ i) split,
    ran ∙ ap (grown mode t end_t (live done)) e ∙ grown-live mode t end_t i done r,
    Ends-step i done rest (res, s) ends,
  )

  Step-input :
      (i : Input) (s : State W)
      → is_nil_input i ≡ false
      → Step i s.run (append_one send i mode t end_t s)
  unfolding marks provenance
  Step-input (plain item) s e = Step-append_one (plain item) s e refl refl
  Step-input (marked m) s e = Step-append_one (marked m) s e refl refl

  append_with-Appended_at :
      (items : List Input) (s : State W)
      → Appended items s.run (append_with send items mode t end_t s)
  unfolding append_with
  append_with-Appended_at [] s =
      ([], [], refl, sym (grown-nil mode t end_t s.run), inl (refl, refl))
  append_with-Appended_at (i ∷ items) s = elim (Bool-cases (is_nil_input i)) [
    | inl n ↦ subst (Appended (i ∷ items) s.run) (sym (append_with_nil i items s n)) (
        Appended-step i items s.run s.run (append_with send items mode t end_t s)
          (nothing-grown mode t end_t i s.run n) (append_with-Appended_at items s))
    | inr live_i ↦
        let next = append_one send i mode t end_t s in
        let one = appended-grown mode t end_t i s.run live_i in
        elim (Step-input i s live_i) [
          | inl ((x, w, e, refused), same) ↦
              subst (Appended (i ∷ items) s.run) (sym (append_with_err i items s e)) (
                [],
                i ∷ items,
                refl,
                same ∙ sym (grown-nil mode t end_t s.run),
                inr (inl (i, items, refl, live_i, (x, w, refl, refused))),
              )
          | inr (in_it, inl o) ↦
              subst (Appended (i ∷ items) s.run) (sym (append_with_ok i items s o)) (
                Appended-step i items s.run next.1.run (append_with send items mode t end_t next.1)
                  (in_it ∙ one) (append_with-Appended_at items next.1))
          | inr (in_it, inr (x, w, o, refused)) ↦
              subst (Appended (i ∷ items) s.run) (sym (append_with_err i items s o)) (
                i ∷ [],
                items,
                refl,
                in_it ∙ one,
                inr (inr ([], i, refl, live_i, (x, w, refl, refused))),
              )
        ]
  ]

-- Appending items, whatever the subscribers answer, puts some first ones of them, the nil ones left
-- out, at the end of the transcript, of the items added and, each with its mode and its own source or
-- the trigger, of the next turn's inputs, and those of the person among its messages; the rest of the
-- runner stays. They are all of them and it succeeds; or a subscriber refused the start of the next
-- one, or the end of the last one that is in, and its error is what the append returns.
pub append_with-Appended :
    {W Err : Type 0} (send : Event Err → W → Option Err × W) (items : List Input) (mode : InputMode)
    (t end_t : Trigger) (s : State W)
    → Appended send mode t end_t items s.run (append_with send items mode t end_t s)
append_with-Appended send items mode t end_t s = append_with-Appended_at send mode t end_t items s

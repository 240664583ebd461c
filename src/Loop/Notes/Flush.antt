-- ===== src/Loop/Notes/Flush.antt =====
-- run.go: flushing the notes loses none and appends none twice, on every path.
use agentturn.Base.{
  ℕ, true, false, List, [], ◌∷◌, ◌++◌, Option, none, Result, ok, err, if◌then◌else◌, length-append,
  ◌≡◌, refl, sym, ap, ◌∙◌, subst, arith, append-nil, append_assoc, Bool-cases, Option-cases,
  Result-cases, inl, inr, ◌⊎◌,
}
use agentturn.Items.{Item, plain, Trigger, zero_trigger, is_nil, nil, at}
use agentturn.Loop.{fault, InputMode, Note, Event, item_start, item_end, Runner, State, Halt}
use agentturn.Loop.Append.{appended, append_one, bind_ok, bind_err}
use agentturn.Loop.Notes.{report_notes, flush_one, flush_from, flush_notes}

-- The items of the notes that are not nil.
pub live_items : List Note → List Item
live_items [] = []
live_items (n ∷ ns) = if is_nil n.item then live_items ns else n.item ∷ live_items ns

live_items-append : (xs ys : List Note) → live_items (xs ++ ys) ≡ live_items xs ++ live_items ys
unfolding live_items
live_items-append [] ys = refl
live_items-append (n ∷ xs) ys = ground (arith, live_items-append xs ys)

module _ {W Err : Type 0} (send : Event Err → W → Option Err × W) where
  -- The four ends of an append of a plain item: refused at its start, with nothing appended; or
  -- appended, whether or not its end is then refused.
  abbrev Appends : Item → Trigger → Runner → Result (Halt Err) (Unit {0}) × State W → Type 0
  Appends i t r (res, s) =
      ((e : Halt Err) × (res ≡ err e) × (s.run ≡ r))
      ⊎ ((s.run.transcript ≡ r.transcript ++ i ∷ [])
          × (s.run.notes ≡ r.notes)
          × (s.run.added ≡ r.added ++ i ∷ []))

  append_one-Appends :
      (r : ℕ) (b : _) (mode : InputMode) (t : Trigger) (s : State W)
      → Appends (at r b) t s.run (append_one send (plain (at r b)) mode zero_trigger t s)
  unfolding append_one appended
  append_one-Appends r b mode t s =
      elim (Option-cases (send (item_start (at r b) false false none) s.world).0) [
        | inl e ↦
            elim (Option-cases
              (send (item_end (at r b) false false t none)
                (send (item_start (at r b) false false none) s.world).1).0) [
                  | inl f ↦ inr (ground (arith, e, f))
                  | inr (x, f) ↦ inr (ground (arith, e, f))
                ]
        | inr (x, e) ↦ inl (fault x, ground (arith, e), ground (arith, e))
      ]

  -- Where flushing `ns` can end: `pre` went to the transcript, nil notes left out, `post` is what
  -- still waits, and something waits only after an error.
  abbrev pub Flushed : List Note → Runner → Result (Halt Err) (Unit {0}) × State W → Type 0
  Flushed ns r (res, s) =
      (pre : List Note) × (post : List Note) × (ns ≡ pre ++ post)
      × (s.run.notes ≡ post)
      × (s.run.transcript ≡ r.transcript ++ live_items pre)
      × ((post ≡ []) ⊎ ((e : Halt Err) × (res ≡ err e)))

  report_notes-Flushed : (s : State W) → s.run.notes ≡ [] → Flushed [] s.run (report_notes send s)
  unfolding report_notes live_items
  report_notes-Flushed s e =
      ([], [], refl, ground (arith, e), ground (arith, append-nil s.run.transcript), inl refl)

  -- The first note: refused, and waiting still, or gone to the transcript.
  append_live :
      (n : Note) (s : State W)
      → is_nil n.item ≡ false
      → Appends n.item n.trigger s.run
          (append_one send (plain n.item) n.mode zero_trigger n.trigger s)
  append_live n s live = go n.item live
    where
      go :
          (i : Item)
          → is_nil i ≡ false
          → Appends i n.trigger s.run (append_one send (plain i) n.mode zero_trigger n.trigger s)
      go nil l = cc
      go (at r b) l = append_one-Appends r b n.mode n.trigger s

  flush_one_cases :
      (n : Note) (rest : List Note) (s : State W)
      → s.run.notes ≡ n ∷ rest
      → is_nil n.item ≡ false
      → ((e : Halt Err) × ((flush_one send n rest s).0 ≡ err e)
          × ((flush_one send n rest s).1.run.notes ≡ n ∷ rest)
          × ((flush_one send n rest s).1.run.transcript ≡ s.run.transcript))
        ⊎ (((flush_one send n rest s).1.run.notes ≡ rest)
            × ((flush_one send n rest s).1.run.transcript ≡ s.run.transcript ++ n.item ∷ []))
  unfolding flush_one
  flush_one_cases n rest s q live = elim (append_live n s live) [
    | inl (x, e, same) ↦ inl (x, ground (arith, e), ground (arith, e, same), ground (arith, same))
    | inr (grown, kept, _) ↦ inr (
      ground (arith, grown, length-append s.run.transcript (n.item ∷ [])),
      ground (arith, grown, length-append s.run.transcript (n.item ∷ [])),
    )
  ]

  Flushed-step :
      (n : Note) (ns : List Note) (r r1 : Runner) (out : Result (Halt Err) (Unit {0}) × State W)
      → r1.transcript ≡ r.transcript ++ live_items (n ∷ [])
      → Flushed ns r1 out
      → Flushed (n ∷ ns) r out
  Flushed-step n ns r r1 (res, s) t (pre, post, split, kept, grown, ends) = (
    n ∷ pre,
    post,
    ap (◌∷◌ n) split,
    kept,
    grown
        ∙ ap (λ xs. xs ++ live_items pre) t
        ∙ append_assoc r.transcript (live_items (n ∷ [])) (live_items pre)
        ∙ ap (λ xs. r.transcript ++ xs) (sym (live_items-append (n ∷ []) pre)),
    ends,
  )

  module _ (n : Note) (rest : List Note) (s : State W) where
    flush_dead :
        is_nil n.item ≡ true
        → flush_from send (n ∷ rest) s
          ≡ flush_from send rest (record s { run = record (s.run) { notes = rest } })
    unfolding flush_from
    flush_dead dead = rw dead refl

    flush_live :
        is_nil n.item ≡ false
        → (flush_one send n rest s).0 ≡ ok tt
        → flush_from send (n ∷ rest) s ≡ flush_from send rest (flush_one send n rest s).1
    unfolding flush_from
    flush_live live o = rw live (bind_ok (flush_one send n rest) (λ _. flush_from send rest) s o)

    flush_refused :
        {x : Halt Err}
        → is_nil n.item ≡ false
        → (flush_one send n rest s).0 ≡ err x
        → flush_from send (n ∷ rest) s ≡ (err x, (flush_one send n rest s).1)
    unfolding flush_from
    flush_refused live o =
        rw live (bind_err (flush_one send n rest) (λ _. flush_from send rest) s o)

  live_item : (n : Note) → is_nil n.item ≡ false → live_items (n ∷ []) ≡ n.item ∷ []
  unfolding live_items
  live_item n e = ground (arith, e)

  dead_item : (n : Note) → is_nil n.item ≡ true → live_items (n ∷ []) ≡ []
  unfolding live_items
  dead_item n e = ground (arith, e)

  flush_from-Flushed :
      (ns : List Note) (s : State W) → s.run.notes ≡ ns → Flushed ns s.run (flush_from send ns s)
  unfolding flush_from
  flush_from-Flushed [] s e = report_notes-Flushed s e
  flush_from-Flushed (n ∷ rest) s e = elim (Bool-cases (is_nil n.item)) [
    | inl dead ↦ subst (Flushed (n ∷ rest) s.run) (sym (flush_dead n rest s dead)) (
        Flushed-step n rest s.run (record (s.run) { notes = rest })
          (flush_from send rest (record s { run = record (s.run) { notes = rest } }))
          (rw (dead_item n dead, append-nil) refl)
          (flush_from-Flushed rest (record s { run = record (s.run) { notes = rest } }) refl))
    | inr live ↦ elim (flush_one_cases n rest s e live) [
      | inl (x, f, waits, same) ↦
          subst (Flushed (n ∷ rest) s.run) (sym (flush_refused n rest s live f))
            ([], n ∷ rest, refl, waits, unfold live_items in rw append-nil same, inr (x, refl))
      | inr (gone, grown) ↦
          let grown' = grown ∙ ap (λ xs. s.run.transcript ++ xs) (sym (live_item n live)) in
          elim (Result-cases (flush_one send n rest s).0) [
            | inl (tt', o) ↦ subst (Flushed (n ∷ rest) s.run) (sym (flush_live n rest s live o)) (
                Flushed-step n rest s.run (flush_one send n rest s).1.run
                  (flush_from send rest (flush_one send n rest s).1) grown'
                  (flush_from-Flushed rest (flush_one send n rest s).1 gone))
            | inr (x, o) ↦
                subst (Flushed (n ∷ rest) s.run) (sym (flush_refused n rest s live o))
                  (n ∷ [], rest, refl, gone, grown', inr (x, refl))
          ]
    ]
  ]

-- Flushing the notes ends, whatever the subscribers answer, with the notes split in two: the first
-- ones stand at the end of the transcript, in order and once each, nil notes left out, the others
-- still wait, and some wait only if a subscriber's error ended the flush.
pub flush_notes-Flushed :
    {W Err : Type 0} (send : Event Err → W → Option Err × W) (s : State W)
    → Flushed send s.run.notes s.run (flush_notes send s)
unfolding flush_notes
flush_notes-Flushed send s = flush_from-Flushed send s.run.notes s refl

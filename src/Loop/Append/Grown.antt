-- ===== src/Loop/Append/Grown.antt =====
-- run.go: what appending a list of inputs is to leave of the runner, stated from the inputs, and that
-- the append of one of them leaves it.
use agentturn.Base.{
  true, false, not, List, [], ◌∷◌, ◌++◌, map, keep, Option, none, some, if◌then◌else◌, append_assoc,
  append-nil, ◌≡◌, refl, sym, ap, Bool-cases, inl, inr,
}
use agentturn.Items.{
  Input, plain, marked, is_nil_input, is_zero, Trigger, Provenance, marks, provenance,
}
use agentturn.Items.Marks.{base}
use agentturn.Persons.{PersonMessages, add}
use agentturn.Loop.{InputMode, TurnInput, Event, item_start, item_end, Runner}
use agentturn.Loop.Append.{own_trigger, appended}

-- The inputs that are not nil.
abbrev pub live : List Input → List Input
live items = keep (λ i. not (is_nil_input i)) items

-- The source that an input's provenance names, unless it is the zero one, and else the trigger.
abbrev pub source_or : Trigger → Option Provenance → Trigger
source_or t none = t
source_or t (some p) = if is_zero p.source then t else p.source

-- What the next turn is told of an input.
abbrev pub arrival : InputMode → Trigger → Input → TurnInput
arrival mode t (plain item) = record { item = plain item; mode = mode; trigger = t }
arrival mode t (marked m) = record {
  item = plain m.item;
  mode = mode;
  trigger = source_or t m.prov;
}

abbrev either : Trigger → Trigger → Trigger
either t end_t = if is_zero t then end_t else t

-- The messages of the person, with the input among them where it is one.
abbrev recorded : Trigger → Trigger → PersonMessages → Input → PersonMessages
recorded t end_t persons (plain item) = add persons item (either t end_t) none false false
recorded t end_t persons (marked m) =
    add persons m.item (either (source_or t m.prov) end_t) m.prov m.hidden m.copied

abbrev pub recorded_all : Trigger → Trigger → PersonMessages → List Input → PersonMessages
recorded_all t end_t persons [] = persons
recorded_all t end_t persons (i ∷ items) = recorded_all t end_t (recorded t end_t persons i) items

-- The runner with the inputs at the end of each of its lists, and all else as it was.
abbrev pub grown : InputMode → Trigger → Trigger → List Input → Runner → Runner
grown mode t end_t items r = record r {
  transcript = r.transcript ++ map base items;
  added = r.added ++ map base items;
  arrived = r.arrived ++ map (arrival mode t) items;
  persons = recorded_all t end_t r.persons items;
}

-- The events of an input.
abbrev pub start_of : {Err : Type 0} → Input → Event Err
start_of (plain item) = item_start item false false none
start_of (marked m) = item_start m.item m.hidden m.copied m.prov

abbrev pub end_of : {Err : Type 0} → Trigger → Input → Event Err
end_of end_t (plain item) = item_end item false false end_t none
end_of end_t (marked m) = item_end m.item m.hidden m.copied end_t m.prov

source_or-own_trigger : (t : Trigger) (p : Option Provenance) → own_trigger p t ≡ source_or t p
source_or-own_trigger t none = refl
source_or-own_trigger t (some p) = refl

module _ (mode : InputMode) (t end_t : Trigger) where
  pub grown-nil : (r : Runner) → grown mode t end_t [] r ≡ r
  grown-nil r = rw (append-nil r.transcript, append-nil r.added, append-nil r.arrived) refl

  grown-append :
      (i : Input) (items : List Input) (r : Runner)
      → grown mode t end_t items (grown mode t end_t (i ∷ []) r) ≡ grown mode t end_t (i ∷ items) r
  grown-append i items r =
      rw
        (
          append_assoc r.transcript (base i ∷ []) (map base items),
          append_assoc r.added (base i ∷ []) (map base items),
          append_assoc r.arrived (arrival mode t i ∷ []) (map (arrival mode t) items),
        )
        refl

  pub grown-live :
      (i : Input) (items : List Input) (r : Runner)
      → grown mode t end_t (live items) (grown mode t end_t (live (i ∷ [])) r)
        ≡ grown mode t end_t (live (i ∷ items)) r
  grown-live i items r = elim (Bool-cases (is_nil_input i)) [
    | inl e ↦ rw e (ap (grown mode t end_t (live items)) (grown-nil r))
    | inr e ↦ rw e (grown-append i (live items) r)
  ]

  pub appended-grown :
      (i : Input) (r : Runner)
      → is_nil_input i ≡ false
      → appended i mode t end_t r ≡ grown mode t end_t (live (i ∷ [])) r
  unfolding appended marks provenance is_zero
  appended-grown (plain item) r e = rw e refl
  appended-grown (marked m) r e = rw (source_or-own_trigger t m.prov) refl

  pub nothing-grown :
      (i : Input) (r : Runner) → is_nil_input i ≡ true → r ≡ grown mode t end_t (live (i ∷ [])) r
  nothing-grown i r e = rw e (sym (grown-nil r))

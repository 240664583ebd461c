-- ===== src/Batch/Said.antt =====
-- run.go: the notes said under the calls of a batch: sayUnder, holdNotesOf, holdStrays, batchCall.
use agentturn.Base.{
  Bool, true, false, not, List, [], ◌∷◌, ◌++◌, Option, none, some, String, ◌==◌, String-Comparable,
  if◌then◌else◌, contains, add_key, lookup, keep,
}
use agentturn.Items.{Item, zero_trigger}
use agentturn.Loop.{tool, Note, Runner, Said, State}
use agentturn.Loop.Notes.{hold}
use agentturn.Loop.Pending.{id_of}
use agentturn.Batch.{Spoken, Call}

abbrev first_of_batch : Said → List String → String
first_of_batch d [] = ""
first_of_batch d (c ∷ ids) = elim (lookup c d.roots) [
  | some root ↦ root
  | none ↦ if contains d.batch_calls c then c else first_of_batch d ids
]

abbrev first_named : List String → String
first_named [] = "-"
first_named (c ∷ ids) = if c == "" then first_named ids else c

unfoldable pub said_under : Said → List String → String
said_under d ids = let id = first_of_batch d ids in if id == "" then first_named ids else id

abbrev add_note : String → Item → List (String × List Item) → List (String × List Item)
add_note id note [] = (id, note ∷ []) ∷ []
add_note id note ((k, notes) ∷ entries) =
    if k == id then (k, notes ++ note ∷ []) ∷ entries else (k, notes) ∷ add_note id note entries

abbrev has_notes : String → List (String × List Item) → Bool
has_notes id [] = false
has_notes id ((k, notes) ∷ entries) = if k == id then true else has_notes id entries

unfoldable pub say_under : Spoken → Said → Said
unfolding said_under
say_under sp d =
    let id = said_under d sp.ids in
    record d {
      note_keys = if has_notes id d.call_notes then d.note_keys else d.note_keys ++ id ∷ [];
      call_notes = add_note id sp.note d.call_notes;
    }

unfoldable pub say_all : List Spoken → Said → Said
unfolding say_under
say_all [] d = d
say_all (sp ∷ spoken) d = say_all spoken (say_under sp d)

-- What a hook said, and the world it leaves.
unfoldable pub heard : {W : Type 0} → List Spoken × W → State W → State W
unfolding say_all
heard (spoken, w) s = record s {
  run = record (s.run) { said = say_all spoken s.run.said };
  world = w;
}

-- `r.batchCalls[id] = true`
unfoldable pub batch_call : String → Runner → Runner
batch_call id r = record r {
  said = record (r.said) { batch_calls = add_key id r.said.batch_calls };
}

notes_under : String → List (String × List Item) → List Item
notes_under id entries = elim (lookup id entries) [ none ↦ [] | some notes ↦ notes ]

abbrev remove_notes : String → List (String × List Item) → List (String × List Item)
remove_notes id entries = keep (λ e. not (e.0 == id)) entries

module _ (json : Item → Option String) where
  hold_items : String → List Item → Runner → Runner
  unfolding hold
  hold_items id [] r = r
  hold_items id (item ∷ items) r =
      hold_items id items
        (hold json (record { item = item; mode = tool; trigger = zero_trigger; call_id = id }) r)

  -- A call's own notes, with the call's ID.
  hold_own : String → List Note → Runner → Runner
  unfolding hold
  hold_own id [] r = r
  hold_own id (n ∷ notes) r = hold_own id notes (hold json (record n { call_id = id }) r)

  unfoldable pub hold_notes_of : {Err : Type 0} → Call Err → Runner → Runner
  unfolding hold_own hold_items notes_under
  hold_notes_of p r =
      let id = id_of p.call in
      let r1 = hold_own id p.notes r in
      let noted = notes_under id r1.said.call_notes in
      hold_items id noted (record r1 {
        said = record (r1.said) {
          call_notes = remove_notes id r1.said.call_notes;
          note_keys = keep (λ k. not (k == id)) r1.said.note_keys;
        };
      })

  hold_keys : List String → List (String × List Item) → Runner → Runner
  unfolding hold_items notes_under
  hold_keys [] stray r = r
  hold_keys (id ∷ keys) stray r =
      hold_keys keys stray (hold_items (if id == "-" then "" else id) (notes_under id stray) r)

  unfoldable pub hold_strays : Runner → Runner
  unfolding hold_keys
  hold_strays r =
      hold_keys r.said.note_keys r.said.call_notes
        (record r { said = record (r.said) { note_keys = []; call_notes = [] } })

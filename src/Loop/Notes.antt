-- ===== src/Loop/Notes.antt =====
-- run.go: the notes that wait on a call's output: hold, notesHeld and flushNotes.
pub mod Flush
use agentturn.Base.{
  ℕ, Bool, true, false, not, ◌&&◌, ◌||◌, List, [], ◌∷◌, ◌++◌, Option, none, some, String, Result,
  ok, err, ◌==◌, String-Comparable, Nat-Comparable, if◌then◌else◌, any, ltb, length,
}
use agentturn.Items.{Item, Input, plain, Trigger, zero_trigger, is_nil, same_item}
use agentturn.Loop.{
  InputMode, prompt, resume, steered, follow_up, deliver, hook, tool, continued, Note, Event,
  notes_held, Runner, State, Act,
}
use agentturn.Loop.Append.{◌>>=◌, ◌>>◌, pure, get, put, emit, append_one, same_note_item}

-- The modes are texts in the program; they are told apart by number here.
abbrev mode_number : InputMode → ℕ
mode_number prompt = 0
mode_number resume = 1
mode_number steered = 2
mode_number follow_up = 3
mode_number deliver = 4
mode_number hook = 5
mode_number tool = 6
mode_number continued = 7

unfoldable pub same_note : Note → Note → Bool
same_note a b =
    a.call_id == b.call_id && mode_number a.mode == mode_number b.mode && same_item a.item b.item

-- slices.EqualFunc
unfoldable pub same_notes : List Note → List Note → Bool
unfolding same_note
same_notes [] [] = true
same_notes (a ∷ xs) (b ∷ ys) = same_note a b && same_notes xs ys
same_notes [] (b ∷ ys) = false
same_notes (a ∷ xs) [] = false

-- Holds a note unless the call's notes have it.
unfoldable pub hold : (Item → Option String) → Note → Runner → Runner
hold json n r =
    let same = λ (h : Note).
      h.call_id == n.call_id
      && mode_number h.mode == mode_number n.mode
      && same_note_item json h.item n.item in
    if any same r.notes then r else record r { notes = r.notes ++ n ∷ [] }

module _ {W Err : Type 0} (send : Event Err → W → Option Err × W) where
  unfoldable pub report_notes : Act W Err (Unit {0})
  unfolding same_notes emit
  report_notes s =
      let changed : Act W Err (Unit {0}) = do
        emit send (notes_held s.run.notes)
        r ← get
        put (record r { reported = r.notes })
      in if same_notes s.run.notes s.run.reported then (ok tt, s) else changed s

  -- What the loop of flushNotes does for its first note: the note goes once the transcript grew.
  unfoldable pub flush_one : Note → List Note → Act W Err (Unit {0})
  unfolding append_one
  flush_one n rest s =
      let (r, s') = append_one send (plain n.item) n.mode zero_trigger n.trigger s in
      let grown = ltb (length s.run.transcript) (length s'.run.transcript) in
      (r, if grown then record s' { run = record (s'.run) { notes = rest } } else s')

  abbrev pub drop_note : List Note → Act W Err (Unit {0})
  drop_note rest s = (ok tt, record s { run = record (s.run) { notes = rest } })

  unfoldable pub flush_from : List Note → Act W Err (Unit {0})
  flush_from [] = report_notes
  flush_from (n ∷ rest) = do
    if is_nil n.item then drop_note rest else flush_one n rest
    flush_from rest

  unfoldable pub flush_notes : Act W Err (Unit {0})
  unfolding flush_from flush_one report_notes
  flush_notes s = flush_from s.run.notes s

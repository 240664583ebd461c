-- ===== src/Agent/Notes.antt =====
-- agent.go: mergePending, keepNotes and keepOwed, as SetTranscript and WithPending use them.
pub mod Laws
pub mod Derived
use agentturn.Base.{
  ℕ, zero, suc, Bool, true, false, not, ◌&&◌, List, [], ◌∷◌, ◌++◌, map, Option, none, some, String,
  ◌==◌, String-Comparable, if◌then◌else◌, contains, keep, is_empty,
}
use agentturn.Items.{Item, nil, at, Body, function_call, is_nil, call_id_of}
use agentturn.Loop.{Note, PendingCall, PendingReason, unknown}
use agentturn.Loop.Pending.{id_of, name_of, arguments_of, answered, unanswered_calls}

unfoldable pub live_notes : List Note → List Note
live_notes notes = keep (λ n. not (is_nil n.item)) notes

-- `byID`: the last of an ID stands, one without its call is left out.
unfoldable pub find_known : String → List PendingCall → Option PendingCall
find_known id [] = none
find_known id (p ∷ known) = elim (find_known id known) [
  | some q ↦ some q
  | none ↦ elim (call_id_of p.call) [ none ↦ none | some i ↦ if i == id then some p else none ]
]

unfoldable pub merge_one : List PendingCall → PendingCall → PendingCall
unfolding find_known live_notes
merge_one known p = elim (find_known (id_of p.call) known) [
  | none ↦ p
  | some q ↦
      if name_of q.call == name_of p.call && arguments_of q.call == arguments_of p.call
      then record q { call = p.call; notes = live_notes q.notes }
      else p
]

unfoldable pub merge_pending : List PendingCall → List PendingCall → List PendingCall
unfolding merge_one
merge_pending pending known = map (merge_one known) pending

unfoldable pub all_notes : List PendingCall → List Note
all_notes [] = []
all_notes (p ∷ known) = p.notes ++ all_notes known

unfoldable pub known_ids : List PendingCall → List String
known_ids [] = []
known_ids (p ∷ known) = elim (call_id_of p.call) [
  | none ↦ known_ids known
  | some i ↦ i ∷ known_ids known
]

-- The loop that finds the last of the pending calls known before, from the index `i` on.
unfoldable pub last_known : List String → ℕ → Option ℕ → List PendingCall → Option ℕ
last_known ids i last [] = last
last_known ids i last (p ∷ pending) =
    last_known ids (suc i) (if contains ids (id_of p.call) then some i else last) pending

abbrev pub without_notes : List PendingCall → List PendingCall
without_notes [] = []
without_notes (p ∷ pending) = record p { notes = [] } ∷ without_notes pending

-- `pending[k].Notes = notes`
unfoldable pub write_notes : ℕ → List Note → List PendingCall → List PendingCall
write_notes k notes [] = []
write_notes zero notes (p ∷ pending) = record p { notes = notes } ∷ pending
write_notes (suc k) notes (p ∷ pending) = p ∷ write_notes k notes pending

unfoldable pub keep_notes : List PendingCall → List PendingCall → List PendingCall
unfolding all_notes known_ids last_known write_notes
keep_notes pending known =
    let notes = all_notes known in
    elim (last_known (known_ids known) 0 none pending) [
      | none ↦ without_notes pending
      | some k ↦
          if is_empty notes
          then without_notes pending
          else write_notes k notes (without_notes pending)
    ]

-- The owed notes whose output is in the transcript, and those about no call.
unfoldable pub keep_owed : List Note → List Item → List Note
unfolding answered
keep_owed notes t =
    keep (λ n. if n.call_id == "" then true else contains (answered t) n.call_id) notes

abbrev pub pending_calls : PendingReason → List Item → List PendingCall
pending_calls reason [] = []
pending_calls reason (call ∷ calls) =
    record {
      call = call;
      reason = reason;
      dispatched = false;
      idempotency_key = "";
      args = none;
      notes = [];
    }
    ∷ pending_calls reason calls

-- The pending calls that SetTranscript derives from a transcript.
unfoldable pub derive_pending : List Item → List PendingCall → List PendingCall
unfolding unanswered_calls merge_pending keep_notes
derive_pending t known =
    keep_notes (merge_pending (pending_calls unknown (unanswered_calls t)) known) known

-- ===== src/Loop/Pending.antt =====
-- run.go: what the loop reads off a transcript: whether a run can continue from it, the calls with
-- no output and why they have none, the input that no turn answered yet, and what the results of a
-- batch ask for.
pub mod Laws
pub mod Calls
use agentturn.Base.{
  ℕ, Bool, true, false, not, ◌&&◌, ◌||◌, List, [], ◌∷◌, ◌++◌, map, reverse, Option, none, some,
  String, ◌==◌, String-Comparable, Nat-Comparable, if◌then◌else◌, any, keep, contains, lookup,
  is_empty,
}
use agentturn.Items.{
  Item, nil, at, Body, message, function_call, function_call_output, reasoning, other, Role,
  assistant, Input, plain, marked, unhide_all, zero_trigger, call_id_of, output_id_of, same_item,
}
use agentturn.Loop.{
  InputMode, continued, TurnInput, Note, PendingCall, Held, HandOff, CallMarks, PendingReason,
  deferred, aborted, undispatched, unknown, StopCause, no_cause, terminate, partial_terminate,
  Source, from_input, from_resume,
}

abbrev is_assistant : Item → Bool
is_assistant (at r (message assistant text)) = true
is_assistant _ = false

-- CanContinue, by the last item.
abbrev last_item : Item → List Item → Item
last_item x [] = x
last_item x (y ∷ ys) = last_item y ys

abbrev continues : Item → Bool
continues (at r (message assistant text)) = false
continues (at r (message role text)) = true
continues (at r (function_call_output i o)) = true
continues _ = false

unfoldable pub can_continue : List Item → Bool
can_continue [] = false
can_continue (x ∷ t) = continues (last_item x t)

-- The IDs that the outputs of the transcript answer.
unfoldable pub answered : List Item → List String
answered [] = []
answered (item ∷ t) = elim (output_id_of item) [ none ↦ answered t | some id ↦ id ∷ answered t ]

abbrev pub open_call : List String → Item → Bool
open_call ids item = elim (call_id_of item) [ none ↦ false | some id ↦ not (contains ids id) ]

unfoldable pub unanswered_calls : List Item → List Item
unfolding answered
unanswered_calls t = keep (open_call (answered t)) t

-- Whether the model produced an item. `extension` is whether ItemType has a colon in it.
unfoldable pub model_produced : (String → Bool) → Item → Bool
model_produced extension nil = true
model_produced extension (at r (function_call_output i o)) = false
model_produced extension (at r (message assistant text)) = true
model_produced extension (at r (message role text)) = false
model_produced extension (at r (function_call i n a)) = true
model_produced extension (at r reasoning) = true
model_produced extension (at r (other type c)) = not (extension type)

-- `for start > 0 && !modelProduced(t[start-1]) { start-- }`, over the items before `start`, nearest
-- first, and those after it.
unfoldable pub step_back : (String → Bool) → List Item → List Item → List Item
unfolding model_produced
step_back extension [] after = after
step_back extension (x ∷ before) after =
    let more = step_back extension before (x ∷ after) in
    if model_produced extension x then after else more

abbrev pub continued_input : Item → TurnInput
continued_input item = record { item = plain item; mode = continued; trigger = zero_trigger }

unfoldable pub continued_inputs : (String → Bool) → List Item → List TurnInput
unfolding step_back
continued_inputs extension t = map continued_input (step_back extension (reverse t) [])

-- The loop of terminates, with what it has seen so far.
unfoldable pub count_terminates : Bool → Bool → List Bool → Bool × Bool
count_terminates some_do all_do [] = (some_do, all_do)
count_terminates some_do all_do (true ∷ results) = count_terminates true all_do results
count_terminates some_do all_do (false ∷ results) = count_terminates some_do false results

-- The results are given by whether they ask to terminate.
unfoldable pub terminates : List Bool → Option StopCause
unfolding count_terminates
terminates results =
    let (some_do, all_do) = count_terminates false (not (is_empty results)) results in
    if all_do then some terminate else if some_do then some partial_terminate else none

unfoldable pub may_have_run : PendingCall → Bool
may_have_run p = elim p.reason [
  | aborted ↦ true
  | unknown ↦ true
  | deferred ↦ p.dispatched
  | _ ↦ false
]

abbrev pub id_of : Item → String
id_of item = elim (call_id_of item) [ none ↦ "" | some id ↦ id ]

-- The map of the prior pending calls: the last of an ID stands.
unfoldable pub find_prior : String → List PendingCall → Option PendingCall
find_prior id [] = none
find_prior id (p ∷ ps) = elim (find_prior id ps) [
  | some q ↦ some q
  | none ↦ if id_of p.call == id then some p else none
]

abbrev pub name_of : Item → String
name_of (at r (function_call i n a)) = n
name_of _ = ""

abbrev pub arguments_of : Item → String
arguments_of (at r (function_call i n a)) = a
arguments_of _ = ""

-- `orEmpty(nil, own)`
abbrev pub or_braces : String → String
or_braces own = if own == "" then "{}" else own

unfoldable pub is_deferred : PendingReason → Bool
is_deferred deferred = true
is_deferred _ = false

module _ (same_args : String → String → Bool) where
  abbrev own_args : String → String → Option String
  own_args args own = if same_args args (or_braces own) then none else some args

  abbrev fresh_call : Item → PendingReason → PendingCall
  fresh_call call reason = record {
    call = call;
    reason = reason;
    dispatched = false;
    idempotency_key = "";
    args = none;
    notes = [];
  }

  -- A call known before, as it was known.
  unfoldable pub carried : CallMarks → Item → PendingCall → PendingCall
  unfolding is_deferred
  carried m call before =
      if is_deferred before.reason && contains m.approved_calls (id_of call)
      then record before { call = call; reason = aborted; dispatched = false; notes = [] }
      else record before { call = call; notes = [] }

  -- The switch of pending, for one call. `mine` is whether this run added it.
  unfoldable pub classify : CallMarks → Bool → Item → PendingCall
  unfolding carried find_prior may_have_run
  classify m mine call =
      let id = id_of call in
      let own = arguments_of call in
      let settled : Option PendingCall → PendingCall = λ before.
        if contains m.undispatched_calls id || mine || contains m.approved_calls id
        then fresh_call call undispatched
        else elim before [
          | none ↦ fresh_call call unknown
          | some p ↦ record p { call = call; notes = [] }
        ] in
      elim (lookup id m.deferred_calls) [
        | some h ↦ record (fresh_call call deferred) {
          args = elim h.args [ none ↦ none | some a ↦ own_args a own ];
        }
        | none ↦ elim (lookup id m.dispatched_calls) [
          | some h ↦ record (fresh_call call aborted) {
            idempotency_key = h.key;
            args = own_args h.args own;
          }
          | none ↦ elim (find_prior id m.prior) [
            | none ↦ settled none
            | some p ↦ if may_have_run p then carried m call p else settled (some p)
          ]
        ]
      ]

  -- The last of the pending calls carries the notes.
  abbrev pub on_last : List Note → List PendingCall → List PendingCall
  on_last notes [] = []
  on_last notes (p ∷ []) = record p { notes = notes } ∷ []
  on_last notes (p ∷ q ∷ ps) = p ∷ on_last notes (q ∷ ps)

  unfoldable pub pending : CallMarks → List Item → List Item → List Note → List PendingCall
  unfolding classify unanswered_calls
  pending m transcript added notes =
      on_last notes
        (map (λ call. classify m (any (same_item call) added) call) (unanswered_calls transcript))

-- What the run opens with: whether it answers a call that is open. An item in its wrapper is no output.
unfoldable pub answers_open : List String → List Input → Bool
answers_open open_ids [] = false
answers_open open_ids (marked m ∷ items) = answers_open open_ids items
answers_open open_ids (plain item ∷ items) = elim (output_id_of item) [
  | none ↦ answers_open open_ids items
  | some id ↦ if contains open_ids id then true else answers_open open_ids items
]

-- `approved` is whether any call was approved.
unfoldable pub source : List Item → List Input → Bool → Source
unfolding answers_open unanswered_calls
source transcript prompts approved =
    if approved
    then from_resume
    else if answers_open (map id_of (unanswered_calls transcript)) (unhide_all prompts)
    then from_resume
    else from_input

-- ===== src/Loop/Tests.antt =====
-- run.go: the theorems on a run of one tool call.
use agentturn.Base.{
  some, if◌then◌else◌, ℕ, suc, ◌≡◌, refl, Bool, true, false, List, [], ◌∷◌, map, Option, none, ok,
  String, arith, inl, lookup, Nat-Comparable, String-Comparable, ◌==◌,
}
use agentturn.Items.{
  Item, nil, at, message, user, function_call, function_call_output, Input, plain, marked,
  zero_trigger,
}
use agentturn.Loop.{CallMarks, prompt, hook, Note, Event, State}
use agentturn.Loop.Append.{append_with}
use agentturn.Loop.Append.Ledger.{Appended, append_with-Appended}
use agentturn.Loop.Notes.{flush_notes}
use agentturn.Loop.Notes.Flush.{Flushed, flush_notes-Flushed}
use agentturn.Loop.Pending.{continued_input, continued_inputs, pending, classify, may_have_run}
use agentturn.Loop.Pending.Laws.{OpenInput, continued_inputs-OpenInput}
use agentturn.Loop.Pending.Calls.{notes_of, pending-calls, classify-may_have_run}
use agentturn.Loop.Turns.{Env}
use agentturn.Loop.Turns.Bound.{Within}
use agentturn.Loop.Run.{Begin, run}
use agentturn.Loop.Run.Budget.{run-Within}

abbrev hello : Item
hello = at 1 (message user "hello")

abbrev call : Item
call = at 2 (function_call "c1" "read" "{}")

abbrev output : Item
output = at 3 (function_call_output "c1" "text")

abbrev answered_call : Item
answered_call = at 5 (function_call "c2" "read" "{}")

abbrev output2 : Item
output2 = at 6 (function_call_output "c2" "text")

abbrev note : Note
note = record {
  item = at 4 (message user "said on the call");
  mode = hook;
  trigger = zero_trigger;
  call_id = "c1";
}

-- The world counts the events that its subscriber was sent.
abbrev pub counts : Event String → ℕ → Option String × ℕ
counts ev w = (none, suc w)

abbrev marks : CallMarks
marks = record {
  deferred_calls = [];
  dispatched_calls = ("c1", record { key = "k"; args = "{}" }) ∷ [];
  undispatched_calls = [];
  approved_calls = [];
  prior = [];
}

abbrev pub state : State ℕ
state = record {
  run = record {
    transcript = hello ∷ call ∷ output ∷ [];
    added = [];
    mark = 0;
    arrived = [];
    notes = note ∷ [];
    reported = [];
    persons = [];
    marks = marks;
    said = record { batch_calls = []; roots = []; call_notes = []; note_keys = [] };
  };
  world = 0;
}

-- A subscriber that refuses the event after the first three.
abbrev refuses : Event String → ℕ → Option String × ℕ
refuses ev w = (if w == 3 then some "closed" else none, suc w)

abbrev inputs : List Input
inputs =
    marked (record { item = hello; hidden = true; copied = false; prov = none; answer = none })
    ∷ plain nil
    ∷ plain output
    ∷ plain hello
    ∷ []

append_with-Appended_example :
    Appended refuses prompt zero_trigger zero_trigger inputs state.run
      (append_with refuses inputs prompt zero_trigger zero_trigger state)
append_with-Appended_example =
    append_with-Appended refuses inputs prompt zero_trigger zero_trigger state

flush_notes-Flushed_example : Flushed counts (note ∷ []) state.run (flush_notes counts state)
flush_notes-Flushed_example = flush_notes-Flushed counts state

continued_inputs-OpenInput_example :
    (open_items : List Item) × (continued_inputs
        (λ type. false)
        (hello ∷ call ∷ output ∷ hello ∷ [])
      ≡ map continued_input open_items)
    × OpenInput (λ type. false) (hello ∷ call ∷ output ∷ hello ∷ []) open_items
continued_inputs-OpenInput_example =
    continued_inputs-OpenInput (λ type. false) (hello ∷ call ∷ output ∷ hello ∷ [])

abbrev same : String → String → Bool
same a b = a == b

pending-calls_example :
    (map
        (λ p. p.call)
        (pending same marks (hello ∷ call ∷ answered_call ∷ output2 ∷ []) (call ∷ []) (note ∷ []))
      ≡ call ∷ [])
    × (notes_of
          (pending same marks (hello ∷ call ∷ answered_call ∷ output2 ∷ []) (call ∷ []) (note ∷ []))
        ≡ note ∷ [])
pending-calls_example =
    pending-calls same marks (hello ∷ call ∷ answered_call ∷ output2 ∷ []) (call ∷ []) (note ∷ [])

classify-may_have_run_example : may_have_run (classify same marks true call) ≡ true
unfolding lookup
classify-may_have_run_example =
    classify-may_have_run same marks true call refl (inl (record { key = "k"; args = "{}" }, refl))

-- A model that asks for a tool call at every turn, and a tool that answers it.
abbrev endless : Env ℕ String (Unit {0})
endless = record {
  send = counts;
  json = λ i. none;
  extension = λ type. false;
  same_args = same;
  is_guard = λ e. false;
  is_error = λ a b. a == b;
  cancelled = λ w. none;
  steer = none;
  follow_up = none;
  last = none;
  closing = none;
  max_turn_count = 2;
  before_turn = none;
  should_stop = none;
  tools_refused = λ w. (none, w);
  model_turn = λ turn s. (ok tt, s);
  function_calls = λ r. call ∷ [];
  tool_batch = λ turn calls s. (ok (false ∷ [], []), s);
  approved_batch = λ s. (ok ([], []), s);
}

abbrev begin : Begin
begin = record {
  trigger = zero_trigger;
  prompts = plain hello ∷ [];
  resuming = false;
  answer_notes = [];
  approved = false;
  terminate = false;
}

run-Within_example : Within 2 (run endless 2 begin state)
run-Within_example = run-Within endless begin state (omega arith)

-- ===== src/Agent/Tests.antt =====
-- agent.go: the theorems on queues with a steer, a delivery and a follow-up.
use agentturn.Base.{
  All, map, contains, ℕ, ◌≡◌, refl, true, false, List, [], ◌∷◌, ◌++◌, none, ok, String, ◌↔◌, ◌⊎◌,
  String-Comparable, ◌==◌,
}
use agentturn.Items.{
  Item, at, message, user, function_call, function_call_output, Input, plain, marked, zero_trigger,
  trigger_refused, provenance,
}
use agentturn.Loop.{InputMode, steered, deliver, follow_up, TurnInput, PendingCall, deferred}
use agentturn.Agent.{queue_steer, queue_follow_up, Queues, inputs_of, drain_last}
use agentturn.Agent.Ops.{Op, accepts, delivers, takes, takes_last, closes, steps, of, waiting}
use agentturn.Agent.Ops.Laws.{steps-accepted, drain_last-waiting}
use agentturn.Loop.{Note}
use agentturn.Agent.Notes.{derive_pending, keep_notes, all_notes, known_ids}
use agentturn.Agent.Notes.Derived.{Known, derive_pending-Known}
use agentturn.Agent.Notes.Laws.{all_notes-keep_notes}
use agentturn.Agent.Answers.{answers_pending, run_again, RunAgain, safe, keyed}
use agentturn.Agent.Answers.Laws.{Answer, answers_pending-Answer, run_again_iff}

abbrev said : ℕ → Input
said n = plain (at n (message user "go on"))

abbrev entry : ℕ → InputMode → TurnInput
entry n how = record { item = said n; mode = how; trigger = zero_trigger }

abbrev idle : Queues
idle = record {
  steer = [];
  follow_ups = [];
  reports = [];
  queued_outside = 0;
  running = true;
  closing = false;
  run_id = "r1";
  drains = 0;
  heard = false;
  signals = 0;
}

abbrev trace : List Op
trace =
    accepts zero_trigger queue_follow_up true (said 1 ∷ [])
    ∷ accepts zero_trigger queue_steer true (said 2 ∷ [])
    ∷ takes
    ∷ delivers zero_trigger false (said 3 ∷ [])
    ∷ takes_last
    ∷ closes
    ∷ []

steps-accepted_example :
    of false (steps trace idle).0 ++ of false (waiting (steps trace idle).1)
    ≡ entry 2 steered ∷ entry 3 deliver ∷ []
unfolding inputs_of trigger_refused provenance
steps-accepted_example = steps-accepted trace idle (refl, refl) false

abbrev queued : Queues
queued = record idle {
  follow_ups = record { item = said 4; mode = follow_up; trigger = zero_trigger } ∷ [];
}

drain_last-waiting_example :
    ((drain_last queued).0 ≡ entry 4 follow_up ∷ [])
    × (waiting (drain_last queued).1 ≡ [])
    × ((drain_last queued).1.closing ≡ false)
unfolding inputs_of
drain_last-waiting_example = drain_last-waiting queued

abbrev held : PendingCall
held = record {
  call = at 5 (function_call "c1" "write" "{}");
  reason = deferred;
  dispatched = false;
  idempotency_key = "";
  args = none;
  notes = [];
}

abbrev prompts : List Input
prompts =
    marked (record {
      item = at 6 (function_call_output "c1" "done");
      hidden = true;
      copied = false;
      prov = none;
      answer = none;
    })
    ∷ said 7
    ∷ []

answers_pending-Answer_example :
    (answers_pending (held ∷ []) prompts ≡ ok tt) ↔ Answer ("c1" ∷ []) ("c1" ∷ [])
answers_pending-Answer_example = answers_pending-Answer (held ∷ []) prompts

abbrev key : String
key = "k"

run_again_iff_example :
    ((reason : RunAgain) × (run_again keyed true key key ≡ ok reason))
    ↔ ((keyed ≡ safe) ⊎ ((keyed ≡ keyed) × ((key == "") ≡ false) × ((key == key) ≡ true)))
run_again_iff_example = run_again_iff keyed true key key

abbrev note : Note
note = record {
  item = at 8 (message user "said on the call");
  mode = steered;
  trigger = zero_trigger;
  call_id = "c1";
}

abbrev noted : PendingCall
noted = record held { notes = note ∷ [] }

all_notes-keep_notes_example : all_notes (keep_notes (held ∷ []) (noted ∷ [])) ≡ note ∷ []
unfolding all_notes known_ids contains
all_notes-keep_notes_example = all_notes-keep_notes (held ∷ []) (noted ∷ [])

-- Two calls, one of them known before.
abbrev two_calls : List Item
two_calls = at 7 (message user "go on") ∷ held.call ∷ at 9 (function_call "c2" "write" "{}") ∷ []

derive_pending-Known_example :
    (map (λ p. p.call) (derive_pending two_calls (noted ∷ []))
      ≡ held.call ∷ at 9 (function_call "c2" "write" "{}") ∷ [])
    × All (Known (noted ∷ [])) (derive_pending two_calls (noted ∷ []))
derive_pending-Known_example = derive_pending-Known two_calls (noted ∷ [])

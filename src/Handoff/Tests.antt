-- ===== src/Handoff/Tests.antt =====
-- handoff/handoff.go: the theorems on a team of two agents that hand to each other without end.
use agentturn.Base.{
  ℕ, zero, suc, ◌≤◌, ◌<◌, ◌≢◌, ◌≡◌, refl, true, false, List, [], ◌∷◌, none, some, String, ok, ◌==◌,
  String-Comparable, arith, lookup, insert, is_some, All, contains, if◌then◌else◌,
}
use agentturn.Items.{Item, Input, plain, at, message, user, function_call, function_call_output}
use agentturn.Loop.{stopped, terminate}
use agentturn.Handoff.Name.{tool_name}
use agentturn.Handoff.{Config, To, Member, Team, empty_team, new, offer, transfer}
use agentturn.Handoff.Built.{new-transfers}
use agentturn.Handoff.Follow.{Ended, TeamAgent, run}
use agentturn.Handoff.Follow.Delivery.{Delivers}
use agentturn.Handoff.Follow.Bound.{Followed, run-Followed}

abbrev named : String → Config (Unit {0})
named name = record {
  name = name;
  description = "";
  tools = [];
  tool_provider = none;
  tool_elicitor = none;
  tool_recorder = none;
}

abbrev hands_to : String → To (Unit {0})
hands_to name = record { agent = name; filter = none; enabled = none }

abbrev members : List (Member (Unit {0}))
members =
    record { config = named "Sales"; handoffs = hands_to "Billing" ∷ [] }
    ∷ record { config = named "Billing"; handoffs = hands_to "Sales" ∷ [] }
    ∷ []

abbrev team : Team (Unit {0})
team = record empty_team {
  configs =
      ("Billing", offer (named "Billing") ((transfer (named "Sales"), none) ∷ []))
      ∷ ("Sales", offer (named "Sales") ((transfer (named "Billing"), none) ∷ []))
      ∷ ("Billing", named "Billing")
      ∷ ("Sales", named "Sales")
      ∷ [];
  tools = ("transfer_to_billing", "Billing") ∷ ("transfer_to_sales", "Sales") ∷ [];
}

new-team : new members ≡ ok team
unfolding new lookup insert contains tool_name offer transfer
new-team = refl

new-transfers_example :
    All (λ a. lookup (tool_name a.config.name) team.tools ≡ some a.config.name) members
    × ((tool n : String)
        → lookup tool team.tools ≡ some n
        → (tool ≡ tool_name n) × (is_some (lookup n team.configs) ≡ true))
new-transfers_example = new-transfers members team new-team

-- The world is the name of the agent that has the conversation, and how many deliveries wait.
abbrev World : Type 0
World = String × ℕ

abbrev transferred : String → String × String
transferred name =
    if name == "Sales" then ("transfer_to_billing", "Billing") else ("transfer_to_sales", "Sales")

abbrev terminates_on : List Item → Ended String
terminates_on items = (
  some (record {
    items = items;
    reason = stopped;
    cause = terminate;
    err = none;
    failure = none;
    withheld = false;
    pending = [];
    notes = [];
  }),
  none,
)

-- A run takes a delivery that waits and terminates; where none waits it hands the conversation on.
abbrev takes_turn : World → Ended String × World
takes_turn (name, suc k) = (terminates_on [], (name, k))
takes_turn (name, zero) = (
  terminates_on (
      at 1 (function_call "c1" (transferred name).0 "{}")
      ∷ at 2 (function_call_output "c1" (transferred name).1)
      ∷ []),
  (name, 0),
)

abbrev waiting_items : ℕ → List Input
waiting_items zero = []
waiting_items (suc k) = plain (at 3 (message user "delivered")) ∷ waiting_items k

abbrev agent : TeamAgent World String (Unit {0})
agent = record {
  config = λ w. named w.0;
  transcript = λ w. [];
  steer = λ w. waiting_items w.1;
  has_pending = λ w. false;
  set_transcript = λ t w. (none, w);
  set_config = λ cfg w. (none, (cfg.name, w.1));
  prompt = λ t i w. takes_turn w;
  start_run = λ t w. takes_turn w;
  has_parts = λ i. false;
  answer = λ name. name;
  new_ref = λ w. (0, w);
  input_required = "input required";
  cannot_continue = "cannot continue";
  too_many = "too many handoffs";
  join = λ e f. e;
}

takes_turn-le : (w : World) → (takes_turn w).1.1 ≤ w.1
takes_turn-le (name, suc k) = omega arith
takes_turn-le (name, zero) = omega arith

takes_turn-lt : (w : World) → waiting_items w.1 ≢ [] → (takes_turn w).1.1 < w.1
takes_turn-lt (name, suc k) h = omega arith
takes_turn-lt (name, zero) h = absurd (h refl)

agent-Delivers : Delivers agent (λ w. w.1)
agent-Delivers = record {
  delivered = λ w h g. takes_turn-lt w h;
  started = λ t w. takes_turn-le w;
  prompted = λ t i w. takes_turn-le w;
  trimmed = λ t w. omega arith;
  switched = λ cfg w. omega arith;
  made = λ w. omega arith;
}

run-Followed_example : Followed 12 (run agent team 15 (at 0 (message user "hello")) ("Sales", 3))
run-Followed_example =
    run-Followed agent team (λ w. w.1) agent-Delivers (at 0 (message user "hello")) ("Sales", 3)

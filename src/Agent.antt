-- ===== src/Agent.antt =====
-- agent.go: the queues of an agent, in the critical sections that its mutex makes atomic: each
-- operation here is one of them, whole.
pub mod Ops
pub mod Answers
pub mod Notes
mod Tests
use agentturn.Base.{
  ℕ, zero, suc, ◌+◌, Bool, true, false, not, ◌&&◌, ◌||◌, List, [], ◌∷◌, ◌++◌, map, Option, none,
  some, String, Result, ok, err, ◌==◌, String-Comparable, if◌then◌else◌, is_empty,
}
use agentturn.Items.{
  Item, Input, Trigger, trigger_refused, Provenance, marks, provenance, is_nil_input, is_zero,
}
use agentturn.Loop.{InputMode, steered, follow_up, deliver, TurnInput}
use agentturn.Loop.Append.{own_trigger}

pub data QueueMode : Type 0 where
  queue_steer queue_follow_up : QueueMode

-- An item in a queue, as it was given.
pub record QueuedItem : Type 0 where
  pub item : Input
  pub mode : InputMode
  pub trigger : Trigger

-- The report of an accepted item.
pub record Queued : Type 0 where
  pub run_id : String
  pub item : Item
  pub mode : QueueMode
  pub input : InputMode
  pub hidden : Bool
  pub copied : Bool
  pub trigger : Trigger
  pub prov : Option Provenance

-- The fields under the mutex that the queues use. `heard` is whether the channel `steered` is closed,
-- `signals` counts the closings of `progress`.
pub record Queues : Type 0 where
  pub steer : List QueuedItem
  pub follow_ups : List QueuedItem
  pub reports : List Queued
  pub queued_outside : ℕ
  pub running : Bool
  pub closing : Bool
  pub run_id : String
  pub drains : ℕ
  pub heard : Bool
  pub signals : ℕ

abbrev pub turn_input : QueuedItem → TurnInput
turn_input q = record { item = q.item; mode = q.mode; trigger = q.trigger }

unfoldable pub inputs_of : List QueuedItem → List TurnInput
inputs_of q = map turn_input q

-- One item of `queue`.
unfoldable pub queue_one : Trigger → QueueMode → InputMode → Bool → Input → Queues → Queues
unfolding marks provenance
queue_one trigger mode how outside item a =
    let run_id = if a.running && not a.closing then a.run_id else "" in
    let (base, hidden, copied) = marks item in
    let prov = provenance item in
    let item_trigger = own_trigger prov trigger in
    let entry : QueuedItem = record { item = item; mode = how; trigger = item_trigger } in
    let placed : Queues = elim mode [
      | queue_steer ↦ record a { steer = a.steer ++ entry ∷ []; heard = true }
      | queue_follow_up ↦ record a { follow_ups = a.follow_ups ++ entry ∷ [] }
    ] in
    record placed {
      reports =
          a.reports
          ++ record {
            run_id = run_id;
            item = base;
            mode = mode;
            input = how;
            hidden = hidden;
            copied = copied;
            trigger = item_trigger;
            prov = prov;
          }
            ∷ [];
      queued_outside = if outside then suc a.queued_outside else a.queued_outside;
    }

unfoldable pub queue : Trigger → QueueMode → InputMode → Bool → List Input → Queues → Queues
unfolding queue_one
queue trigger mode how outside [] a = a
queue trigger mode how outside (item ∷ items) a =
    queue trigger mode how outside items
      (if is_nil_input item then a else queue_one trigger mode how outside item a)

unfoldable pub take_steer : Queues → List TurnInput × Queues
unfolding inputs_of
take_steer a = (
  inputs_of a.steer,
  elim a.steer [
    | [] ↦ record a { steer = [] }
    | x ∷ xs ↦ record a { steer = []; heard = false; drains = suc a.drains }
  ],
)

-- `drainSteer` is takeSteer under the mutex.
unfoldable pub drain_steer : Queues → List TurnInput × Queues
unfolding take_steer
drain_steer a = take_steer a

abbrev signal : Queues → Queues
signal a = record a { signals = suc a.signals }

unfoldable pub drain_last : Queues → List TurnInput × Queues
unfolding take_steer inputs_of
drain_last a =
    let (steered_items, a1) = take_steer a in
    let items = steered_items ++ inputs_of a1.follow_ups in
    let a2 : Queues = record a1 { follow_ups = [] } in
    (items, if is_empty items then signal (record a2 { closing = true }) else a2)

unfoldable pub close : Queues → Bool × Queues
close a =
    let a1 = if a.closing then a else signal (record a { closing = true }) in
    (not (is_empty a1.steer) || not (is_empty a1.follow_ups), a1)

unfoldable pub drain_follow_up : Queues → List TurnInput × Queues
unfolding inputs_of
drain_follow_up a = (inputs_of a.follow_ups, record a { follow_ups = [] })

-- What enqueue refuses: `Validate` of the context's trigger.
pub data QueueError : Type 0 where
  trigger_extra : QueueError

unfoldable pub enqueue :
    Trigger → QueueMode → Bool → List Input → Queues → Result QueueError (Unit {0}) × Queues
unfolding queue trigger_refused
enqueue trigger mode outside items a =
    let how : InputMode = elim mode [ queue_steer ↦ steered | queue_follow_up ↦ follow_up ] in
    if trigger_refused trigger
    then (err trigger_extra, a)
    else (ok tt, queue trigger mode how outside items a)

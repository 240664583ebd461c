-- ===== src/Loop.antt =====
-- run.go: the state of a run and what it is given. The run is one goroutine: its subscribers are
-- called at each event and wait for, so the rest of the program enters as a state `W` that the calls
-- out of the loop pass on: the subscribers behind `send`, the queues behind `steer`, `follow_up`,
-- `last` and `closing`, the hooks, the model and the tools.
pub mod Append
pub mod Notes
pub mod Pending
pub mod Turns
pub mod Run
pub mod Tests
use agentturn.Base.{ℕ, Bool, List, Option, String, Result, ◌≡◌}
use agentturn.Items.{Item, Input, Trigger, Provenance}
use agentturn.Persons.{PersonMessages}
use agentturn.Chain.Decision.{ToolDecision}

pub data InputMode : Type 0 where
  prompt resume steered follow_up deliver hook tool continued : InputMode

pub record TurnInput : Type 0 where
  pub item : Input
  pub mode : InputMode
  pub trigger : Trigger

-- A note waiting on the outputs of the pending calls.
pub record Note : Type 0 where
  pub item : Item
  pub mode : InputMode
  pub trigger : Trigger
  pub call_id : String

pub data Reason : Type 0 where
  done stopped input_required aborted error : Reason

pub data StopCause : Type 0 where
  no_cause max_turns stop_hook guard terminate partial_terminate refused : StopCause

pub data Source : Type 0 where
  from_input from_resume : Source

pub data PendingReason : Type 0 where
  deferred aborted undispatched unknown answered rejected returned : PendingReason

-- Less what pending only carries over from the call as it was known: its tool, decision and question,
-- what ran of it and its nested calls.
pub record PendingCall : Type 0 where
  pub call : Item
  pub reason : PendingReason
  pub dispatched : Bool
  pub idempotency_key : String
  pub args : Option String
  pub notes : List Note

-- Less the run's ID and the items quarantined.
pub record RunEnd (Err : Type 0) : Type 0 where
  pub items : List Item
  pub reason : Reason
  pub cause : StopCause
  pub err : Option Err
  pub failure : Option Err
  pub withheld : Bool
  pub pending : List PendingCall
  pub notes : List Note

-- agenttool.Result, less its media.
pub record ToolResult : Type 0 where
  pub output : String
  pub terminate : Bool
  pub details : Option String

pub record ToolEnd (Err : Type 0) : Type 0 where
  pub turn : ℕ
  pub call_id : String
  pub name : String
  pub result : ToolResult
  pub err : Option Err
  pub blocked : Bool
  pub deferred : Bool
  pub reason : String
  pub withdrawn : Bool
  pub cut : Bool

pub data ToolEvent (Err : Type 0) : Type 0 where
  tool_start : ℕ → (call_id name args : String) → Option ToolDecision → ToolEvent Err
  tool_dispatch : ℕ → (call_id name key : String) → ToolEvent Err
  tool_update : ℕ → (call_id name : String) → ToolResult → ToolEvent Err
  tool_end : ToolEnd Err → ToolEvent Err

pub data Event (Err : Type 0) : Type 0 where
  run_start : Source → Trigger → Event Err
  item_start : Item → (hidden copied : Bool) → Option Provenance → Event Err
  item_end : Item → (hidden copied : Bool) → Trigger → Option Provenance → Event Err
  notes_held : List Note → Event Err
  turn_end : ℕ → Event Err
  run_end : RunEnd Err → Event Err
  tool_event : ToolEvent Err → Event Err

-- errStop, or any other error.
pub data Halt (Err : Type 0) : Type 0 where
  stop : Reason → StopCause → Option Err → (withheld : Bool) → Halt Err
  fault : Err → Halt Err

-- What the run noted of its calls, by call ID.
pub record Held : Type 0 where
  pub args : Option String

pub record HandOff : Type 0 where
  pub key : String
  pub args : String

pub record CallMarks : Type 0 where
  pub deferred_calls : List (String × Held)
  pub dispatched_calls : List (String × HandOff)
  pub undispatched_calls : List String
  pub approved_calls : List String
  pub prior : List PendingCall

-- What was said under calls while they ran: the calls of the batches, the batch call of each nested
-- one, and the notes by call ID with the IDs in the order they first came.
pub record Said : Type 0 where
  pub batch_calls : List String
  pub roots : List (String × String)
  pub call_notes : List (String × List Item)
  pub note_keys : List String

-- The runner's fields that the loop reads and writes itself.
pub record Runner : Type 0 where
  pub transcript : List Item
  pub added : List Item
  -- How much of the transcript the turns had when the last of them was answered.
  pub mark : ℕ
  pub arrived : List TurnInput
  pub notes : List Note
  pub reported : List Note
  pub persons : PersonMessages
  pub marks : CallMarks
  pub said : Said

pub record State (W : Type 0) : Type 0 where
  pub run : Runner
  pub world : W

-- What a step of the loop does: it may halt, and its state survives that.
abbrev pub Act : Type 0 → Type 0 → Type 0 → Type 0
Act W Err A = State W → Result (Halt Err) A × State W

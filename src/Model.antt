-- ===== src/Model.antt =====
-- run.go: the model's turn: the requests it sends, what an attempt ends in and the events it raises.
-- The items of a request are a slice, since the code asks whether two requests share one; all that a
-- request carries beside its model and its input is one value.
pub mod Turn
mod Tests
pub mod Prefix
pub mod Attempt
pub mod Ids
pub mod Pairs
pub mod Renamed
pub mod Stream
pub mod Events
pub mod Reading
use agentturn.Base.{ℕ, Bool, List, Option, String, ◌&&◌, ◌||◌, ◌==◌, Nat-Comparable, length, nat_eq}
use agentturn.Items.{Item}
use agentturn.Loop.{Event, Halt, State, Act, TurnInput}

-- A slice: its backing array, and what it holds.
pub record Slice : Type 0 where
  pub array : ℕ
  pub items : List Item

pub record Request : Type 0 where
  pub model : String
  pub settings : String
  pub input : Slice

-- What a request was built from: the list before it was cut for the model, and the input.
pub record Built : Type 0 where
  pub filtered : Slice
  pub input : Slice

-- The events that only the model's turn sends. A refused call reports the usage of a response.
pub data ModelEvent (Err Response : Type 0) : Type 0 where
  turn_start : ℕ → Request → List Item → List TurnInput → ModelEvent Err Response
  streamed_start : ℕ → Item → (response_id : String) → ModelEvent Err Response
  streamed_update : ℕ → Item → (response_id : String) → ModelEvent Err Response
  streamed_end : ℕ → Item → (response_id model_call_id : String) → ModelEvent Err Response
  response_end : ℕ → Response → (withheld : Bool) → ModelEvent Err Response
  model_blocked : ℕ → Request → Err → Option Response → ModelEvent Err Response
  model_retry : ℕ → (call : ℕ) → Err → (delay : ℕ) → Request → ModelEvent Err Response

-- What stream returns: a response, or an error with the response it withholds, if any, and whether the
-- attempt committed.
pub data Outcome (Err Response : Type 0) : Type 0 where
  responded : Response → Outcome Err Response
  failed : Option Response → (committed : Bool) → Halt Err → Outcome Err Response

pub record TurnEnv (W Err Response : Type 0) : Type 0 where
  -- `emit`, of the events of the loop and of the model's turn.
  pub send : Event Err → W → Option Err × W
  pub tell : ModelEvent Err Response → W → Option Err × W
  pub request : Act W Err (Request × Built)
  -- The request built once more, with a fold asked for and under the settings of a request, if given.
  pub refold : Option Request → Act W Err (Request × Built)
  pub input_for : String → Slice → W → Slice × W
  -- reflect.DeepEqual, which tells apart two items of different types.
  pub alike : Item → Item → Bool
  pub stream : Request → State W → Outcome Err Response × State W
  -- What the record of the models keeps of the items that an attempt left.
  pub attribute : String → List Item → W → W
  pub cancelled : W → Option Err
  pub is_guard : Err → Bool
  pub is_context_length : Err → Bool
  pub has_transform : Bool
  pub max_attempts : ℕ
  pub retryable : Err → Bool
  -- A wait below zero is none.
  pub backoff : ℕ → Err → ℕ
  -- The policy may change the request it is given, and give one in its place.
  pub revise : Option (ℕ → Request → Err → Request × Option Request)
  -- Waits, and says whether the cancellation came first.
  pub wait : ℕ → W → Bool × W
  pub model_error : Err → Err
  pub with_output : Response → List Item → Response
  pub new_ref : W → ℕ × W

abbrev pub same_slice : Slice → Slice → Bool
same_slice a b =
    nat_eq (length a.items) (length b.items)
    && (nat_eq (length a.items) 0 || nat_eq a.array b.array)

-- ===== src/Model/Attempt.antt =====
-- run.go: an attempt at the model's turn: what it holds back, the call IDs that it decides, and what it
-- is given. It stands beside the rest of the program in the state that the calls out of it pass on.
-- The events of a stream and the accumulator that collects them are of a third-party package.
use agentturn.Base.{
  ℕ, Bool, true, false, not, ◌&&◌, ◌||◌, List, [], Option, none, some, String, Result, ◌==◌,
  String-Comparable, Nat-Comparable, if◌then◌else◌, any, lookup, insert, contains, add_key,
}
use agentturn.Items.{Item, at, function_call, call_id_of}
use agentturn.Loop.Pending.{id_of}
use agentturn.Model.{ModelEvent, Request}
use agentturn.Model.Prefix.{call_id_prefix}

-- callSlot
pub record Slot : Type 0 where
  pub id : String
  pub item_id : String

pub record OpenedItem : Type 0 where
  pub index : ℕ
  pub done : Item
  pub item_id : String
  pub model_call_id : String
  pub call : Bool
  pub call_id : String
  pub from_response : Bool

pub record HeldItem : Type 0 where
  pub item : Item
  pub response_id : String
  pub model_call_id : String

-- What the runner keeps of the attempt in flight.
pub record Attempt : Type 0 where
  pub held : List HeldItem
  pub call_at : List (ℕ × Slot)
  pub call_items : List (String × String)
  pub decided : List String
  pub opened : List OpenedItem

abbrev pub fresh_attempt : Attempt
fresh_attempt = record { held = []; call_at = []; call_items = []; decided = []; opened = [] }

-- What an event of the stream is to streamEvent, with the members that it reads.
pub data StreamEvent (Err : Type 0) : Type 0 where
  item_added : (index : ℕ) → StreamEvent Err
  item_done : (index : ℕ) → Item → StreamEvent Err
  error_event : Err → StreamEvent Err
  within_item : (index : ℕ) → StreamEvent Err
  other_event : StreamEvent Err

pub record OutputInfo : Type 0 where
  pub turn : ℕ
  pub response_id : String
  pub message : Item
  pub output : List Item

pub record StreamEnv (W Err Response Raw Acc : Type 0) : Type 0 where
  pub tell : ModelEvent Err Response → W → Option Err × W
  -- Whether the agent or the run's context reserved a call ID.
  pub reserved : String → Bool
  pub new_id : String → W → String × W
  pub new_ref : W → ℕ × W
  -- The item ID that a call carries.
  pub item_id : Item → String
  -- The events of the stream, or the error that it broke off with.
  pub events : Request → W → List (Result Err Raw) × W
  pub kind : Raw → StreamEvent Err
  pub terminal : Raw → Option Response
  pub empty : Acc
  pub add : Acc → Raw → Acc
  pub item_at : Acc → ℕ → Item
  pub response_of : Acc → Option Response
  pub response_id : Response → String
  pub output : Response → List Item
  pub with_output : Response → List Item → Response
  -- The error of a response whose status is failed.
  pub response_failed : Response → Option Err
  -- A response made incomplete by the content filter, with no error and no output.
  pub filtered : Option Response → Response
  pub output_guard : Option (OutputInfo → W → Result Err (Option Item) × W)
  pub is_guard : Err → Bool
  pub guard_error : Err → Err
  pub truncated : Err

abbrev pub is_call : Item → Bool
is_call (at r (function_call i n a)) = true
is_call _ = false

-- The copy of a call under another call ID.
abbrev pub with_id : Item → String → ℕ → Item
with_id (at r (function_call i n a)) id ref = at ref (function_call id n a)
with_id item id ref = item

module _ {W Err Response Raw Acc : Type 0} (env : StreamEnv W Err Response Raw Acc) where
  abbrev pub has_call : String → List Item → Bool
  has_call id transcript =
      any (λ item. elim (call_id_of item) [ none ↦ false | some i ↦ i == id ]) transcript

  unfoldable pub call_id_taken : String → Attempt → List Item → Bool
  call_id_taken id a transcript =
      id == "" || env.reserved id || contains a.decided id || has_call id transcript

  abbrev pub decided_with : Item → ℕ → String → Attempt → Attempt
  decided_with call index id a =
      let item_id = env.item_id call in
      record a {
        call_at = insert index (record { id = id; item_id = item_id }) a.call_at;
        decided = add_key id a.decided;
        call_items = if item_id == "" then a.call_items else insert item_id id a.call_items;
      }

  -- decideCallID: the ID of the call as the model sent it, or one made for it.
  unfoldable pub decide_call_id : Item → ℕ → Attempt → List Item → W → Attempt × W
  unfolding call_id_taken call_id_prefix
  decide_call_id call index a transcript w =
      let (made, w') = env.new_id (call_id_prefix (id_of call)) w in
      if call_id_taken (id_of call) a transcript
      then (decided_with call index made a, w')
      else (decided_with call index (id_of call) a, w)

  abbrev at_index : Option Slot → String → Option String
  at_index none item_id = none
  at_index (some slot) item_id =
      if not (item_id == "") && not (slot.item_id == "") then none else some slot.id

  unfoldable pub decided_call_id : Item → ℕ → Attempt → Option String
  decided_call_id call index a =
      let item_id = env.item_id call in
      let by_index = at_index (lookup index a.call_at) item_id in
      elim (lookup item_id a.call_items) [
        | none ↦ by_index
        | some id ↦ if item_id == "" then by_index else some id
      ]

  unfoldable pub with_call_id : Item → ℕ → Attempt → W → Item × W
  unfolding decided_call_id
  with_call_id item index a w =
      if not (is_call item) then (item, w) else elim (decided_call_id item index a) [
        | none ↦ (item, w)
        | some id ↦
            let (ref, w') = env.new_ref w in
            if id == id_of item then (item, w) else (with_id item id ref, w')
      ]

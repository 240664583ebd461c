-- ===== src/Model/Events.antt =====
-- run.go: streamEvent: what an event of the stream does to the attempt and the transcript.
use agentturn.Base.{
  ℕ, Bool, true, false, not, ◌&&◌, List, [], ◌∷◌, ◌++◌, Option, none, some, String, Result, ok, err,
  ◌==◌, String-Comparable, Nat-Comparable, if◌then◌else◌, lookup, insert, is_some, get_or_else,
  take,
}
use agentturn.Items.{Item, nil, is_nil}
use agentturn.Loop.{stopped, guard, Halt, stop, fault, State}
use agentturn.Loop.Append.{◌>>=◌, ◌>>◌, pure}
use agentturn.Loop.Pending.{id_of}
use agentturn.Model.{streamed_update}
use agentturn.Model.Attempt.{
  OpenedItem, HeldItem, Attempt, item_added, item_done, error_event, within_item, other_event,
  StreamEnv, is_call, decide_call_id, decided_call_id, with_call_id,
}
use agentturn.Model.Stream.{
  Delivered, delivered, wire_error, is_message, opened_at, change, Att, report, attempt,
  keep_attempt, outside, take_item, snapshot, decide, renamed, on_item_added,
}

module _ {W Err Response Raw Acc : Type 0} (env : StreamEnv W Err Response Raw Acc) (turn : ℕ) where
  -- The slot of a call that opened with no item ID and is done with one is given it.
  abbrev pub name_slot : Item → ℕ → String → Attempt → Attempt
  name_slot call index id a =
      let item_id = env.item_id call in
      let unnamed : Bool = elim (lookup index a.call_at) [
        | none ↦ true
        | some slot ↦ slot.item_id == ""
      ] in
      if not (item_id == "") && unnamed
      then record a {
        call_at = insert index (record { id = id; item_id = item_id }) a.call_at;
        call_items = insert item_id id a.call_items;
      }
      else a

  -- The call under its decided ID, and what the model called it, if that differs.
  unfoldable pub settle_call : Item → ℕ → Att env turn (Item × String)
  unfolding decide_call_id decided_call_id with_call_id
  settle_call call index = do
    a ← attempt env turn
    elim (decided_call_id env call index a) [
      | none ↦ decide env turn call index
      | some id ↦ keep_attempt env turn (name_slot call index id a)
    ]
    item ← renamed env turn call index
    pure (item, if id_of item == id_of call then "" else id_of call)

  abbrev pub done_call : Item → OpenedItem → OpenedItem
  done_call call o = record o {
    model_call_id = id_of call;
    item_id = if env.item_id call == "" then o.item_id else env.item_id call;
  }

  -- The items that opened before the message, as far as they are known.
  unfoldable pub before_message : Acc → Attempt → List OpenedItem → W → List Item × W
  unfolding with_call_id
  before_message acc a [] w = ([], w)
  before_message acc a (o ∷ opened) w =
      let open_now = if is_some (env.response_of acc) then env.item_at acc o.index else nil in
      let (item, w1) =
        if is_nil o.done then with_call_id env open_now o.index a w else (o.done, w) in
      let (rest, w2) = before_message acc a opened w1 in
      if is_nil item then (rest, w2) else (item ∷ rest, w2)

  -- A guard's error withholds the message; any other fails the attempt.
  abbrev pub guard_verdict : Item → Result Err (Option Item) → Result (Halt Err) Item
  guard_verdict item (ok replacement) = ok (get_or_else replacement item)
  guard_verdict item (err e) =
      err (if env.is_guard e then stop stopped guard (some e) true else fault (env.guard_error e))

  -- The output guard sees a message before anything keeps it, and may replace it.
  unfoldable pub guard_message : Acc → String → Item → ℕ → Att env turn Item
  unfolding before_message
  guard_message acc response_id item self s = elim env.output_guard [
    | none ↦ (ok item, s)
    | some f ↦
        let a = s.world.0 in
        let (before, w) = before_message acc a (take self a.opened) s.world.1 in
        let (r, w') =
          f (record { turn = turn; response_id = response_id; message = item; output = before })
            w in
        let s' : State (Attempt × W) = record s { world = (a, w') } in (guard_verdict item r, s')
  ]

  abbrev pub hold_item : HeldItem → Attempt → Attempt
  hold_item h a = record a { held = a.held ++ h ∷ [] }

  -- What follows once the item is as the transcript is to have it.
  unfoldable pub complete : Item → ℕ → String → String → Bool → Att env turn (Delivered Err)
  unfolding take_item
  complete item self response_id model_call_id committed = do
    a ← attempt env turn
    let b : Attempt = record a { opened = change (λ o. record o { done = item }) self a.opened }
    let h : HeldItem = record {
      item = item;
      response_id = response_id;
      model_call_id = model_call_id;
    }
    keep_attempt env turn (if committed then b else hold_item h b)
    if committed then take_item env turn item response_id model_call_id else pure tt
    pure (delivered false)

  unfoldable pub on_item_done : ℕ → Item → Acc → String → Bool → Att env turn (Delivered Err)
  unfolding settle_call opened_at guard_message complete
  on_item_done index done acc response_id committed = do
    (item, model_call_id) ← if is_call done then settle_call done index else pure (done, "")
    a ← attempt env turn
    let self = (opened_at index a.opened).0
    let opened = (opened_at index a.opened).1
    keep_attempt env turn
        (record a { opened = if is_call done then change (done_call done) self opened else opened })
    kept ← if is_message item then guard_message acc response_id item self else pure item
    complete kept self response_id model_call_id committed

  unfoldable pub on_update : ℕ → Acc → String → Att env turn (Delivered Err)
  unfolding with_call_id
  on_update index acc response_id = do
    item ← renamed env turn (env.item_at acc index) index
    snap ← outside env turn (snapshot env turn item)
    report env turn (streamed_update turn snap response_id)
    pure (delivered false)

  abbrev pub current_id : Acc → String
  current_id acc = elim (env.response_of acc) [ none ↦ "" | some resp ↦ env.response_id resp ]

  unfoldable pub stream_event : Raw → Acc → Bool → Att env turn (Delivered Err)
  unfolding on_item_added on_item_done on_update
  stream_event ev acc committed = elim (env.kind ev) [
    | item_added index ↦
        on_item_added env turn index (env.item_at acc index) (current_id acc) committed
    | item_done index item ↦ on_item_done index item acc (current_id acc) committed
    | error_event e ↦ pure (wire_error e)
    | within_item index ↦ on_update index acc (current_id acc)
    | other_event ↦ pure (delivered false)
  ]

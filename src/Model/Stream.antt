-- ===== src/Model/Stream.antt =====
-- run.go: what streamEvent works with, and an item of the stream as it opens. What the attempt keeps
-- stands in the world beside the rest of the program.
use agentturn.Base.{
  ℕ, suc, Bool, true, false, not, ◌&&◌, List, [], ◌∷◌, ◌++◌, Option, none, some, String, ok, err,
  ◌==◌, String-Comparable, Nat-Comparable, if◌then◌else◌, lookup, length, set, get_elem?,
}
use agentturn.Items.{Item, nil, at, message, function_call, is_nil}
use agentturn.Loop.{fault, State, Act}
use agentturn.Loop.Append.{◌>>=◌, ◌>>◌, pure, get, put}
use agentturn.Loop.Pending.{id_of}
use agentturn.Model.{ModelEvent, streamed_start, streamed_end}
use agentturn.Model.Attempt.{
  OpenedItem, HeldItem, Attempt, StreamEnv, is_call, decide_call_id, with_call_id,
}

-- What came of an event: it was delivered, and commits the attempt or not, or it reported an error.
pub data Delivered (Err : Type 0) : Type 0 where
  delivered : (commits : Bool) → Delivered Err
  wire_error : Err → Delivered Err

abbrev pub opened_item : ℕ → OpenedItem
opened_item index = record {
  index = index;
  done = nil;
  item_id = "";
  model_call_id = "";
  call = false;
  call_id = "";
  from_response = false;
}

abbrev pub commits_attempt : Item → Bool
commits_attempt (at r (message role text)) = true
commits_attempt (at r (function_call i n a)) = true
commits_attempt _ = false

abbrev pub is_message : Item → Bool
is_message (at r (message role text)) = true
is_message _ = false

-- openedAt: the loop from the last item down; its position, if it is there.
unfoldable pub last_open : ℕ → List OpenedItem → Option ℕ
last_open index [] = none
last_open index (o ∷ opened) = elim (last_open index opened) [
  | some i ↦ some (suc i)
  | none ↦ if o.index == index && is_nil o.done then some 0 else none
]

unfoldable pub opened_at : ℕ → List OpenedItem → ℕ × List OpenedItem
unfolding last_open
opened_at index opened = elim (last_open index opened) [
  | some i ↦ (i, opened)
  | none ↦ (length opened, opened ++ opened_item index ∷ [])
]

-- A change to the item at a position.
abbrev pub change : {A : Type 0} → (A → A) → ℕ → List A → List A
change f i xs = elim (get_elem? xs i) [ none ↦ xs | some x ↦ set xs i (f x) ]

module _ {W Err Response Raw Acc : Type 0} (env : StreamEnv W Err Response Raw Acc) (turn : ℕ) where
  -- An action of the attempt.
  abbrev pub Att : Type 0 → Type 0
  Att A = Act (Attempt × W) Err A

  abbrev pub report : ModelEvent Err Response → Att (Unit {0})
  report ev s =
      let (e, w) = env.tell ev s.world.1 in
      let s' : State (Attempt × W) = record s { world = (s.world.0, w) } in
      elim e [ none ↦ (ok tt, s') | some x ↦ (err (fault x), s') ]

  abbrev pub attempt : Att Attempt
  attempt s = (ok s.world.0, s)

  abbrev pub keep_attempt : Attempt → Att (Unit {0})
  keep_attempt a s = (ok tt, record s { world = (a, s.world.1) })

  -- A step of the rest of the program.
  abbrev pub outside : {A : Type 0} → (W → A × W) → Att A
  outside f s = let (a, w) = f s.world.1 in (ok a, record s { world = (s.world.0, w) })

  -- What the transcript takes, with its item_end.
  unfoldable pub take_item : Item → String → String → Att (Unit {0})
  take_item item response_id model_call_id = do
    r ← get
    put (record r { transcript = r.transcript ++ item ∷ []; added = r.added ++ item ∷ [] })
    report (streamed_end turn item response_id model_call_id)

  unfoldable pub take_held : List HeldItem → Att (Unit {0})
  unfolding take_item
  take_held [] = pure tt
  take_held (h ∷ held) = do take_item h.item h.response_id h.model_call_id; take_held held

  unfoldable pub flush_held : Att (Unit {0})
  unfolding take_held
  flush_held = do a ← attempt; keep_attempt (record a { held = [] }); take_held a.held

  -- snapshotItem
  abbrev pub snapshot : Item → W → Item × W
  snapshot nil w = (nil, w)
  snapshot (at r body) w = let (ref, w') = env.new_ref w in (at ref body, w')

  abbrev pub decide : Item → ℕ → Att (Unit {0})
  decide call index s =
      let (a, w) = decide_call_id env call index s.world.0 s.run.transcript s.world.1 in
      (ok tt, record s { world = (a, w) })

  abbrev pub renamed : Item → ℕ → Att Item
  renamed item index s = outside (with_call_id env item index s.world.0) s

  abbrev pub slot_id : ℕ → Attempt → String
  slot_id index a = elim (lookup index a.call_at) [ none ↦ "" | some slot ↦ slot.id ]

  -- A call's ID is decided as it opens.
  unfoldable pub open_item : Item → ℕ → Att Item
  unfolding decide_call_id with_call_id
  open_item item index = do
    a ← attempt
    keep_attempt (record a { opened = a.opened ++ opened_item index ∷ [] })
    let named = λ (b : Attempt). record b {
      opened =
          change
            (λ o. record o {
              item_id = env.item_id item;
              model_call_id = id_of item;
              call = true;
              call_id = slot_id index b;
            })
            (length a.opened) b.opened;
    }
    if is_call item
        then (do decide item index; b ← attempt; keep_attempt (named b); renamed item index)
        else pure item

  unfoldable pub on_item_added : ℕ → Item → String → Bool → Att (Delivered Err)
  unfolding open_item flush_held
  on_item_added index opened response_id committed = do
    item ← open_item opened index
    let commits = not committed && commits_attempt item
    if commits then flush_held else pure tt
    snap ← outside (snapshot item)
    report (streamed_start turn snap response_id)
    pure (delivered commits)

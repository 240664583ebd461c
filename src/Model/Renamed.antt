-- ===== src/Model/Renamed.antt =====
-- run.go: renameCalls and completedCall: the response that the turn acts on.
use agentturn.Base.{
  ℕ, suc, ◌+◌, Bool, true, false, not, ◌&&◌, ◌||◌, List, [], ◌∷◌, ◌++◌, Option, none, some, String,
  ◌==◌, String-Comparable, Nat-Comparable, if◌then◌else◌, keep, is_some, length, set, get_elem?,
  ltb, lookup,
}
use agentturn.Items.{Item, nil, is_nil, same_item}
use agentturn.Loop.Pending.{id_of}
use agentturn.Model.Attempt.{
  OpenedItem, Attempt, StreamEnv, is_call, decide_call_id, with_call_id, with_id,
}
use agentturn.Model.Pairs.{call_positions, pair_calls, is_attempt_call}

abbrev pub item_at_position : List OpenedItem → ℕ → Item
item_at_position opened i = elim (get_elem? opened i) [ none ↦ nil | some o ↦ o.done ]

abbrev pub from_response_at : List OpenedItem → ℕ → Bool
from_response_at opened i = elim (get_elem? opened i) [ none ↦ false | some o ↦ o.from_response ]

-- The calls of the attempt by number, each its position among what was opened, with what was paired.
pub record Numbered : Type 0 where
  pub positions : List ℕ
  pub paired : List (Option ℕ)
  pub taken : List Bool

module _ {W Err Response Raw Acc : Type 0} (env : StreamEnv W Err Response Raw Acc) where
  -- What a call that the stream never completed is completed to.
  abbrev pub complete_opened : Item → ℕ → OpenedItem → OpenedItem
  complete_opened call ref o = if not (is_nil o.done) then o else record o {
    done = with_id call o.call_id ref;
    from_response = true;
    model_call_id = if o.model_call_id == "" then id_of call else o.model_call_id;
  }

  abbrev pub listed_call : Item → ℕ → String → ℕ → OpenedItem
  listed_call call index id ref = record {
    index = index;
    done = with_id call id ref;
    item_id = env.item_id call;
    model_call_id = id_of call;
    call = true;
    call_id = id;
    from_response = true;
  }

  -- A call that the response pairs with one of the attempt's.
  abbrev pub complete_paired : Item → Option ℕ → Attempt → W → Attempt × W
  complete_paired call none a w = (a, w)
  complete_paired call (some position) a w = elim (get_elem? a.opened position) [
    | none ↦ (a, w)
    | some o ↦
        let (ref, w') = env.new_ref w in
        (
          record a { opened = set a.opened position (complete_opened call ref o) },
          if is_nil o.done then w' else w,
        )
  ]

  -- The calls that the response completes; those that the stream never opened are numbered last.
  unfoldable pub complete_calls :
      List Item → List Item → ℕ → Numbered → Attempt → W → List (Option ℕ) → Numbered × Attempt × W
  unfolding decide_call_id
  complete_calls transcript (item ∷ items) index n a w (some j ∷ paired) =
      let (a', w') =
        if is_call item then complete_paired item (get_elem? n.positions j) a w else (a, w) in
      complete_calls transcript items (suc index) n a' w' paired
  complete_calls transcript (item ∷ items) index n a w (none ∷ paired) =
      let (a1, w1) = decide_call_id env item index a transcript w in
      let id : String = elim (lookup index a1.call_at) [ none ↦ "" | some slot ↦ slot.id ] in
      let (ref, w2) = env.new_ref w1 in
      let m : Numbered = record {
        positions = n.positions ++ length a1.opened ∷ [];
        paired = set n.paired index (some (length n.positions));
        taken = n.taken ++ true ∷ [];
      } in
      let b : Attempt = record a1 { opened = a1.opened ++ listed_call item index id ref ∷ [] } in
      let (n', a', w') = if is_call item then (m, b, w2) else (n, a, w) in
      complete_calls transcript items (suc index) n' a' w' paired
  complete_calls transcript _ index n a w _ = (n, a, w)

  -- A completed call that no call of the response is paired with.
  unfoldable pub left_unpaired : List OpenedItem → List ℕ → List Bool → Bool
  left_unpaired opened (i ∷ positions) (t ∷ taken) =
      (not t && not (is_nil (item_at_position opened i))) || left_unpaired opened positions taken
  left_unpaired opened _ _ = false

  -- A call's place in the transcript, counted from 1.
  abbrev pub rank : List OpenedItem → List ℕ → ℕ → ℕ
  rank opened positions j = elim (get_elem? positions j) [
    | none ↦ suc j
    | some i ↦ suc (if from_response_at opened i then length positions + j else j)
  ]

  unfoldable pub out_of_order : List OpenedItem → List ℕ → ℕ → List (Option ℕ) → Bool
  out_of_order opened positions last [] = false
  out_of_order opened positions last (none ∷ paired) = out_of_order opened positions last paired
  out_of_order opened positions last (some j ∷ paired) =
      ltb (rank opened positions j) last
      || out_of_order opened positions (rank opened positions j) paired

  -- What the transcript holds of the calls, in its order.
  unfoldable pub done_items : Bool → List OpenedItem → List ℕ → List Item
  done_items late opened [] = []
  done_items late opened (i ∷ positions) =
      let rest = done_items late opened positions in
      let item = item_at_position opened i in
      let this = if late then from_response_at opened i else not (from_response_at opened i) in
      if this && not (is_nil item) then item ∷ rest else rest

  -- The calls of the response give way to the transcript's where the first of them stood.
  unfoldable pub give_way : List Item → List Item → List Item
  give_way held [] = held
  give_way held (item ∷ items) =
      let rest = give_way held items in
      if is_call item then held ++ keep (λ i. not (is_call i)) items else item ∷ rest

  unfoldable pub rename_each :
      List OpenedItem → List ℕ → Attempt → List Item → ℕ → List (Option ℕ) → W → List Item × W
  unfolding with_call_id
  rename_each opened positions a (item ∷ items) index (p ∷ paired) w =
      let held : Item = elim p [
        | none ↦ nil
        | some j ↦ elim (get_elem? positions j) [ none ↦ nil | some i ↦ item_at_position opened i ]
      ] in
      let (named, w1) = if is_nil held then with_call_id env item index a w else (held, w) in
      let (rest, w2) = rename_each opened positions a items (suc index) paired w1 in
      (named ∷ rest, w2)
  rename_each opened positions a items index _ w = (items, w)

  abbrev pub all_same : List Item → List Item → Bool
  all_same (x ∷ xs) (y ∷ ys) = same_item x y && all_same xs ys
  all_same _ _ = true

  unfoldable pub rename_calls : Response → List Item → Attempt → W → Response × Attempt × W
  unfolding call_positions pair_calls complete_calls left_unpaired out_of_order done_items give_way
      rename_each
  rename_calls resp transcript a w =
      let output = env.output resp in
      let complete = not (is_some (env.response_failed resp)) in
      let positions = call_positions complete 0 a.opened in
      let p = pair_calls env.item_id (keep (is_attempt_call complete) a.opened) output in
      let n0 : Numbered = record { positions = positions; paired = p.paired; taken = p.taken } in
      let (n, a1, w1) =
        if complete then complete_calls transcript output 0 n0 a w p.paired else (n0, a, w) in
      let held = done_items false a1.opened n.positions ++ done_items true a1.opened n.positions in
      let (named, w2) = rename_each a1.opened n.positions a1 output 0 n.paired w1 in
      if left_unpaired a1.opened n.positions n.taken
        || out_of_order a1.opened n.positions 0 n.paired
      then (env.with_output resp (give_way held output), a1, w1)
      else if all_same output named
      then (resp, a1, w2)
      else (env.with_output resp named, a1, w2)

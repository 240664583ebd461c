-- ===== src/Model/Pairs.antt =====
-- run.go: renameCalls: how the calls of a response are paired with those of the attempt.
use agentturn.Base.{
  ℕ, suc, Bool, true, false, not, ◌&&◌, ◌||◌, List, [], ◌∷◌, map, Option, none, some, String, ◌==◌,
  String-Comparable, Nat-Comparable, if◌then◌else◌, is_some, set,
}
use agentturn.Items.{Item, is_nil}
use agentturn.Loop.Pending.{id_of, arguments_of}
use agentturn.Model.Attempt.{OpenedItem, is_call}

-- What each item of the response is paired with, by the number of the call, and the calls paired.
pub record Pairing : Type 0 where
  pub paired : List (Option ℕ)
  pub taken : List Bool

abbrev pub or_else : {A : Type 0} → Option A → Option A → Option A
or_else none b = b
or_else (some a) b = some a

-- Whether the call at this position of the attempt is one: done, or opened and for the response to
-- complete.
abbrev pub is_attempt_call : Bool → OpenedItem → Bool
is_attempt_call complete o = is_call o.done || (complete && is_nil o.done && o.call)

unfoldable pub call_positions : Bool → ℕ → List OpenedItem → List ℕ
call_positions complete i [] = []
call_positions complete i (o ∷ opened) =
    let rest = call_positions complete (suc i) opened in
    if is_attempt_call complete o then i ∷ rest else rest

-- The first of the calls, from number `j` on, that is not taken and fits.
unfoldable pub pick : (OpenedItem → Bool) → ℕ → List OpenedItem → List Bool → Option ℕ
pick fits j (o ∷ calls) (t ∷ taken) =
    let rest = pick fits (suc j) calls taken in if not t && fits o then some j else rest
pick fits j _ _ = none

-- One pass over the calls of the response that are not paired yet.
unfoldable pub pass :
    (Item → List Bool → Option ℕ) → List Item → List (Option ℕ) → List Bool → Pairing
pass chooses (item ∷ items) (p ∷ paired) taken =
    let chosen = if is_call item && not (is_some p) then chooses item taken else none in
    let taken' : List Bool = elim chosen [ none ↦ taken | some j ↦ set taken j true ] in
    let rest = pass chooses items paired taken' in
    record rest { paired = or_else p chosen ∷ rest.paired }
pass chooses _ paired taken = record { paired = paired; taken = taken }

abbrev pub completed : OpenedItem → Bool
completed o = not (is_nil o.done)

module _ (item_id : Item → String) (calls : List OpenedItem) where
  abbrev pub by_item_id : Item → List Bool → Option ℕ
  by_item_id call taken =
      let named = λ (o : OpenedItem). o.item_id == item_id call in
      if item_id call == ""
      then none
      else or_else (pick (λ o. completed o && named o) 0 calls taken)
          (pick (λ o. not (completed o) && named o) 0 calls taken)

  abbrev pub by_call : Item → List Bool → Option ℕ
  by_call call taken =
      pick
        (λ o.
          completed o && o.model_call_id == id_of call && arguments_of o.done == arguments_of call)
        0 calls taken

  abbrev pub by_call_id : Item → List Bool → Option ℕ
  by_call_id call taken =
      if id_of call == "" then none else pick (λ o. o.model_call_id == id_of call) 0 calls taken

  unfoldable pub pair_calls : List Item → Pairing
  unfolding pass pick
  pair_calls output =
      let p0 : Pairing = record {
        paired = map (λ i. none) output;
        taken = map (λ o. false) calls;
      } in
      let p1 = pass by_item_id output p0.paired p0.taken in
      let p2 = pass by_call output p1.paired p1.taken in
      let p3 = pass by_call_id output p2.paired p2.taken in
      let p4 = pass (λ c taken. pick completed 0 calls taken) output p3.paired p3.taken in
      pass (λ c taken. pick (λ o. not (completed o)) 0 calls taken) output p4.paired p4.taken

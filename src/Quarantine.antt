-- ===== src/Quarantine.antt =====
-- quarantine.go: the set of items that a guard held back, and what it does to the items of a
-- request. The set is a Go map from item interfaces, so membership is `==` on them. A placeholder
-- is a new object: `fresh` is the address it is allocated at.
pub mod Apply
pub mod Membership
pub mod Adding
mod Tests
use agentturn.Base.{
  ◌>>=◌, ℕ, suc, ◌+◌, Bool, true, false, not, ◌&&◌, ◌||◌, List, [], ◌∷◌, ◌++◌, Option, none, some,
  String, Result, ok, err, ◌==◌, String-Comparable, Nat-Comparable, if◌then◌else◌, lookup, insert,
  get_or_else, any, is_empty,
}
use agentturn.Items.{
  Item, nil, at, Body, function_call, function_call_output, is_nil, same_item, comparable,
  call_id_of, output_id_of,
}

pub record Quarantine : Type 0 where
  pub items : List Item
  pub gen : ℕ

unfoldable pub empty : Quarantine
empty = record { items = []; gen = 0 }

-- `q.items[item]`
abbrev pub listed : List Item → Item → Bool
listed items item = any (same_item item) items

pub data Error : Type 0 where
  -- ErrNotQuarantinable, and the panic of `==` on a type that is not comparable.
  not_quarantinable uncomparable : Error

-- An item that is not nil and whose type is not comparable.
unfoldable pub refused : Item → Bool
refused item = not (is_nil item) && not (comparable item)

unfoldable pub add_one : Quarantine → Item → Quarantine
add_one q item =
    if is_nil item || listed q.items item
    then q
    else record { items = item ∷ q.items; gen = q.gen + 1 }

unfoldable pub add_all : Quarantine → List Item → Quarantine
add_all q [] = q
add_all q (item ∷ items) = add_all (add_one q item) items

unfoldable pub add : Quarantine → List Item → Result Error Quarantine
unfolding refused add_one add_all
add q items = if any refused items then err not_quarantinable else ok (add_all q items)

-- `held` in apply: a nil item, or one that `==` is not defined on, is in no set.
unfoldable pub held : Quarantine → Item → Bool
held q item = not (is_nil item) && comparable item && listed q.items item

-- The calls of the set, by call ID.
unfoldable pub call_held : List Item → String → Bool
call_held [] id = false
call_held (item ∷ items) id = elim (call_id_of item) [
  | none ↦ call_held items id
  | some i ↦ if i == id then true else call_held items id
]

unfoldable pub quarantined_output : String
quarantined_output = "[This output was withheld: a guard quarantined it as untrusted.]"

-- `last`: the latest call of each ID among the items walked so far.
abbrev pub note_call : Item → List (String × Item) → List (String × Item)
note_call item last = elim (call_id_of item) [ none ↦ last | some id ↦ insert id item last ]

-- Whether the call that an output answers is held: the nearest call of its ID before it, or, where
-- the items have none, any call of the set.
pub answers_held : Quarantine → List (String × Item) → String → Bool
unfolding held call_held
answers_held q last id = elim (lookup id last) [ none ↦ call_held q.items id | some c ↦ held q c ]

-- What the switch sends for an item: the item as it is, a placeholder, or nothing.
pub data Sent : Type 0 where
  as_is withheld gone : Sent

unfoldable pub sends : Quarantine → List (String × Item) → Item → Sent
unfolding answers_held
sends q last item = elim (output_id_of item) [
  | none ↦ if held q item then gone else as_is
  | some id ↦
      if answers_held q (note_call item last) id
      then gone
      else if held q item
      then withheld
      else as_is
]

-- `placeholder := *out2` with its output replaced, at a new address.
abbrev pub placeholder : ℕ → Item → Item
placeholder fresh (at r (function_call_output id o)) =
    at fresh (function_call_output id quarantined_output)
placeholder fresh item = item

-- What the copy holds after an item, where it has been made: an item that is not sent makes it, of
-- the items before; a nil item is left out of it.
next_out : Sent → ℕ → List Item → Option (List Item) → Item → Option (List Item)
next_out gone fresh before out item = some (get_or_else out before)
next_out withheld fresh before out item =
    some (get_or_else out before ++ placeholder fresh item ∷ [])
next_out as_is fresh before none item = none
next_out as_is fresh before (some o) item = some (if is_nil item then o else o ++ item ∷ [])

abbrev pub next_fresh : Sent → ℕ → ℕ
next_fresh withheld fresh = suc fresh
next_fresh _ fresh = fresh

-- The loop over the items from some index on; `before` is `items[:i]`. `sent == item` panics where
-- the item's type is not comparable, since nothing else is then sent for it.
apply_loop :
    Quarantine
    → List (String × Item)
    → ℕ
    → List Item
    → Option (List Item)
    → List Item
    → Result Error (Option (List Item))
unfolding sends next_out
apply_loop q last fresh before out [] = ok out
apply_loop q last fresh before out (item ∷ items) =
    let sent = sends q last item in
    let rest =
      apply_loop q (note_call item last) (next_fresh sent fresh) (before ++ item ∷ [])
        (next_out sent fresh before out item) items in
    if refused item then err uncomparable else rest

unfoldable pub apply : Quarantine → ℕ → List Item → Result Error (List Item)
unfolding apply_loop
apply q fresh items =
    if is_empty q.items
    then ok items
    else do out ← apply_loop q [] fresh [] none items; ok (get_or_else out items)

unfoldable pub has : Quarantine → Item → Bool
unfolding call_held
has q item =
    if is_nil item
    then false
    else if comparable item && listed q.items item
    then true
    else elim (output_id_of item) [ none ↦ false | some id ↦ call_held q.items id ]

-- ===== src/Reasoning.antt =====
-- reasoning.go: which model produced each reasoning item, and what is left out of a request to
-- another. The map's keys are the items' addresses.
pub mod Laws
mod Tests
use agentturn.Base.{
  ℕ, Bool, true, false, not, ◌&&◌, List, [], ◌∷◌, ◌++◌, Option, none, some, String, ◌==◌,
  String-Comparable, Nat-Comparable, if◌then◌else◌, lookup, insert, get_or_else, is_some, is_empty,
}
use agentturn.Items.{Item, nil, at, Body, reasoning, reasoning_ref}

abbrev pub ReasoningModels : Type 0
ReasoningModels = List (ℕ × String)

-- `m[r] = modelName` unless it is known.
attribute_one : String → ReasoningModels → Item → ReasoningModels
attribute_one model m item = elim (reasoning_ref item) [
  | none ↦ m
  | some r ↦ if is_some (lookup r m) then m else insert r model m
]

attribute_all : String → ReasoningModels → List Item → ReasoningModels
attribute_all model m [] = m
attribute_all model m (item ∷ items) = attribute_all model (attribute_one model m item) items

unfoldable pub attribute : String → ReasoningModels → List Item → ReasoningModels
unfolding attribute_all attribute_one
attribute model m items = if model == "" then m else attribute_all model m items

-- `by, known := m[r]; known && by != modelName`
unfoldable pub dropped : ReasoningModels → String → Item → Bool
dropped m model item = elim (reasoning_ref item) [
  | none ↦ false
  | some r ↦ elim (lookup r m) [ none ↦ false | some by ↦ not (by == model) ]
]

-- The loop of For over the items from some index on: `before` is `t[:i]`, and `out` is the copy,
-- which the first item left out makes.
for_loop :
    ReasoningModels → String → List Item → Option (List Item) → List Item → Option (List Item)
unfolding dropped
for_loop m model before out [] = out
for_loop m model before out (item ∷ t) =
    for_loop m model (before ++ item ∷ [])
      (if dropped m model item
        then some (get_or_else out before)
        else elim out [ none ↦ none | some o ↦ some (o ++ item ∷ []) ])
      t

unfoldable pub for_model : ReasoningModels → String → List Item → List Item
unfolding for_loop
for_model m model t =
    if model == "" then t else if is_empty m then t else get_or_else (for_loop m model [] none t) t

-- `merged`: the second map's entries over the first one's.
unfoldable pub merged : ReasoningModels → ReasoningModels → ReasoningModels
merged m [] = m
merged m ((r, name) ∷ more) = insert r name (merged m more)

-- `retain`: the entries whose item the transcript holds.
retain_one : ReasoningModels → ReasoningModels → Item → ReasoningModels
retain_one m out item = elim (reasoning_ref item) [
  | none ↦ out
  | some r ↦ elim (lookup r m) [ none ↦ out | some name ↦ insert r name out ]
]

retain_from : ReasoningModels → ReasoningModels → List Item → ReasoningModels
retain_from m out [] = out
retain_from m out (item ∷ t) = retain_from m (retain_one m out item) t

unfoldable pub retain : ReasoningModels → List Item → ReasoningModels
unfolding retain_from retain_one
retain m t = retain_from m [] t

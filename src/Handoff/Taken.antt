-- ===== src/Handoff/Taken.antt =====
-- front/responses/handoff.go and handoff/handoff.go: the transfers that a conversation took, the route
-- of a team, and the trims between its agents. An output may have parts in place of its text, which
-- `has_parts` says of it.
use agentturn.Base.{
  ℕ, suc, ◌-◌, Bool, not, ◌&&◌, ◌||◌, List, [], ◌∷◌, ◌++◌, Option, none, some, String,
  if◌then◌else◌, ◌==◌, String-Comparable, lookup, insert, take, drop, is_some,
}
use agentturn.Items.{Item, at, function_call_output, call_id_of, output_id_of}
use agentturn.Loop.Pending.{name_of}
use agentturn.Model.Turn.{withheld_call_output}
use agentturn.Handoff.{Config, Filter, Team, config}

-- Where a call leads, and the text that its tool answers with.
abbrev pub Route : Type 0 → Type 0
Route C = Item → Option (C × String)

pub record Handoff (C : Type 0) : Type 0 where
  pub call : Item
  pub output : ℕ
  pub to : C

-- `delete(open, id)`
unfoldable pub forget {ℓ} : {A : Type ℓ} → String → List (String × A) → List (String × A)
forget id [] = []
forget id ((key, a) ∷ entries) =
    let rest = forget id entries in if key == id then rest else (key, a) ∷ rest

abbrev pub text_of : Item → String
text_of (at r (function_call_output id text)) = text
text_of _ = ""

module _ {C : Type 0} (has_parts : Item → Bool) (route : Route C) where
  abbrev pub Open : Type 0
  Open = List (String × (Item × C × String))

  -- A call that the route names is open until an output answers it.
  abbrev pub opened : Item → String → Open → Open
  opened call id open_calls = elim (route call) [
    | none ↦ open_calls
    | some (to, text) ↦ insert id (call, to, text) open_calls
  ]

  abbrev pub handed : Item → String → Bool
  handed item text =
      not (has_parts item) && text_of item == text && not (text_of item == withheld_call_output)

  unfoldable pub handoffs_from : ℕ → Open → List Item → List (Handoff C)
  unfolding forget
  handoffs_from i open_calls [] = []
  handoffs_from i open_calls (item ∷ t) = elim (call_id_of item) [
    | some id ↦ handoffs_from (suc i) (opened item id open_calls) t
    | none ↦ elim (output_id_of item) [
      | none ↦ handoffs_from (suc i) open_calls t
      | some id ↦ elim (lookup id open_calls) [
        | none ↦ handoffs_from (suc i) open_calls t
        | some (call, to, text) ↦
            let rest = handoffs_from (suc i) (forget id open_calls) t in
            if handed item text then record { call = call; output = i; to = to } ∷ rest else rest
      ]
    ]
  ]

  unfoldable pub handoffs : List Item → List (Handoff C)
  unfolding handoffs_from
  handoffs t = handoffs_from 0 [] t

  abbrev pub last_to : List (Handoff C) → Option C
  last_to [] = none
  last_to (h ∷ []) = some h.to
  last_to (h ∷ k ∷ hs) = last_to (k ∷ hs)

  unfoldable pub handed_to : List Item → Option C
  unfolding handoffs
  handed_to t = last_to (handoffs t)

  -- The loop of TrimHandedOff.
  unfoldable pub trim_from :
      (C → C → List Item → List Item) → List Item → List (Handoff C) → C → ℕ → List Item → List Item
  trim_from trim t [] from pos out = out ++ drop pos t
  trim_from trim t (h ∷ hs) from pos out =
      trim_from trim t hs h.to (suc h.output)
        (trim from h.to (out ++ take (suc h.output - pos) (drop pos t)))

  unfoldable pub trim_handed_off :
      Option (C → C → List Item → List Item) → C → List Item → List Item
  unfolding trim_from handoffs
  trim_handed_off none start t = t
  trim_handed_off (some trim) start t = trim_from trim t (handoffs t) start 0 []

module _ {Ctx : Type 0} (team : Team Ctx) where
  -- Team.Route; `answer` is the text that names an assistant.
  unfoldable pub route_of : (String → String) → Route (Config Ctx)
  unfolding config
  route_of answer call = elim (lookup (name_of call) team.tools) [
    | none ↦ none
    | some name ↦ some (config team name, answer name)
  ]

  unfoldable pub find_filter : String → String → List ((String × String) × Filter) → Option Filter
  find_filter from to [] = none
  find_filter from to (((f, t), filter) ∷ filters) =
      let rest = find_filter from to filters in if f == from && t == to then some filter else rest

  unfoldable pub trim : Config Ctx → Config Ctx → List Item → List Item
  unfolding find_filter
  trim from to t = elim (find_filter from.name to.name team.filters) [ none ↦ t | some f ↦ f t ]

abbrev or_own : Option ℕ → Option ℕ → Option ℕ
or_own none from = from
or_own (some own) from = some own

unfoldable pub inherit : {Ctx : Type 0} → Config Ctx → Config Ctx → Config Ctx
inherit next from = record next {
  tool_elicitor = or_own next.tool_elicitor from.tool_elicitor;
  tool_recorder = or_own next.tool_recorder from.tool_recorder;
}

unfoldable pub remove_all_tools : List Item → List Item
remove_all_tools [] = []
remove_all_tools (item ∷ t) =
    let rest = remove_all_tools t in
    if is_some (call_id_of item) || is_some (output_id_of item) then rest else item ∷ rest

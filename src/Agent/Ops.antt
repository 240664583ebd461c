-- ===== src/Agent/Ops.antt =====
-- agent.go: the agent's queues under any sequence of their operations, each under the mutex: what is
-- accepted is handed to a turn once, in order, or still waits.
pub mod Laws
use agentturn.Base.{
  ℕ, zero, suc, ◌+◌, ◌≤◌, Bool, true, false, not, ◌&&◌, ◌||◌, List, [], ◌∷◌, ◌++◌, map, Option,
  none, some, String, Result, ok, err, ◌==◌, String-Comparable, if◌then◌else◌, is_empty, keep,
  keep-append, append-nil, append_assoc, ◌≡◌, refl, sym, ap, ◌∙◌, subst, arith, inl, inr, ◌⊎◌,
  Bool-cases,
}
use agentturn.Items.{Item, Input, Trigger, trigger_refused, provenance, is_nil_input}
use agentturn.Loop.{InputMode, steered, follow_up, deliver, TurnInput}
use agentturn.Loop.Append.{own_trigger}
use agentturn.Agent.{
  QueueMode, queue_steer, queue_follow_up, QueuedItem, Queues, turn_input, inputs_of, queue_one,
  queue, take_steer, drain_steer, drain_last, close, drain_follow_up, enqueue,
}

-- The operations, with what each is given.
pub data Op : Type 0 where
  accepts : Trigger → QueueMode → (outside : Bool) → List Input → Op
  delivers : Trigger → (outside : Bool) → List Input → Op
  takes takes_follow_ups takes_last closes : Op

-- What an operation hands to the turn that runs it, and what it leaves.
unfoldable pub step : Op → Queues → List TurnInput × Queues
step (accepts trigger mode outside items) a = ([], (enqueue trigger mode outside items a).1)
step (delivers trigger outside items) a = ([], queue trigger queue_steer deliver outside items a)
step takes a = drain_steer a
step takes_follow_ups a = drain_follow_up a
step takes_last a = drain_last a
step closes a = ([], (close a).1)

unfoldable pub steps : List Op → Queues → List TurnInput × Queues
unfolding step
steps [] a = ([], a)
steps (op ∷ ops) a = let (out, a1) = step op a in let (rest, a2) = steps ops a1 in (out ++ rest, a2)

-- The inputs that an accept stands for: one for each item but the nil ones.
abbrev pub input_of : Trigger → InputMode → Input → TurnInput
input_of trigger how item = record {
  item = item;
  mode = how;
  trigger = own_trigger (provenance item) trigger;
}

abbrev pub entries : Trigger → InputMode → List Input → List QueuedItem
entries trigger how [] = []
entries trigger how (item ∷ items) =
    if is_nil_input item
    then entries trigger how items
    else record { item = item; mode = how; trigger = own_trigger (provenance item) trigger }
      ∷ entries trigger how items

abbrev pub accepted : Op → List TurnInput
accepted (accepts trigger queue_steer outside items) =
    if trigger_refused trigger then [] else inputs_of (entries trigger steered items)
accepted (accepts trigger queue_follow_up outside items) =
    if trigger_refused trigger then [] else inputs_of (entries trigger follow_up items)
accepted (delivers trigger outside items) = inputs_of (entries trigger deliver items)
accepted takes = []
accepted takes_follow_ups = []
accepted takes_last = []
accepted closes = []

abbrev pub accepted_by : List Op → List TurnInput
accepted_by [] = []
accepted_by (op ∷ ops) = accepted op ++ accepted_by ops

-- Steers and deliveries, or follow-ups.
abbrev pub is_late : TurnInput → Bool
is_late i = elim i.mode [ follow_up ↦ true | _ ↦ false ]

abbrev pub kind : Bool → TurnInput → Bool
kind true i = is_late i
kind false i = not (is_late i)

abbrev pub of : Bool → List TurnInput → List TurnInput
of b xs = keep (kind b) xs

abbrev pub waiting : Queues → List TurnInput
waiting a = inputs_of a.steer ++ inputs_of a.follow_ups

-- Each queue holds its own kind.
abbrev pub IsSorted : Queues → Type 0
IsSorted a = (of true (inputs_of a.steer) ≡ []) × (of false (inputs_of a.follow_ups) ≡ [])

module _ (trigger : Trigger) (how : InputMode) (outside : Bool) where
  queue-steer :
      (items : List Input) (a : Queues)
      → ((queue trigger queue_steer how outside items a).steer
          ≡ a.steer ++ entries trigger how items)
        × ((queue trigger queue_steer how outside items a).follow_ups ≡ a.follow_ups)
        × ((queue trigger queue_steer how outside items a).drains ≡ a.drains)
  unfolding queue queue_one
  queue-steer [] a = (sym (append-nil a.steer), refl, refl)
  queue-steer (item ∷ items) a = elim (Bool-cases (is_nil_input item)) [
    | inl e ↦ rw (e, queue) (queue-steer items a)
    | inr e ↦
        let placed = queue_one trigger queue_steer how outside item a in
        let (s, f, d) = queue-steer items placed in
        rw (e, queue) (s ∙ append_assoc a.steer _ (entries trigger how items), f, d)
  ]

  queue-follow_up :
      (items : List Input) (a : Queues)
      → ((queue trigger queue_follow_up how outside items a).steer ≡ a.steer)
        × ((queue trigger queue_follow_up how outside items a).follow_ups
            ≡ a.follow_ups ++ entries trigger how items)
        × ((queue trigger queue_follow_up how outside items a).drains ≡ a.drains)
  unfolding queue queue_one
  queue-follow_up [] a = (refl, sym (append-nil a.follow_ups), refl)
  queue-follow_up (item ∷ items) a = elim (Bool-cases (is_nil_input item)) [
    | inl e ↦ rw (e, queue) (queue-follow_up items a)
    | inr e ↦
        let placed = queue_one trigger queue_follow_up how outside item a in
        let (s, f, d) = queue-follow_up items placed in
        rw (e, queue) (s, f ∙ append_assoc a.follow_ups _ (entries trigger how items), d)
  ]

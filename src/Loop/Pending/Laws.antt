-- ===== src/Loop/Pending/Laws.antt =====
-- run.go: what unansweredCalls, pending, continuedInputs and terminates promise.
use agentturn.Base.{
  Bool, true, false, ◌&&◌, ◌||◌, List, [], ◌∷◌, ◌++◌, map, reverse, Option, none, some, String,
  String-Comparable, if◌then◌else◌, any, all, All, is_empty, ◌≡◌, refl, ◌∙◌, subst, arith, inl, inr,
  ◌⊎◌, Bool-cases, reverse-cons, reverse-reverse, append-nil, append_assoc,
}
use agentturn.Items.{Item}
use agentturn.Loop.{StopCause, terminate, partial_terminate}
use agentturn.Loop.Pending.{
  model_produced, step_back, continued_input, continued_inputs, count_terminates, terminates,
}

-- The transcript's end that the model has not answered, and what comes before it.
abbrev EndsProduced : (String → Bool) → List Item → Type 0
EndsProduced extension done =
    (done ≡ [])
    ⊎ ((d : List Item) × (x : Item) × (done ≡ d ++ x ∷ []) × (model_produced extension x ≡ true))

abbrev pub OpenInput : (String → Bool) → List Item → List Item → Type 0
OpenInput extension t open_items =
    (done : List Item) × (t ≡ done ++ open_items)
    × All (λ i. model_produced extension i ≡ false) open_items
    × EndsProduced extension done

module _ (extension : String → Bool) where
  reverse-shift :
      (x : Item) (before after : List Item)
      → reverse (x ∷ before) ++ after ≡ reverse before ++ x ∷ after
  reverse-shift x before after = rw reverse-cons (append_assoc (reverse before) (x ∷ []) after)

  step_back-OpenInput :
      (before after : List Item)
      → All (λ i. model_produced extension i ≡ false) after
      → OpenInput extension (reverse before ++ after) (step_back extension before after)
  unfolding step_back
  step_back-OpenInput [] after h = ([], refl, h, inl refl)
  step_back-OpenInput (x ∷ before) after h = elim (Bool-cases (model_produced extension x)) [
    | inl e ↦
        rw e (reverse (x ∷ before), refl, h, inr (reverse before, x, reverse-cons x before, e))
    | inr e ↦ rw (e, reverse-shift x before after) (step_back-OpenInput before (x ∷ after) (e, h))
  ]

-- The input a run continues from is the transcript's longest end with nothing of the model's in it,
-- in order: the items before it are none, or end with one that the model produced.
pub continued_inputs-OpenInput :
    (extension : String → Bool) (t : List Item)
    → (open_items : List Item) × (continued_inputs extension t ≡ map continued_input open_items)
      × OpenInput extension t open_items
unfolding continued_inputs
continued_inputs-OpenInput extension t = (
  step_back extension (reverse t) [],
  refl,
  subst (λ u. OpenInput extension u (step_back extension (reverse t) []))
      (append-nil _ ∙ reverse-reverse t) (step_back-OpenInput extension (reverse t) [] tt),
)

abbrev truth : Bool → Bool
truth b = b

count_terminates-eq :
    (a b : Bool) (results : List Bool)
    → count_terminates a b results ≡ (a || any truth results, b && all truth results)
unfolding count_terminates
count_terminates-eq a b [] = ground arith
count_terminates-eq a b (true ∷ results) = ground (arith, count_terminates-eq true b results)
count_terminates-eq a b (false ∷ results) = ground (arith, count_terminates-eq a false results)

abbrev pub terminates_reference : List Bool → Option StopCause
terminates_reference results =
    if is_empty results
    then none
    else if all truth results
    then some terminate
    else if any truth results
    then some partial_terminate
    else none

-- A batch ends the run when every result asks to terminate and there is one, ends it as partial when
-- some do and some do not, and lets it go on when none does.
pub terminates-eq : (results : List Bool) → terminates results ≡ terminates_reference results
unfolding terminates
terminates-eq [] = ground arith
terminates-eq (r ∷ results) = ground (arith, count_terminates-eq false true (r ∷ results))

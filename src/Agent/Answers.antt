-- ===== src/Agent/Answers.antt =====
-- agent.go: answersPending, the check that a prompt answers what is pending, and runAgain, the rule
-- for running a call that may have run.
pub mod Laws
use agentturn.Base.{
  ℕ, Bool, true, false, not, ◌&&◌, ◌||◌, List, [], ◌∷◌, map, Option, none, some, String, Result, ok,
  err, ◌==◌, String-Comparable, if◌then◌else◌, contains, add_key, length, is_empty, keep,
}
use agentturn.Items.{Input, plain, marked, output_id_of, unhide_all}
use agentturn.Loop.{PendingCall}
use agentturn.Loop.Pending.{id_of}

pub data AnswerError : Type 0 where
  not_pending : (call_id : String) → AnswerError
  input_required : (unanswered : ℕ) → AnswerError

-- `delete(want, id)`
abbrev pub remove_key : String → List String → List String
remove_key id want = keep (λ k. not (k == id)) want

abbrev pub wanted : List PendingCall → List String
wanted [] = []
wanted (p ∷ pending) = add_key (id_of p.call) (wanted pending)

-- `item.(*openresponses.FunctionCallOutput)`: an item in its wrapper is no output.
abbrev pub output_of : Input → Option String
output_of (plain item) = output_id_of item
output_of (marked m) = none

unfoldable pub answers_loop : List String → List Input → Result AnswerError (List String)
answers_loop want [] = ok want
answers_loop want (item ∷ items) = elim (output_of item) [
  | none ↦ ok want
  | some id ↦
      let rest = answers_loop (remove_key id want) items in
      if contains want id then rest else err (not_pending id)
]

abbrev pub settled : Result AnswerError (List String) → Result AnswerError (Unit {0})
settled (ok []) = ok tt
settled (ok (k ∷ want)) = err (input_required (length (k ∷ want)))
settled (err e) = err e

unfoldable pub answers_pending : List PendingCall → List Input → Result AnswerError (Unit {0})
unfolding answers_loop
answers_pending pending prompts = settled (answers_loop (wanted pending) (unhide_all prompts))

-- agenttool.Replay, as ReplayOf gives it for the tool and its arguments.
pub data Replay : Type 0 where
  safe keyed unsafe : Replay

pub data RunAgain : Type 0 where
  safe_reason keyed_reason : RunAgain

pub data AmbiguousCall : Type 0 where
  no_key no_prior_key other_key other_args ambiguous : AmbiguousCall

-- `same` is whether the arguments are those of the hand-off that is repeated.
unfoldable pub run_again : Replay → Bool → (key prior_key : String) → Result AmbiguousCall RunAgain
run_again safe same key prior_key = ok safe_reason
run_again keyed same key prior_key =
    if key == ""
    then err no_key
    else if same && prior_key == ""
    then err no_prior_key
    else if same && not (key == prior_key)
    then err other_key
    else if not same && key == prior_key
    then err other_args
    else ok keyed_reason
run_again unsafe same key prior_key = err ambiguous

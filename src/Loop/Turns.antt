-- ===== src/Loop/Turns.antt =====
-- run.go: the turns of loop. What they call of the program beside this module's siblings is a parameter:
-- the queues of the agent, the hooks, the model's turn and the batches of tool calls. `turns` has
-- fuel, one unit a turn; the program has none.
pub mod Bound
use agentturn.Base.{
  ℕ, zero, suc, ◌+◌, Bool, true, false, not, ◌&&◌, ◌||◌, List, [], ◌∷◌, ◌++◌, map, Option, none,
  some, String, Result, ok, err, if◌then◌else◌, ltb, leb, is_empty, length, ◌==◌, String-Comparable,
}
use agentturn.Items.{Item, Input, Trigger, zero_trigger, unhide, unhide_all, output_id_of}
use agentturn.Items.Marks.{base}
use agentturn.Loop.{
  InputMode, prompt, resume, hook, TurnInput, Note, Reason, done, stopped, input_required, aborted,
  error, StopCause, no_cause, max_turns, stop_hook, guard, refused, Source, RunEnd, PendingCall,
  Event, run_start, turn_end, run_end, Halt, stop, fault, Runner, State, Act,
}
use agentturn.Loop.Append.{
  ◌>>=◌, ◌>>◌, pure, halt, get, put, emit, append_with, append_items, append_arrived,
}
use agentturn.Loop.Notes.{same_notes, report_notes, hold, flush_notes}
use agentturn.Loop.Pending.{source, terminates, continued_inputs, pending}

pub record Env (W Err Response : Type 0) : Type 0 where
  pub send : Event Err → W → Option Err × W
  pub json : Item → Option String
  pub extension : String → Bool
  pub same_args : String → String → Bool
  pub is_guard : Err → Bool
  -- `errors.Is`
  pub is_error : Err → Err → Bool
  -- The cause of the context's cancellation, once it is cancelled.
  pub cancelled : W → Option Err
  -- The queues: `none` for a run that has none.
  pub steer : Option (W → List TurnInput × W)
  pub follow_up : Option (W → List TurnInput × W)
  pub last : Option (W → List TurnInput × W)
  pub closing : Option (W → Bool × W)
  pub max_turn_count : ℕ
  pub before_turn : Option (ℕ → Runner → W → Result Err (List Input) × W)
  pub should_stop : Option (ℕ → Response → List Bool → Bool → Runner → W → Result Err Bool × W)
  -- Whether the tools of the turn are refused, and by what.
  pub tools_refused : W → Option Err × W
  pub model_turn : ℕ → Act W Err Response
  pub function_calls : Response → List Item
  -- A batch gives the results, by whether they ask to terminate, and the calls still pending.
  pub tool_batch : ℕ → List Item → Act W Err (List Bool × List Item)
  pub approved_batch : Act W Err (List Bool × List Item)

-- A turn goes on, or the run is done.
pub data Next : Type 0 where
  again finished : Next

module _ {W Err Response : Type 0} (env : Env W Err Response) where
  open env use {send}

  abbrev pub use_queue : Option (W → List TurnInput × W) → Act W Err (List TurnInput)
  use_queue none s = (ok [], s)
  use_queue (some q) s = let (inputs, w) = q s.world in (ok inputs, record s { world = w })

  -- `r.ending()`
  abbrev pub ending : Act W Err Bool
  ending s = elim env.closing [
    | none ↦ (ok false, s)
    | some close ↦ let (waiting, w) = close s.world in (ok waiting, record s { world = w })
  ]

  abbrev pub drain_last : Act W Err (List TurnInput)
  drain_last = elim env.last [
    | some q ↦ use_queue (some q)
    | none ↦ do a ← use_queue env.steer; b ← use_queue env.follow_up; pure (a ++ b)
  ]

  abbrev pub stop_with : {A : Type 0} → Reason → StopCause → Option Err → Act W Err A
  stop_with reason cause e = halt (stop reason cause e false)

  -- A hook's error: a guard's stops the run, any other fails it.
  abbrev pub hook_error : {A : Type 0} → Err → Act W Err A
  hook_error e = if env.is_guard e then stop_with stopped guard (some e) else halt (fault e)

  unfoldable pub run_before_turn : ℕ → Act W Err (Unit {0})
  unfolding append_items
  run_before_turn turn s = elim env.before_turn [
    | none ↦ (ok tt, s)
    | some before ↦
        let (r, w) = before turn s.run s.world in
        let s' : State W = record s { world = w } in
        elim r [ ok items ↦ append_items send items hook s' | err e ↦ hook_error e s' ]
  ]

  unfoldable pub check_tools : Act W Err (Unit {0})
  check_tools s =
      let (e, w) = env.tools_refused s.world in
      elim e [
        | none ↦ (ok tt, record s { world = w })
        | some x ↦ (err (fault x), record s { world = w })
      ]

  unfoldable pub run_should_stop : ℕ → Response → List Bool → Bool → Act W Err (Unit {0})
  run_should_stop turn resp results final s = elim env.should_stop [
    | none ↦ (ok tt, s)
    | some should ↦
        let (r, w) = should turn resp results final s.run s.world in
        let s' : State W = record s { world = w } in
        elim r [
          | ok false ↦ (ok tt, s')
          | ok true ↦ (ending >>= λ _. stop_with stopped stop_hook none) s'
          | err e ↦ (ending >>= λ _. hook_error e) s'
        ]
  ]

  abbrev pub ends_pending : List Item → Act W Err (Unit {0})
  ends_pending [] = pure tt
  ends_pending (p ∷ ps) = ending >>= λ _. stop_with input_required no_cause none

  abbrev pub ends_terminated : List Bool → Act W Err (Unit {0})
  ends_terminated results = elim (terminates results) [
    | none ↦ pure tt
    | some cause ↦ ending >>= λ _. stop_with stopped cause none
  ]

  -- A spent budget stops a turn with calls, and one with anything still queued.
  abbrev pub spend : List Item → Bool → Act W Err Next
  spend calls waiting =
      if not (is_empty calls) || waiting then stop_with stopped max_turns none else pure finished

  -- What follows a turn that nothing stopped: the budget, then the queues.
  unfoldable pub after_turn : ℕ → List Item → Act W Err Next
  unfolding append_arrived
  after_turn turn calls =
      let spent : Act W Err Next = do waiting ← ending; spend calls waiting
      in let steered : Act W Err Next = do
        inputs ← use_queue env.steer
        append_arrived send inputs
        pure again
        in let settled : Act W Err Next = do
          inputs ← drain_last
          if is_empty inputs then pure finished else append_arrived send inputs >> pure again
          in if ltb 0 env.max_turn_count && leb env.max_turn_count turn
            then spent
            else if is_empty calls
            then settled
            else steered

  -- One round of the loop, as turn number `turn`.
  unfoldable pub one_turn : ℕ → Act W Err Next
  unfolding run_before_turn check_tools run_should_stop after_turn emit
  one_turn turn = do
    run_before_turn turn
    check_tools
    resp ← env.model_turn turn
    (results, waiting) ← env.tool_batch turn (env.function_calls resp)
    emit send (turn_end turn)
    ends_pending waiting
    run_should_stop turn resp results (is_empty (env.function_calls resp))
    ends_terminated results
    after_turn turn (env.function_calls resp)

  -- The loop, `turn` turns done: how it ended, in which state, after how many turns.
  unfoldable pub turns : ℕ → ℕ → State W → Option (Result (Halt Err) (Unit {0}) × State W × ℕ)
  turns zero turn s = none
  turns (suc fuel) turn s = elim (env.cancelled s.world) [
    | some cause ↦ some (err (stop aborted no_cause (some cause) false), s, turn)
    | none ↦
        let (r, s') = one_turn (turn + 1) s in
        elim r [
          | err e ↦ some (err e, s', turn + 1)
          | ok finished ↦ some (ok tt, s', turn + 1)
          | ok again ↦ turns fuel (turn + 1) s'
        ]
  ]

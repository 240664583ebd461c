-- ===== src/Chain.antt =====
-- chain.go: the Chain functions, which join several functions for one hook of a configuration into
-- one. A hook is a Go function value, `none` for nil. What a hook does besides returning (reading
-- the clock, editing the request it holds by pointer, counting) goes through the state `W`, so the
-- order of the calls and which of them are made can be seen. The context is the same for every
-- function of a chain and is left to the closures.
pub mod Decision
pub mod Laws
pub mod Merged
pub mod ToolCall
mod Tests
use agentturn.Base.{
  ◌≡◌, Bool, true, false, ◌++◌, List, [], ◌∷◌, Option, none, some, String, Result, ok, err,
  if◌then◌else◌,
}
use Decision.{ToolDecision, ToolAction, block, merge, is_block}

-- `kept`: the functions that are not nil.
module _ {ℓ} {A : Type ℓ} where
  abbrev pub kept : List (Option A) → List A
  kept [] = []
  kept (none ∷ fns) = kept fns
  kept (some fn ∷ fns) = fn ∷ kept fns

  -- A chain of no function is the nil hook.
  abbrev pub chained : (List A → A) → List A → Option A
  chained run [] = none
  chained run (fn ∷ fns) = some (run (fn ∷ fns))

-- The request is edited in place, so it is part of `W`; `none` is the nil error.
abbrev pub BeforeModelCall : Type 0 → Type 0 → Type 0
BeforeModelCall W Err = W → Option Err × W

module _ {W Err : Type 0} where
  pub run_before_model_call : List (BeforeModelCall W Err) → BeforeModelCall W Err
  run_before_model_call [] w = (none, w)
  run_before_model_call (fn ∷ fns) w =
      let (e, w') = fn w in elim e [ none ↦ run_before_model_call fns w' | some e ↦ (some e, w') ]

  pub chain_before_model_call :
      List (Option (BeforeModelCall W Err)) → Option (BeforeModelCall W Err)
  unfolding run_before_model_call
  chain_before_model_call fns = chained run_before_model_call (kept fns)

-- A transform of the transcript `T`.
abbrev pub Transform : Type 0 → Type 0 → Type 0 → Type 0
Transform W Err T = T → W → Result Err T × W

module _ {W Err T : Type 0} where
  pub run_transform : List (Transform W Err T) → Transform W Err T
  run_transform [] t w = (ok t, w)
  run_transform (fn ∷ fns) t w =
      let (r, w') = fn t w in elim r [ ok t' ↦ run_transform fns t' w' | err e ↦ (err e, w') ]

  pub chain_transform : List (Option (Transform W Err T)) → Option (Transform W Err T)
  unfolding run_transform
  chain_transform fns = chained run_transform (kept fns)

-- A hook that returns items for the turn.
abbrev pub BeforeTurn : Type 0 → Type 0 → Type 0 → Type 0 → Type 0
BeforeTurn W Err Info Item = Info → W → Result Err (List Item) × W

module _ {W Err Info Item : Type 0} where
  -- The loop, with the items that the hooks before returned.
  pub run_before_turn : List Item → List (BeforeTurn W Err Info Item) → BeforeTurn W Err Info Item
  run_before_turn items [] info w = (ok items, w)
  run_before_turn items (fn ∷ fns) info w =
      let (r, w') = fn info w in
      elim r [ ok got ↦ run_before_turn (items ++ got) fns info w' | err e ↦ (err e, w') ]

  pub chain_before_turn :
      List (Option (BeforeTurn W Err Info Item)) → Option (BeforeTurn W Err Info Item)
  unfolding run_before_turn
  chain_before_turn fns = chained (run_before_turn []) (kept fns)

-- A hook that may end the run.
abbrev pub ShouldStop : Type 0 → Type 0 → Type 0 → Type 0
ShouldStop W Err Info = Info → W → Result Err Bool × W

module _ {W Err Info : Type 0} where
  pub run_should_stop : List (ShouldStop W Err Info) → ShouldStop W Err Info
  run_should_stop [] info w = (ok false, w)
  run_should_stop (fn ∷ fns) info w =
      let (r, w') = fn info w in
      elim r [
        | ok stop ↦ elim stop [ true ↦ (ok true, w') | false ↦ run_should_stop fns info w' ]
        | err e ↦ (err e, w')
      ]

  pub chain_should_stop_after_turn :
      List (Option (ShouldStop W Err Info)) → Option (ShouldStop W Err Info)
  unfolding run_should_stop
  chain_should_stop_after_turn fns = chained run_should_stop (kept fns)

-- What a tool hook is told: the arguments, which the chain rewrites, and the rest of the call.
pub record ToolCallInfo (Call : Type 0) : Type 0 where
  pub call : Call
  pub args : Option String

module _ {Call : Type 0} where
  abbrev pub with_args : ToolCallInfo Call → Option String → ToolCallInfo Call
  with_args info none = info
  with_args info (some a) = record info { args = some a }

-- The fold so far, joined with what one hook decided.
abbrev pub fold_decision : Option ToolDecision → ToolDecision → ToolDecision
fold_decision none d = d
fold_decision (some out) d = merge out d

-- A tool hook; a nil decision is `none`.
abbrev pub BeforeToolCall : Type 0 → Type 0 → Type 0 → Type 0
BeforeToolCall W Err Call = ToolCallInfo Call → W → Result Err (Option ToolDecision) × W

module _ {W Err Call : Type 0} where
  pub run_before_tool_call :
      Option ToolDecision → List (BeforeToolCall W Err Call) → BeforeToolCall W Err Call
  run_before_tool_call out [] info w = (ok out, w)
  run_before_tool_call out (fn ∷ fns) info w =
      let (r, w') = fn info w in
      elim r [
        | err e ↦ (err e, w')
        | ok none ↦ run_before_tool_call out fns info w'
        | ok (some d) ↦
            let out' = fold_decision out d in
            let rest = run_before_tool_call (some out') fns (with_args info out'.args) w' in
            if is_block out'.action then (ok (some out'), w') else rest
      ]

  pub chain_before_tool_call :
      List (Option (BeforeToolCall W Err Call)) → Option (BeforeToolCall W Err Call)
  unfolding run_before_tool_call
  chain_before_tool_call fns = chained (run_before_tool_call none) (kept fns)

-- A guard is told the message and may return a replacement.
abbrev pub OutputGuard : Type 0 → Type 0 → Type 0 → Type 0
OutputGuard W Err Message = Message → W → Result Err (Option Message) × W

module _ {W Err Message : Type 0} where
  pub run_output_guard :
      Option Message → List (OutputGuard W Err Message) → OutputGuard W Err Message
  run_output_guard replaced [] message w = (ok replaced, w)
  run_output_guard replaced (fn ∷ fns) message w =
      let (r, w') = fn message w in
      elim r [
        | err e ↦ (err e, w')
        | ok none ↦ run_output_guard replaced fns message w'
        | ok (some out) ↦ run_output_guard (some out) fns out w'
      ]

  pub chain_output_guard :
      List (Option (OutputGuard W Err Message)) → Option (OutputGuard W Err Message)
  unfolding run_output_guard
  chain_output_guard fns = chained (run_output_guard none) (kept fns)

-- ===== src/Batch/Preflight.antt =====
-- run.go: preflight, preflightAll, and the calls of an approved batch before they execute.
use agentturn.Base.{
  ℕ, suc, true, false, List, [], ◌∷◌, ◌++◌, Option, none, some, String, Result, ok, err,
  String-Comparable, if◌then◌else◌,
}
use agentturn.Items.{Item}
use agentturn.Chain.{ToolCallInfo, BeforeToolCall}
use agentturn.Chain.Decision.{ToolDecision}
use agentturn.Loop.{ToolEnd, tool_start, tool_end, tool_event, State, Act, Halt}
use agentturn.Loop.Pending.{id_of, name_of}
use agentturn.Batch.{Call, no_result, CallInfo, BatchEnv, tell, Spoken}
use agentturn.Batch.Said.{heard, batch_call}
use agentturn.Batch.Settle.{prepare, decide, check}
use agentturn.Batch.Cut.{fail_batch, abort_batch}

module _ {Err : Type 0} where
  abbrev pub no_states : List Item → List (Option (Call Err))
  no_states [] = []
  no_states (c ∷ calls) = none ∷ no_states calls

  abbrev pub states_of : List (Option (Call Err)) → List (Call Err)
  states_of [] = []
  states_of (none ∷ batch) = states_of batch
  states_of (some p ∷ batch) = p ∷ states_of batch

module _ {W Err : Type 0} (env : BatchEnv W Err) where
  abbrev pub call_info : Call Err → List Item → ℕ → ToolCallInfo CallInfo
  call_info p batch index = record {
    call = record { turn = p.turn; call = p.call; tool = p.tool; batch = batch; index = index };
    args = some p.args;
  }

  -- The call under what the hook answers.
  unfoldable pub ruled :
      Result Err (Option ToolDecision)
      → Call Err
      → State W
      → Result Err (Option ToolDecision) × (Call Err × State W)
  unfolding decide
  ruled (err e) p s = (err (env.before_error e), (p, s))
  ruled (ok none) p s = (ok none, (p, s))
  ruled (ok (some d)) p s = (ok (some d), decide env d p s)

  -- What BeforeToolCall decides on a call, and the call under it.
  unfoldable pub consult :
      Option (BeforeToolCall (List Spoken × W) Err CallInfo)
      → Call Err
      → List Item
      → ℕ
      → State W
      → Result Err (Option ToolDecision) × (Call Err × State W)
  unfolding heard ruled
  consult none p batch index s = (ok none, (p, s))
  consult (some before) p batch index s =
      let (r, left) = before (call_info p batch index) ([], s.world) in ruled r p (heard left s)

  abbrev pub deferred_end : String → Call Err → ToolEnd Err
  deferred_end reason p = record {
    turn = p.turn;
    call_id = id_of p.call;
    name = name_of p.call;
    result = no_result;
    err = none;
    blocked = false;
    deferred = true;
    reason = reason;
    withdrawn = false;
    cut = false;
  }

  abbrev pub reason_of : Option ToolDecision → String
  reason_of none = ""
  reason_of (some d) = d.reason

  -- What follows the decision: tool_start, then the end of a call that will not execute.
  unfoldable pub begin_call :
      Option ToolDecision → Call Err → State W → Option Err × (Call Err × State W)
  unfolding tell check
  begin_call d p s =
      let start = tool_start p.turn (id_of p.call) (name_of p.call) p.args d in
      let (e, s1) = tell env (tool_event start) s in
      let (e2, s2) = tell env (tool_event (tool_end (deferred_end (reason_of d) p))) s1 in
      elim e [
        | some x ↦ (some x, (p, s1))
        | none ↦
            if p.deferred
            then (e2, (record p { settled = true; ended = true }, s2))
            else check env p s1
      ]

  abbrev pub on_batch_call : Item → State W → State W
  on_batch_call call s = record s { run = batch_call (id_of call) s.run }

  -- The decision that stands, unless the hook made one.
  abbrev pub or_decision : Option ToolDecision → Option ToolDecision → Option ToolDecision
  or_decision standing none = standing
  or_decision standing (some d) = some d

  -- The call after the hook, whose failure leaves no state of it.
  unfoldable pub launch :
      Option ToolDecision
      → Result Err (Option ToolDecision) × (Call Err × State W)
      → Option Err × (Option (Call Err) × State W)
  unfolding begin_call
  launch standing (err e, (p, s)) = (some e, (none, s))
  launch standing (ok d, (p, s)) =
      let (e, (q, s')) = begin_call (or_decision standing d) p s in (e, (some q, s'))

  unfoldable pub preflight :
      ℕ → Item → List Item → ℕ → State W → Option Err × (Option (Call Err) × State W)
  unfolding prepare consult launch batch_call
  preflight turn call batch index s =
      launch none (
        consult env.before_tool_call (prepare env turn call none) batch index
          (on_batch_call call s))

  -- The loop of preflightAll, with the batch so far, up to the first failure.
  unfoldable pub preflight_from :
      ℕ
      → List Item
      → List (Option (Call Err))
      → ℕ
      → List Item
      → State W
      → Option Err × (List (Option (Call Err)) × State W)
  unfolding preflight
  preflight_from turn batch done i [] s = (none, (done, s))
  preflight_from turn batch done i (call ∷ calls) s =
      let (e, (p, s1)) = preflight turn call batch i s in
      elim e [
        | some x ↦ (some x, (done ++ p ∷ no_states calls, s1))
        | none ↦ preflight_from turn batch (done ++ p ∷ []) (suc i) calls s1
      ]

  -- What follows the loop: a failure, an abort, or the batch.
  unfoldable pub after_preflight :
      Option Err × (List (Option (Call Err)) × State W)
      → Result (Halt Err) (List (Call Err)) × State W
  unfolding fail_batch abort_batch
  after_preflight (some e, (batch, s)) = fail_batch env batch e s
  after_preflight (none, (batch, s)) = elim (env.cancelled s.world) [
    | some c ↦ abort_batch env batch c.cause s
    | none ↦ (ok (states_of batch), s)
  ]

  unfoldable pub preflight_all : ℕ → List Item → Act W Err (List (Call Err))
  unfolding preflight_from after_preflight
  preflight_all turn calls s = after_preflight (preflight_from turn calls [] 0 calls s)

-- ===== src/Batch/Settle.antt =====
-- run.go: how one call of a batch begins and ends: prepare, decide, check, settle and finish.
use agentturn.Base.{
  ℕ, Bool, true, false, not, ◌&&◌, ◌||◌, List, [], ◌∷◌, ◌++◌, Option, none, some, String, Result,
  ok, err, ◌==◌, String-Comparable, if◌then◌else◌, is_some, insert,
}
use agentturn.Items.{Item, at, message, developer, zero_trigger}
use agentturn.Chain.Decision.{ToolDecision, ToolAction, allow, block, defer}
use agentturn.Loop.{tool, ToolResult, ToolEnd, tool_end, tool_event, Note, Runner, State}
use agentturn.Loop.Pending.{id_of, name_of, arguments_of, or_braces}
use agentturn.Batch.{
  Spoken, Call, no_result, ResultInfo, ToolOverride, BatchEnv, call_key, tell, is_cancellation,
}
use agentturn.Batch.Said.{heard}

module _ {W Err : Type 0} (env : BatchEnv W Err) where
  unfoldable pub prepare : ℕ → Item → Option String → Call Err
  prepare turn call args = record {
    call = call;
    tool = env.has_tool (name_of call);
    args = elim args [ none ↦ or_braces (arguments_of call) | some a ↦ or_braces a ];
    result = no_result;
    err = none;
    blocked = false;
    settled = false;
    deferred = false;
    cut = false;
    ended = false;
    terminate = false;
    dispatch_err = none;
    turn = turn;
    appended = false;
    notes = [];
    reason = "";
    key = call_key env.run_id (id_of call);
    dispatched = false;
  }

  abbrev pub said_note : Item → Note
  said_note item = record { item = item; mode = tool; trigger = zero_trigger; call_id = "" }

  -- A message that the loop makes.
  unfoldable pub new_text : String → State W → Item × State W
  new_text text s =
      let (ref, w) = env.new_ref s.world in
      (at ref (message developer text), record s { world = w })

  abbrev pub is_allow : ToolAction → Bool
  is_allow allow = true
  is_allow _ = false

  unfoldable pub add_decision_note : ToolDecision → Call Err → State W → Call Err × State W
  unfolding new_text
  add_decision_note d p s =
      let (item, s') = new_text d.note s in
      if is_allow d.action && not (d.note == "")
      then (record p { notes = p.notes ++ said_note item ∷ [] }, s')
      else (p, s)

  abbrev or_blocked : String → String
  or_blocked reason = if reason == "" then "call blocked" else reason

  -- `r.deferred[id] = heldCall{…}`
  abbrev note_deferred : Call Err → Runner → Runner
  note_deferred p r = record r {
    marks = record (r.marks) {
      deferred_calls = insert (id_of p.call) (record { args = some p.args }) r.marks.deferred_calls;
    };
  }

  abbrev pub decide_action : ToolAction → ToolDecision → Call Err → State W → Call Err × State W
  decide_action allow d p s = (p, s)
  decide_action block d p s = (
    record p {
      blocked = true;
      err = some (env.blocked_error (or_blocked d.reason));
      reason = or_blocked d.reason;
    },
    s,
  )
  decide_action defer d p s =
      (record p { deferred = true }, record s { run = note_deferred p s.run })

  abbrev pub with_decided_args : ToolDecision → Call Err → Call Err
  with_decided_args d p = elim d.args [ none ↦ p | some a ↦ record p { args = a } ]

  unfoldable pub decide : ToolDecision → Call Err → State W → Call Err × State W
  unfolding add_decision_note
  decide d p s =
      let (p1, s1) = add_decision_note d (with_decided_args d p) s in
      decide_action d.action d (record p1 { terminate = d.terminate }) s1

  -- The error becomes the output, and the decision's hint is composed in.
  abbrev pub composed : Call Err → Call Err
  composed p =
      let result : ToolResult = elim p.err [
        | none ↦ p.result
        | some e ↦ record (env.error_result e) {
          terminate = p.result.terminate;
          details = p.result.details;
        }
      ] in
      record p {
        result = record result { terminate = result.terminate || p.terminate };
        ended = true;
      }

  abbrev pub end_event : Call Err → ToolEnd Err
  end_event p = record {
    turn = p.turn;
    call_id = id_of p.call;
    name = name_of p.call;
    result = p.result;
    err = p.err;
    blocked = p.blocked;
    deferred = false;
    reason = p.reason;
    withdrawn = is_some p.dispatch_err;
    cut = p.cut;
  }

  unfoldable pub finish : Call Err → State W → Option Err × (Call Err × State W)
  unfolding tell
  finish p s =
      let (e, s') = tell env (tool_event (tool_end (end_event (composed p)))) s in
      (e, (composed p, s'))

  abbrev pub marked_cut : Call Err → State W → Call Err
  marked_cut p s = record p { cut = p.cut || is_cancellation env p.err (env.cancelled s.world) }

  abbrev pub result_info : Call Err → ResultInfo Err
  result_info p = record {
    turn = p.turn;
    call = p.call;
    tool = p.tool;
    args = p.args;
    result = p.result;
    err = p.err;
  }

  abbrev pub overridden : Option (ToolOverride Err) → Call Err → Call Err
  overridden none p = p
  overridden (some o) p = record p { result = o.result; err = o.err }

  -- What the hook's answer makes of the call.
  unfoldable pub judged :
      Result Err (Option (ToolOverride Err))
      → Call Err
      → State W
      → Option Err × (Call Err × State W)
  unfolding finish
  judged (err e) p s = (some (env.after_error e), (p, s))
  judged (ok o) p s = finish (marked_cut (overridden o p) s) s

  unfoldable pub settle_by :
      Option (
        ResultInfo Err
        → List Spoken × W
        → Result Err (Option (ToolOverride Err)) × (List Spoken × W))
      → Call Err
      → State W
      → Option Err × (Call Err × State W)
  unfolding finish judged heard
  settle_by none p s = finish (marked_cut p s) s
  settle_by (some after) p s =
      let (r, left) = after (result_info p) ([], s.world) in
      if p.blocked then finish (marked_cut p s) s else judged r p (heard left s)

  unfoldable pub settle : Call Err → State W → Option Err × (Call Err × State W)
  unfolding settle_by
  settle p s = settle_by env.after_tool_call p s

  -- Why a call does not execute.
  abbrev pub checked : Call Err → Call Err
  checked p =
      if p.blocked
      then p
      else if not p.tool
      then record p { err = some (env.unknown_tool (name_of p.call)) }
      else if not (env.valid_object p.args)
      then record p { err = some env.invalid_arguments }
      else p

  unfoldable pub check : Call Err → State W → Option Err × (Call Err × State W)
  unfolding settle
  check p s =
      let q = checked p in
      elim q.err [
        | none ↦ (none, (q, s))
        | some e ↦ settle (record q { settled = true; result = env.error_result e }) s
      ]

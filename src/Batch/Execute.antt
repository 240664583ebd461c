-- ===== src/Batch/Execute.antt =====
-- run.go: execute, which runs the calls that preflight did not settle, and the executor's start
-- callback. The executor's schedule gives the events in their order; an event of a job out of range,
-- which no executor makes, does nothing.
use agentturn.Base.{
  ℕ, suc, Bool, true, false, not, ◌&&◌, ◌||◌, List, [], ◌∷◌, map, Option, none, some, String,
  Result, ok, ◌==◌, String-Comparable, if◌then◌else◌, is_some, get_elem?, set, add_key, insert,
}
use agentturn.Loop.{ToolResult, tool_update, tool_dispatch, tool_event, Halt, Runner, State, Act}
use agentturn.Loop.Pending.{id_of, name_of}
use agentturn.Batch.{
  Cancel, Call, no_result, Job, ExecEvent, ran, said, started, partial, final, BatchEnv, tell,
  is_cancellation,
}
use agentturn.Batch.Said.{heard}
use agentturn.Batch.Settle.{finish, settle}
use agentturn.Batch.Cut.{append_finished, fail_batch, aborted_by}

-- The batch as it executes: the failure, whether it was the after-call hook's own, and how the
-- batch's own context was cancelled by it.
pub record Execution (W Err : Type 0) : Type 0 where
  pub batch : List (Call Err)
  pub failed : Option Err
  pub hook_failed : Bool
  pub stopped : Option (Cancel Err)
  pub state : State W

module _ {Err : Type 0} where
  -- jobIndex: where the calls that are not settled stand, from `i` on.
  unfoldable pub job_index : ℕ → List (Call Err) → List ℕ
  job_index i [] = []
  job_index i (p ∷ batch) =
      if p.settled then job_index (suc i) batch else i ∷ job_index (suc i) batch

  abbrev pub job_of : Call Err → Job
  job_of p = record { call_id = id_of p.call; name = name_of p.call; args = p.args; key = p.key }

  unfoldable pub jobs : List (Call Err) → List Job
  jobs [] = []
  jobs (p ∷ batch) = if p.settled then jobs batch else job_of p ∷ jobs batch

  -- byID: the last call with the ID that is not settled.
  unfoldable pub find_by_id : String → ℕ → List (Call Err) → Option ℕ
  find_by_id id i [] = none
  find_by_id id i (p ∷ batch) = elim (find_by_id id (suc i) batch) [
    | some k ↦ some k
    | none ↦ if not p.settled && id_of p.call == id then some i else none
  ]

  -- The call that the start of a job finds.
  unfoldable pub find_job : List (Call Err) → List Job → ℕ → Option ℕ
  unfolding find_by_id
  find_job batch js j = elim (get_elem? js j) [
    | none ↦ none
    | some job ↦ find_by_id job.call_id 0 batch
  ]

abbrev pub mark_undispatched : {W Err : Type 0} → Call Err → State W → State W
mark_undispatched p s = record s {
  run = record (s.run) {
    marks = record (s.run.marks) {
      undispatched_calls = add_key (id_of p.call) s.run.marks.undispatched_calls;
    };
  };
}

abbrev mark_dispatched : {Err : Type 0} → Call Err → Runner → Runner
mark_dispatched p r = record r {
  marks = record (r.marks) {
    dispatched_calls =
        insert (id_of p.call) (record { key = p.key; args = p.args }) r.marks.dispatched_calls;
  };
}

unfoldable pub mark_all : {Err : Type 0} → List (Call Err) → Runner → Runner
mark_all [] r = r
mark_all (p ∷ batch) r = mark_all batch (if p.dispatched then mark_dispatched p r else r)

module _ {W Err : Type 0} (env : BatchEnv W Err) where
  -- The batch's context.
  abbrev pub context : Execution W Err → Option (Cancel Err)
  context x = elim x.stopped [ some c ↦ some c | none ↦ env.cancelled x.state.world ]

  -- `failed = err; cancel(err)`
  abbrev pub fail_with : Err → Execution W Err → Execution W Err
  fail_with e x = record x {
    failed = some e;
    stopped = elim (context x) [
      | some c ↦ some c
      | none ↦ some (record { ctx_err = env.canceled; cause = e })
    ];
  }

  abbrev pub fail_if : Option Err → Execution W Err → Execution W Err
  fail_if none x = x
  fail_if (some e) x = fail_with e x

  abbrev pub put_call : ℕ → Call Err × State W → Execution W Err → Execution W Err
  put_call i (p, s) x = record x { batch = set x.batch i p; state = s }

  abbrev pub with_final : ToolResult → Option Err → Call Err → Call Err
  with_final result e p = record p { result = result; err = e; settled = true }

  -- A hook's refusal during the drain cuts the call.
  unfoldable pub drained : Option Err × (Call Err × State W) → Call Err × State W
  unfolding finish
  drained (none, (p, s)) = (p, s)
  drained (some e, (p, s)) =
      let (_, left) = finish env (record p { cut = true; err = some e; result = no_result }) s in
      if p.ended then (p, s) else left

  -- The end of a job after the batch failed: a result of the call's own is settled, the rest is left
  -- for failBatch.
  unfoldable pub drain : ℕ → ToolResult → Option Err → Call Err → Execution W Err → Execution W Err
  unfolding drained settle
  drain i result e p x =
      let settled = put_call i (drained (settle env (with_final result e p) x.state)) x in
      if is_some p.dispatch_err
      then record x { state = mark_undispatched p x.state }
      else if is_cancellation env e (context x) || x.hook_failed
      then x
      else settled

  -- The call as it was settled: a call that is not ended is one that the hook refused.
  unfoldable pub settled_by :
      ℕ → Option Err × (Call Err × State W) → Execution W Err → Execution W Err
  settled_by i (f, (q, s)) x =
      fail_if f (record (put_call i (q, s) x) { hook_failed = is_some f && not q.ended })

  -- The end of a job before any failure.
  unfoldable pub take_result :
      ℕ → ToolResult → Option Err → Call Err → Execution W Err → Execution W Err
  unfolding settle settled_by
  take_result i result e p x = elim p.dispatch_err [
    | some refused ↦ fail_with refused (record x { state = mark_undispatched p x.state })
    | none ↦ settled_by i (settle env (with_final result e p) x.state) x
  ]

  unfoldable pub take_update : ToolResult → Call Err → Execution W Err → Execution W Err
  unfolding tell
  take_update result p x =
      let (e, s) =
        tell env (tool_event (tool_update p.turn (id_of p.call) (name_of p.call) result)) x.state in
      if is_some x.failed then x else fail_if e (record x { state = s })

  -- OnStart
  unfoldable pub dispatch : ℕ → Call Err → Execution W Err → Execution W Err
  unfolding tell
  dispatch i p x =
      let (e, s) =
        tell env (tool_event (tool_dispatch p.turn (id_of p.call) (name_of p.call) p.key))
          x.state in
      put_call i (record p { dispatch_err = e; dispatched = not (is_some e) }, s) x

  abbrev pub at_call :
      Option ℕ
      → (ℕ → Call Err → Execution W Err → Execution W Err)
      → Execution W Err
      → Execution W Err
  at_call none f x = x
  at_call (some i) f x = elim (get_elem? x.batch i) [ none ↦ x | some p ↦ f i p x ]

  -- The end of a job, before or after a failure.
  abbrev pub finish_job : ToolResult → Option Err → ℕ → Call Err → Execution W Err → Execution W Err
  finish_job result e i p x =
      if is_some x.failed then drain i result e p x else take_result i result e p x

  -- One event; `index` gives the calls of the jobs, `find` the call that the start of a job is for.
  unfoldable pub step :
      List ℕ → (ℕ → Option ℕ) → ExecEvent W Err → Execution W Err → Execution W Err
  unfolding heard drain take_result take_update dispatch
  step index find (ran f) x = record x { state = record (x.state) { world = f x.state.world } }
  step index find (said sp) x = record x { state = heard (sp ∷ [], x.state.world) x.state }
  step index find (started j) x = at_call (find j) dispatch x
  step index find (partial j result) x = at_call (get_elem? index j) (λ i p. take_update result p) x
  step index find (final j result e) x = at_call (get_elem? index j) (finish_job result e) x

  unfoldable pub steps :
      List ℕ → (ℕ → Option ℕ) → List (ExecEvent W Err) → Execution W Err → Execution W Err
  unfolding step
  steps index find [] x = x
  steps index find (ev ∷ schedule) x = steps index find schedule (step index find ev x)

  abbrev pub begin : List (Call Err) → State W → Execution W Err
  begin batch s = record {
    batch = batch;
    failed = none;
    hook_failed = false;
    stopped = none;
    state = s;
  }

  -- What follows the drain.
  unfoldable pub executed : Execution W Err → Result (Halt Err) (List (Call Err)) × State W
  unfolding fail_batch append_finished mark_all
  executed x =
      let s : State W = record (x.state) { run = mark_all x.batch x.state.run } in
      let states = map some x.batch in
      elim x.failed [
        | some e ↦ fail_batch env states e s
        | none ↦ elim (env.cancelled s.world) [
          | none ↦ (ok x.batch, s)
          | some c ↦
              let (r, s') = append_finished env states s in (aborted_by env c.cause none r, s')
        ]
      ]

  unfoldable pub execute : List (Call Err) → Act W Err (List (Call Err))
  unfolding steps executed job_index jobs find_job
  execute batch s =
      let js = jobs batch in
      executed
        (steps (job_index 0 batch) (find_job batch js) (env.executor js s.world) (begin batch s))

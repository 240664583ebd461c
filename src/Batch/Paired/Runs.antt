-- ===== src/Batch/Paired/Runs.antt =====
-- run.go: a run with its batches: loop, as it calls toolBatch and approvedBatch, and the tool events
-- that the whole run raises.
use agentturn.Base.{ℕ, ◌≡◌, ◌<◌, ◌≤◌, sym, subst, List, map, some, Result, Bool, true, ◌∙◌, refl}
use agentturn.Items.{Item, Input}
use agentturn.Loop.{
  Event, run_start, item_start, item_end, notes_held, turn_end, run_end, tool_event, TurnInput,
  ToolEvent, ToolResult, Runner, RunEnd, State, Act,
}
use agentturn.Loop.Append.{◌>>=◌, pure}
use agentturn.Loop.Turns.{Env}
use agentturn.Loop.Run.{Begin, run}
use agentturn.Loop.Run.Invariant.{Preserves-bind, Steady, is_loop_event}
use agentturn.Loop.Run.Whole.{run-Preserves}
use agentturn.Batch.{BatchEnv}
use agentturn.Batch.Approved.{Approval}
use agentturn.Batch.Run.{tool_batch, approved_batch}
use agentturn.Batch.Paired.{Recorded, noted}
use agentturn.Batch.Paired.Whole.{Executes}
use agentturn.Batch.Paired.Batches.{IsPaired, tool_batch-IsPaired, approved_batch-IsPaired}

-- What the loop reads of a batch: whether each result asks to terminate, and what is still pending.
abbrev judged :
    {W Err : Type 0} → Act W Err (List ToolResult × List Item) → Act W Err (List Bool × List Item)
judged batch = batch >>= λ r. pure (map (λ t. t.terminate) r.0, r.1)

-- The run of a loop whose batches are the ones of `batches`, begun with these approvals.
abbrev pub with_batches :
    {W Err Response : Type 0}
    → BatchEnv W Err
    → List Approval
    → Env W Err Response
    → Env W Err Response
with_batches batches approvals env = record env {
  send = batches.send;
  tool_batch = λ turn calls. judged (tool_batch batches turn calls);
  approved_batch = judged (approved_batch batches 0 approvals);
}

-- The queues, the hooks and the model's turn raise no tool event.
pub record Raiseless {W Err Response : Type 0} (env : Env W Err Response)
    (raised : W → List (ToolEvent Err)) : Type 0 where
  pub steered :
      (q : W → List TurnInput × W) → env.steer ≡ some q → (w : W) → raised (q w).1 ≡ raised w
  pub followed :
      (q : W → List TurnInput × W) → env.follow_up ≡ some q → (w : W) → raised (q w).1 ≡ raised w
  pub drained :
      (q : W → List TurnInput × W) → env.last ≡ some q → (w : W) → raised (q w).1 ≡ raised w
  pub closed : (q : W → Bool × W) → env.closing ≡ some q → (w : W) → raised (q w).1 ≡ raised w
  pub before :
      (f : ℕ → Runner → W → Result Err (List Input) × W)
      → env.before_turn ≡ some f
      → (turn : ℕ) (r : Runner) (w : W) → raised (f turn r w).1 ≡ raised w
  pub asked :
      (f : ℕ → Response → List Bool → Bool → Runner → W → Result Err Bool × W)
      → env.should_stop ≡ some f
      → (turn : ℕ) (resp : Response) (results : List Bool) (final : Bool) (r : Runner) (w : W)
      → raised (f turn resp results final r w).1 ≡ raised w
  pub checked : (w : W) → raised (env.tools_refused w).1 ≡ raised w
  pub modelled : (turn : ℕ) (s : State W) → raised (env.model_turn turn s).1.world ≡ raised s.world

noted-loop_event :
    {Err : Type 0} (ev : Event Err) (l : List (ToolEvent Err))
    → is_loop_event ev ≡ true
    → noted ev l ≡ l
noted-loop_event (run_start s t) l e = refl
noted-loop_event (item_start i h c p) l e = refl
noted-loop_event (item_end i h c t p) l e = refl
noted-loop_event (notes_held n) l e = refl
noted-loop_event (turn_end n) l e = refl
noted-loop_event (run_end r) l e = refl
noted-loop_event (tool_event t) l e = cc

module _ {W Err Response : Type 0} (env : Env W Err Response) (batches : BatchEnv W Err)
    (approvals : List Approval) (raised : W → List (ToolEvent Err)) (rec : Recorded batches raised)
    (executes : Executes batches raised rec) (quiet : Raiseless env raised) where
  abbrev Balanced : W → Type 0
  Balanced w = IsPaired (raised w)

  as_before : {w w' : W} → raised w' ≡ raised w → Balanced w → Balanced w'
  as_before e p = subst IsPaired (sym e) p

  with_batches-Steady : Steady (with_batches batches approvals env) Balanced
  with_batches-Steady = record {
    sent = λ ev w own. as_before (rec.sent ev w ∙ noted-loop_event ev (raised w) own);
    steered = λ q e w. as_before (quiet.steered q e w);
    followed = λ q e w. as_before (quiet.followed q e w);
    drained = λ q e w. as_before (quiet.drained q e w);
    closed = λ q e w. as_before (quiet.closed q e w);
    before = λ f e turn r w. as_before (quiet.before f e turn r w);
    asked =
        λ f e turn resp results final r w. as_before (quiet.asked f e turn resp results final r w);
    checked = λ w. as_before (quiet.checked w);
    modelled = λ turn s. as_before (quiet.modelled turn s);
    batched = λ turn calls.
        Preserves-bind Balanced (tool_batch batches turn calls)
          (λ r. pure (map (λ t. t.terminate) r.0, r.1))
          (λ s p. tool_batch-IsPaired batches raised rec turn calls s executes p) (λ r s p. p);
    approved =
        Preserves-bind Balanced (approved_batch batches 0 approvals)
          (λ r. pure (map (λ t. t.terminate) r.0, r.1))
          (λ s p. approved_batch-IsPaired batches raised rec 0 approvals s executes p) (λ r s p. p);
  }

-- A run whose turns run their calls by toolBatch, and whose opening runs the approved ones by
-- approvedBatch, with a budget of turns. The world keeps a history of the tool events sent to it, the
-- executor ends each of its jobs once, and the hooks, the queues, the model's turn, the tools and the
-- maker of items raise no tool event. Then, begun on a history in which every call ID has as many
-- tool_end as tool_start events, the run returns within its budget and leaves such a history, however
-- it ends: done, stopped, paused on pending calls, aborted or failed.
pub run-IsPaired :
    {W Err Response : Type 0} (env : Env W Err Response) (batches : BatchEnv W Err)
    (approvals : List Approval) (raised : W → List (ToolEvent Err)) (rec : Recorded batches raised)
    → Executes batches raised rec
    → Raiseless env raised
    → (b : Begin) (s : State W) → 0 < env.max_turn_count
    → IsPaired (raised s.world)
    → (end : RunEnd Err) × (s' : State W) × (n : ℕ) × (run
          (with_batches batches approvals env)
          env.max_turn_count
          b
          s
        ≡ some (end, s', n))
      × (n ≤ env.max_turn_count)
      × IsPaired (raised s'.world)
run-IsPaired env batches approvals raised rec executes quiet b s h p =
    run-Preserves (with_batches batches approvals env) (λ w. IsPaired (raised w))
      (with_batches-Steady env batches approvals raised rec executes quiet) b s h p

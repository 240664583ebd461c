-- ===== src/Batch/Paired/Tests.antt =====
-- run.go: the theorem on a run with its batches, at a model that asks for the same two calls twice.
use agentturn.Base.{
  ℕ, ◌≡◌, ◌≤◌, refl, false, List, [], ◌∷◌, none, some, String, ok, ◌==◌, String-Comparable, arith,
}
use agentturn.Items.{at, message, user, plain, zero_trigger}
use agentturn.Loop.{ToolEvent, RunEnd, State}
use agentturn.Loop.Turns.{Env}
use agentturn.Loop.Run.{Begin, run}
use agentturn.Batch.Paired.{noted}
use agentturn.Batch.Paired.Batches.{IsPaired}
use agentturn.Batch.Paired.Runs.{with_batches, Raiseless, run-IsPaired}
use agentturn.Batch.Tests.{env, recorded, executes, calls, start}

abbrev asking : Env (List (ToolEvent String)) String (Unit {0})
asking = record {
  send = λ ev w. (none, noted ev w);
  json = λ i. none;
  extension = λ type. false;
  same_args = λ a b. a == b;
  is_guard = λ e. false;
  is_error = λ a b. a == b;
  cancelled = λ w. none;
  steer = none;
  follow_up = none;
  last = none;
  closing = none;
  max_turn_count = 2;
  before_turn = none;
  should_stop = none;
  tools_refused = λ w. (none, w);
  model_turn = λ turn s. (ok tt, s);
  function_calls = λ r. calls;
  tool_batch = λ turn calls s. (ok ([], []), s);
  approved_batch = λ s. (ok ([], []), s);
}

asking-Raiseless : Raiseless asking (λ w. w)
asking-Raiseless = record {
  steered = λ q e w. cc e;
  followed = λ q e w. cc e;
  drained = λ q e w. cc e;
  closed = λ q e w. cc e;
  before = λ f e turn r w. cc e;
  asked = λ f e turn resp results final r w. cc e;
  checked = λ w. refl;
  modelled = λ turn s. refl;
}

abbrev begin : Begin
begin = record {
  trigger = zero_trigger;
  prompts = plain (at 0 (message user "hello")) ∷ [];
  resuming = false;
  answer_notes = [];
  approved = false;
  terminate = false;
}

run-IsPaired_example :
    (end : RunEnd String) × (s : State (List (ToolEvent String))) × (n : ℕ) × (run
        (with_batches env [] asking)
        2
        begin
        start
      ≡ some (end, s, n))
    × (n ≤ 2)
    × IsPaired s.world
run-IsPaired_example =
    run-IsPaired asking env [] (λ w. w) recorded executes asking-Raiseless begin start (omega arith)
      (λ id. refl)

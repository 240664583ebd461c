-- ===== src/Batch/Tests.antt =====
-- run.go: the theorems on a batch of two calls, one of which no tool has the name of.
use agentturn.Base.{
  ℕ, suc, ◌≡◌, refl, sym, ap, ◌∙◌, subst, true, false, List, [], ◌∷◌, ◌++◌, none, some, String, ok,
  ◌==◌, String-Comparable, Nat-Comparable, if◌then◌else◌, arith, inl, inr, Bool-cases, get_elem?,
  contains, length, length-append, All, nat_eq_iff, append_assoc,
}
use agentturn.Items.{Item, at, message, user, function_call}
use agentturn.Loop.{ToolResult, ToolEvent, State}
use agentturn.Batch.{Call, ResultInfo, ExecEvent, final, Job, BatchEnv}
use agentturn.Batch.Approved.{Approval}
use agentturn.Batch.Execute.{job_index, jobs}
use agentturn.Batch.Run.{tool_batch, approved_batch}
use agentturn.Batch.Paired.{noted, Recorded, IsQuiet}
use agentturn.Batch.Paired.Live.{is_served, remove}
use agentturn.Batch.Paired.Whole.{Executes, job_index-below}
use agentturn.Batch.Paired.Batches.{IsPaired, tool_batch-IsPaired, approved_batch-IsPaired}

-- An executor that runs the jobs one after another, to the same result.
abbrev in_order : {W : Type 0} → ℕ → List Job → List (ExecEvent W String)
in_order j [] = []
in_order j (job ∷ js) =
    final j (record { output = "text"; terminate = false; details = none }) none
    ∷ in_order (suc j) js

remove-absent : (i : ℕ) (live : List ℕ) → contains live i ≡ false → remove i live ≡ live
unfolding contains
remove-absent i [] h = refl
remove-absent i (l ∷ live) h = elim (Bool-cases (l == i)) [
  | inl e ↦ ground (arith, h, e)
  | inr e ↦ ground (arith, h, e, remove-absent i live)
]

get_elem?-append :
    {A : Type 0} (pre : List A) (x : A) (rest : List A)
    → get_elem? (pre ++ x ∷ rest) (length pre) ≡ some x
get_elem?-append [] x rest = refl
get_elem?-append (y ∷ pre) x rest = get_elem?-append pre x rest

remove-head : (i : ℕ) (live : List ℕ) → contains live i ≡ false → remove i (i ∷ live) ≡ live
remove-head i live h = elim (Bool-cases (i == i)) [
  | inl e ↦ ground (arith, e, remove-absent i live h)
  | inr e ↦ ground (arith, e, nat_eq_iff i i)
]

served_next :
    {W : Type 0} (index live : List ℕ) (j n : ℕ) (result : ToolResult)
    (schedule : List (ExecEvent W String))
    → get_elem? index j ≡ some n
    → contains live n ≡ false
    → is_served index live schedule ≡ true
    → is_served index (n ∷ live) (final j result none ∷ schedule) ≡ true
unfolding is_served contains
served_next index live j n result schedule here absent rest =
    ground (arith, here, nat_eq_iff n n, remove-head n live absent, rest)

in_order-is_served :
    (W : Type 0) (batch : List (Call String)) (index pre : List ℕ) (j n : ℕ)
    → j ≡ length pre
    → index ≡ pre ++ job_index n batch
    → is_served {W = W} index (job_index n batch) (in_order j (jobs batch)) ≡ true
unfolding job_index jobs is_served
in_order-is_served W [] index pre j n l e = refl
in_order-is_served W (p ∷ batch) index pre j n l e = elim (Bool-cases p.settled) [
  | inl s ↦ rw s (
      in_order-is_served W batch index pre j (suc n) l (
        e
        ∙ ap (λ b. pre ++ (if b then job_index (suc n) batch else n ∷ job_index (suc n) batch)) s))
  | inr s ↦
      let split : index ≡ pre ++ n ∷ job_index (suc n) batch =
        e
        ∙ ap (λ b. pre ++ (if b then job_index (suc n) batch else n ∷ job_index (suc n) batch)) s in
      rw s (
        served_next index (job_index (suc n) batch) j n
          (record { output = "text"; terminate = false; details = none })
          (in_order (suc j) (jobs batch))
          (ap (λ i. get_elem? i j) split
            ∙ ap (get_elem? (pre ++ n ∷ job_index (suc n) batch)) l
            ∙ get_elem?-append pre n (job_index (suc n) batch))
          (job_index-below batch (suc n) n (omega arith))
          (in_order-is_served W batch index (pre ++ n ∷ []) (suc j) (suc n)
            (ground (arith, l, length-append pre (n ∷ [])))
            (split ∙ sym (append_assoc pre (n ∷ []) (job_index (suc n) batch)))))
]

in_order-IsQuiet :
    {W : Type 0} (raised : W → List (ToolEvent String)) (j : ℕ) (js : List Job)
    → All (IsQuiet raised) (in_order j js)
in_order-IsQuiet raised j [] = tt
in_order-IsQuiet raised j (job ∷ js) = (tt, in_order-IsQuiet raised (suc j) js)

-- The world is the history. A hook looks at every result and keeps it.
abbrev pub env : BatchEnv (List (ToolEvent String)) String
env = record {
  send = λ ev w. (none, noted ev w);
  json = λ i. none;
  run_id = "run";
  has_tool = λ name. name == "read";
  before_tool_call = none;
  after_tool_call = some (λ info left. (ok none, left));
  executor = λ js w. in_order 0 js;
  cancelled = λ w. none;
  is_error = λ a b. a == b;
  canceled = "canceled";
  blocked_error = λ reason. reason;
  unknown_tool = λ name. "unknown tool";
  invalid_arguments = "invalid arguments";
  before_error = λ e. e;
  after_error = λ e. e;
  error_result = λ e. record { output = e; terminate = false; details = none };
  valid_object = λ text. true;
  new_ref = λ w. (0, w);
}

pub recorded : Recorded env (λ w. w)
recorded = record {
  sent = λ ev w. refl;
  made = λ w. refl;
  before = λ f e info w. ground (arith, e);
  after = λ f e info w.
      subst
        (λ o. elim o [
          | none ↦ Unit {0}
          | some g ↦
              ((info : ResultInfo String) (w : List (ToolEvent String)) → (g info ([], w)).1.1 ≡ w)
        ])
        e (λ info w. refl) info w;
}

pub executes : Executes env (λ w. w) recorded
executes batch w = (
  in_order-is_served (List (ToolEvent String)) batch (job_index 0 batch) [] 0 0 refl refl,
  in_order-IsQuiet (λ w. w) 0 (jobs batch),
)

abbrev pub calls : List Item
calls = at 1 (function_call "c1" "read" "{}") ∷ at 2 (function_call "c2" "write" "{}") ∷ []

abbrev pub start : State (List (ToolEvent String))
start = record {
  run = record {
    transcript = at 0 (message user "hello") ∷ calls;
    added = [];
    mark = 0;
    arrived = [];
    notes = [];
    reported = [];
    persons = [];
    marks = record {
      deferred_calls = [];
      dispatched_calls = [];
      undispatched_calls = [];
      approved_calls = [];
      prior = [];
    };
    said = record { batch_calls = []; roots = []; call_notes = []; note_keys = [] };
  };
  world = [];
}

tool_batch-IsPaired_example : IsPaired (tool_batch env 1 calls start).1.world
tool_batch-IsPaired_example =
    tool_batch-IsPaired env (λ w. w) recorded 1 calls start executes (λ id. refl)

abbrev approved : List Approval
approved =
    record {
      call = at 1 (function_call "c1" "read" "{}");
      args = none;
      key = "";
      note = "go on";
      by = "human";
      held = "";
      reason = "";
      decide = false;
    }
    ∷ []

approved_batch-IsPaired_example : IsPaired (approved_batch env 0 approved start).1.world
approved_batch-IsPaired_example =
    approved_batch-IsPaired env (λ w. w) recorded 0 approved start executes (λ id. refl)

-- ===== src/Model/Turn.antt =====
-- run.go: modelTurn, its retries and closeWithheld. The loop has fuel, one unit a call of the model;
-- the program has none.
pub mod Gives
pub mod Retries
pub mod Bound
use agentturn.Base.{
  ℕ, zero, suc, ◌+◌, Bool, true, false, not, ◌&&◌, ◌||◌, List, [], ◌∷◌, ◌++◌, map, Option, none,
  some, String, Result, ok, err, if◌then◌else◌, ltb, leb, is_some, length, ◌==◌, String-Comparable,
  drop, min, nat_eq, get_or_else,
}
use agentturn.Items.{Item, nil, at, function_call_output, Input, plain, same_item, comparable}
use agentturn.Loop.{
  InputMode, tool, Reason, stopped, aborted, StopCause, no_cause, guard, Halt, stop, fault, Runner,
  State, Act,
}
use agentturn.Loop.Append.{◌>>=◌, ◌>>◌, pure, halt, get, put, append_items}
use agentturn.Loop.Pending.{unanswered_calls, id_of}
use agentturn.Model.{
  Slice, Request, Built, ModelEvent, turn_start, response_end, model_blocked, model_retry, Outcome,
  responded, failed, TurnEnv, same_slice,
}

abbrev pub withheld_call_output : String
withheld_call_output = "Error: not run: the response that made this call was withheld"

-- Where the turn stands: the request in flight, whether it was folded or revised, the number of the
-- call and that of the attempt.
pub record Tries : Type 0 where
  pub request : Request
  pub built : Built
  pub folded : Bool
  pub revised : Bool
  pub call : ℕ
  pub attempt : ℕ

pub data Step (Response : Type 0) : Type 0 where
  answered : Response → Step Response
  again : Tries → Step Response

abbrev pub first_try : Request → Built → Tries
first_try req b = record {
  request = req;
  built = b;
  folded = false;
  revised = false;
  call = 1;
  attempt = 1;
}

module _ {W Err Response : Type 0} (env : TurnEnv W Err Response) (turn : ℕ) where
  abbrev pub report : ModelEvent Err Response → Act W Err (Unit {0})
  report ev s =
      let (e, w) = env.tell ev s.world in
      elim e [
        | none ↦ (ok tt, record s { world = w })
        | some x ↦ (err (fault x), record s { world = w })
      ]

  unfoldable pub same_items : List Item → List Item → Bool
  same_items [] [] = true
  same_items (nil ∷ xs) (nil ∷ ys) = same_items xs ys
  same_items (at r b ∷ xs) (at q c ∷ ys) =
      let x = at r b in
      let y = at q c in ((comparable x && same_item x y) || env.alike x y) && same_items xs ys
  same_items _ _ = false

  -- built.forModel
  unfoldable pub for_model : Request → Request → Built → State W → (Request × Built) × State W
  for_model prev req b s =
      let (input, w) = env.input_for req.model b.filtered s.world in
      if req.model == prev.model
        || not (same_slice req.input b.input)
        || not (same_slice prev.input b.input)
      then ((req, b), s)
      else ((record req { input = input }, record b { input = input }), record s { world = w })

  unfoldable pub withheld_outputs : List Item → W → List Input × W
  withheld_outputs [] w = ([], w)
  withheld_outputs (call ∷ calls) w =
      let (ref, w1) = env.new_ref w in
      let (rest, w2) = withheld_outputs calls w1 in
      (plain (at ref (function_call_output (id_of call) withheld_call_output)) ∷ rest, w2)

  unfoldable pub close_withheld : List Item → Act W Err (Unit {0})
  unfolding withheld_outputs append_items unanswered_calls
  close_withheld items s =
      let (outputs, w) = withheld_outputs (unanswered_calls items) s.world in
      append_items env.send outputs tool (record s { world = w })

  -- The response goes on record withheld, with what the transcript took from it.
  abbrev pub put_on_record : ℕ → Response → Act W Err (Unit {0})
  put_on_record start resp = do
    r ← get
    report (response_end turn (env.with_output resp (drop start r.transcript)) true)

  abbrev pub record_if : Bool → ℕ → Option Response → Act W Err (Unit {0})
  record_if true start (some resp) = put_on_record start resp
  record_if _ start resp = pure tt

  -- What is left of the attempt is closed, and the turn ends so.
  abbrev pub close_with : {A : Type 0} → ℕ → Halt Err → Act W Err A
  close_with start h = do r ← get; close_withheld (drop start r.transcript); halt h

  unfoldable pub on_stop : ℕ → Option Response → Bool → Halt Err → Act W Err (Step Response)
  unfolding close_withheld
  on_stop start resp withheld h = do record_if withheld start resp; close_with start h

  abbrev pub stops_guard : Err → Bool → Halt Err
  stops_guard e withheld = stop stopped guard (some e) withheld

  abbrev pub record_guarded : Request → ℕ → Option Response → Bool → Err → Act W Err Bool
  record_guarded req start (some resp) true e = put_on_record start resp >> pure true
  record_guarded req start resp committed e = report (model_blocked turn req e resp) >> pure false

  unfoldable pub on_guard : Request → ℕ → Option Response → Bool → Err → Act W Err (Step Response)
  unfolding close_withheld
  on_guard req start resp committed e = do
    withheld ← record_guarded req start resp committed e
    close_with start (stops_guard e withheld)

  -- After a revision its model and settings stay, and the input is cut for that model.
  unfoldable pub keep_revision : Tries → Request → Built → State W → (Request × Built) × State W
  keep_revision t next b s =
      let (input, w) = env.input_for t.request.model b.filtered s.world in
      if not t.revised
      then ((next, b), s)
      else if same_slice next.input b.input
      then (
        (record (t.request) { input = input }, record b { input = input }),
        record s { world = w },
      )
      else ((record (t.request) { input = next.input }, b), s)

  -- The request rebuilt with a fold: the tries it goes on with, unless the fold changed nothing.
  unfoldable pub fold_once : Tries → Err → Act W Err (Option Tries)
  unfolding keep_revision same_items
  fold_once t e = do
    (next, b) ← env.refold (if t.revised then some t.request else none)
    (next', b') ← λ s. let (out, s') = keep_revision t next b s in (ok out, s')
    if same_items next'.input.items t.request.input.items
        then pure none
        else report (model_retry turn t.call e 0 next')
          >> pure
              (some (record t { request = next'; built = b'; folded = true; call = t.call + 1 }))

  abbrev pub revised_request : Tries → Err → State W → ((Request × Built) × Bool) × State W
  revised_request t e s = elim env.revise [
    | none ↦ (((t.request, t.built), t.revised), s)
    | some f ↦
        let (changed, given) = f t.attempt t.request e in
        let (out, s') = for_model t.request (get_or_else given changed) t.built s in
        ((out, true), s')
  ]

  -- sleep
  abbrev pub sleeps : ℕ → State W → Bool × State W
  sleeps delay s =
      let (cut, w) = env.wait delay s.world in
      if nat_eq delay 0 then (is_some (env.cancelled s.world), s) else (cut, record s { world = w })

  abbrev pub rest_before : ℕ → Act W Err (Unit {0})
  rest_before delay s =
      let (cut, s') = sleeps delay s in
      if cut then (err (stop aborted no_cause (env.cancelled s'.world) false), s') else (ok tt, s')

  unfoldable pub retry : Tries → Err → Act W Err (Step Response)
  unfolding for_model
  retry t e = do
    let delay = env.backoff t.attempt e
    ((req, b), revised) ← λ s. let (out, s') = revised_request t e s in (ok out, s')
    report (model_retry turn t.call e delay req)
    rest_before delay
    pure (
        again (record t {
          request = req;
          built = b;
          revised = revised;
          call = t.call + 1;
          attempt = t.attempt + 1;
        }))

  unfoldable pub fail_or_retry : Tries → Bool → Err → Act W Err (Step Response)
  unfolding retry
  fail_or_retry t committed e =
      if committed || leb env.max_attempts t.attempt || not (env.retryable e)
      then halt (fault (env.model_error e))
      else retry t e

  abbrev pub after_fold : Tries → Bool → Err → Option Tries → Act W Err (Step Response)
  after_fold t committed e none = fail_or_retry (record t { folded = true }) committed e
  after_fold t committed e (some t') = pure (again t')

  unfoldable pub on_error : ℕ → Tries → Option Response → Bool → Err → Act W Err (Step Response)
  unfolding on_guard fold_once fail_or_retry
  on_error start t resp committed e s = elim (env.cancelled s.world) [
    | some cause ↦ (err (stop aborted no_cause (some cause) false), s)
    | none ↦
        if env.is_guard e
        then on_guard t.request start resp committed e s
        else if not committed && not t.folded && env.has_transform && env.is_context_length e
        then (fold_once t e >>= after_fold t committed e) s
        else fail_or_retry t committed e s
  ]

  -- The next turn's inputs are what joins from here.
  abbrev pub answered_with : Response → Act W Err (Step Response)
  answered_with resp s = (
    ok (answered resp),
    record s { run = record (s.run) { mark = length s.run.transcript; arrived = [] } },
  )

  abbrev pub after_attempt : ℕ → Tries → Outcome Err Response → Act W Err (Step Response)
  after_attempt start t (responded resp) = answered_with resp
  after_attempt start t (failed resp committed (stop reason cause e withheld)) =
      on_stop start resp withheld (stop reason cause e withheld)
  after_attempt start t (failed resp committed (fault e)) = on_error start t resp committed e

  unfoldable pub try_once : ℕ → Tries → Act W Err (Step Response)
  unfolding on_stop on_error
  try_once start t s =
      let (out, s1) = env.stream t.request s in
      let w = env.attribute t.request.model (drop start s1.run.transcript) s1.world in
      after_attempt start t out (record s1 { world = w })

  -- The loop of attempts, with the number of the last call made.
  unfoldable pub attempts :
      ℕ → ℕ → Tries → State W → Option (Result (Halt Err) Response × State W × ℕ)
  attempts zero start t s = none
  attempts (suc fuel) start t s =
      let (r, s') = try_once start t s in
      elim r [
        | err h ↦ some (err h, s', t.call)
        | ok (answered resp) ↦ some (ok resp, s', t.call)
        | ok (again t') ↦ attempts fuel start t' s'
      ]

  abbrev pub begin_turn : Act W Err (Request × Built)
  begin_turn = do
    (req, b) ← env.request
    r ← get
    report (turn_start turn req (drop (min r.mark (length r.transcript)) r.transcript) r.arrived)
    pure (req, b)

  unfoldable pub model_turn : ℕ → State W → Option (Result (Halt Err) Response × State W × ℕ)
  unfolding attempts try_once
  model_turn fuel s =
      let (r, s') = begin_turn s in
      elim r [
        | err h ↦ some (err h, s', 0)
        | ok (req, b) ↦ attempts fuel (length s'.run.transcript) (first_try req b) s'
      ]

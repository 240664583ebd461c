-- ===== src/Model/Tests.antt =====
-- run.go: the theorems on a model's turn whose first attempt breaks off after a reasoning item.
use agentturn.Base.{
  ℕ, suc, ◌+◌, ◌≤◌, ◌≡◌, refl, true, false, [], ◌∷◌, none, some, ok, err, String, ◌==◌,
  String-Comparable, Nat-Comparable, lookup, contains, length,
}
use agentturn.Items.{Item, at, message, user, reasoning, function_call}
use agentturn.Loop.{fault}
use agentturn.Loop.Tests.{counts, state}
use agentturn.Model.{Request, Built, TurnEnv, failed}
use agentturn.Model.Prefix.{
  call_id_prefix, call_id_prefix-IsPortable, IsPortable, codes, max_call_id_prefix,
}
use agentturn.Model.Attempt.{
  StreamEnv, StreamEvent, item_added, item_done, fresh_attempt, call_id_taken, decide_call_id,
  decided_call_id,
}
use agentturn.Model.Ids.{decide_call_id-taken}
use agentturn.Model.Reading.{stream}
use agentturn.Model.Reading.Traceless.{stream-Traceless}
use agentturn.Model.Turn.{Tries, first_try, try_once, model_turn}
use agentturn.Model.Turn.Retries.{Excused, seen, try_once-Again}
use agentturn.Model.Turn.Bound.{Called, model_turn-Called}

-- The response is its text; a stream brings it as one event.
abbrev streaming : StreamEnv ℕ String String (StreamEvent String) (Unit {0})
streaming = record {
  tell = λ ev w. (none, suc w);
  reserved = λ id. id == "taken";
  new_id = λ prefix w. ("call_0", suc w);
  new_ref = λ w. (w + 100, suc w);
  item_id = λ i. "";
  events = λ req w. (ok (item_added 0) ∷ ok (item_done 0 (at 9 reasoning)) ∷ err "cut" ∷ [], w);
  kind = λ ev. ev;
  terminal = λ ev. none;
  empty = tt;
  add = λ acc ev. acc;
  item_at = λ acc index. at 9 reasoning;
  response_of = λ acc. none;
  response_id = λ resp. resp;
  output = λ resp. [];
  with_output = λ resp items. resp;
  response_failed = λ resp. none;
  filtered = λ resp. "filtered";
  output_guard = none;
  is_guard = λ e. false;
  guard_error = λ e. e;
  truncated = "truncated";
}

abbrev request : Request
request = record {
  model = "m";
  settings = "";
  input = record { array = 1; items = at 1 (message user "hello") ∷ [] };
}

abbrev built : Built
built = record { filtered = request.input; input = request.input }

abbrev env : TurnEnv ℕ String String
env = record {
  send = counts;
  tell = λ ev w. (none, suc w);
  request = λ s. (ok (request, built), s);
  refold = λ settings s. (ok (request, built), s);
  input_for = λ model filtered w. (filtered, w);
  alike = λ x y. false;
  stream = λ req s. (failed none false (fault "cut"), s);
  attribute = λ model items w. w;
  cancelled = λ w. none;
  is_guard = λ e. e == "guard";
  is_context_length = λ e. e == "long";
  has_transform = true;
  max_attempts = 2;
  retryable = λ e. e == "cut";
  backoff = λ attempt e. 0;
  revise = none;
  wait = λ delay w. (false, w);
  model_error = λ e. e;
  with_output = λ resp items. resp;
  new_ref = λ w. (w + 100, suc w);
}

abbrev second : Tries
second = record (first_try request built) { call = 2; attempt = 2 }

try_once-Again_example :
    Excused env 1
      (first_try request built)
      (failed none false (fault "cut"))
      (seen env 1 3 (first_try request built) state)
      second
unfolding try_once
try_once-Again_example = try_once-Again env 1 3 (first_try request built) state second refl

model_turn-Called_example : Called 3 (model_turn env 1 3 state)
model_turn-Called_example = model_turn-Called env 1 state

call_id_prefix-IsPortable_example :
    IsPortable (call_id_prefix "call:1")
    × (length (codes (call_id_prefix "call:1")) ≤ max_call_id_prefix)
call_id_prefix-IsPortable_example = call_id_prefix-IsPortable "call:1"

stream-Traceless_example : (stream streaming 1 request state).1.run ≡ state.run
unfolding stream lookup
stream-Traceless_example = stream-Traceless streaming 1 request state none (fault "cut") refl

abbrev call : Item
call = at 5 (function_call "c1" "read" "{}")

decide_call_id-taken_example :
    let a = (decide_call_id streaming call 0 fresh_attempt (call ∷ []) 0).0 in
    (id : String) × (decided_call_id streaming call 0 a ≡ some id)
    × (call_id_taken streaming id fresh_attempt (call ∷ []) ≡ false)
    × (call_id_taken streaming id a (call ∷ []) ≡ true)
    × (call_id_taken streaming "c1" fresh_attempt (call ∷ []) ≡ false → id ≡ "c1")
unfolding call_id_taken contains
decide_call_id-taken_example =
    decide_call_id-taken streaming call 0 fresh_attempt (call ∷ []) 0 refl

-- ===== src/Model/Reading.antt =====
-- run.go: stream: an attempt reads its events to the end, and what becomes of the response.
pub mod Still
pub mod Traceless
use agentturn.Base.{
  ℕ, Bool, true, false, not, ◌&&◌, ◌||◌, List, [], ◌∷◌, ◌++◌, Option, none, some, String, Result,
  ok, err, ◌==◌, String-Comparable, if◌then◌else◌, is_some,
}
use agentturn.Items.{Item}
use agentturn.Loop.{Halt, stop, fault, Runner, State, Act}
use agentturn.Loop.Append.{◌>>=◌, ◌>>◌, pure, halt, get, put}
use agentturn.Model.{Request, response_end, Outcome, responded, failed}
use agentturn.Model.Attempt.{OpenedItem, Attempt, fresh_attempt, StreamEnv}
use agentturn.Model.Renamed.{rename_calls}
use agentturn.Model.Stream.{
  Delivered, delivered, wire_error, Att, report, attempt, take_item, flush_held,
}
use agentturn.Model.Events.{stream_event}

module _ {W Err Response Raw Acc : Type 0} (env : StreamEnv W Err Response Raw Acc) (turn : ℕ) where
  unfoldable pub append_opened : String → List OpenedItem → Att env turn (Unit {0})
  unfolding take_item
  append_opened response_id [] = pure tt
  append_opened response_id (o ∷ opened) =
      let model_call_id = if o.model_call_id == o.call_id then "" else o.model_call_id in
      if o.from_response
      then take_item env turn o.done response_id model_call_id >> append_opened response_id opened
      else append_opened response_id opened

  unfoldable pub append_from_response : String → Att env turn (Unit {0})
  unfolding append_opened
  append_from_response response_id = do a ← attempt env turn; append_opened response_id a.opened

  abbrev pub rename : Response → Att env turn Response
  rename resp s =
      let (resp', a, w) = rename_calls env resp s.run.transcript s.world.0 s.world.1 in
      (ok resp', record s { world = (a, w) })

  abbrev pub taken_whole : Response → Att env turn (Unit {0})
  taken_whole resp = flush_held env turn >> append_from_response (env.response_id resp)

  -- What follows a stream that brought a response.
  unfoldable pub settle_response : Response → Att env turn Response
  unfolding flush_held append_from_response rename_calls
  settle_response resp = do
    resp' ← rename resp
    if is_some (env.response_failed resp') then pure tt else taken_whole resp'
    report env turn (response_end turn resp' false)
    elim (env.response_failed resp') [ none ↦ pure resp' | some e ↦ halt (fault e) ]

  abbrev pub guarded_response : Acc → Err → Option Response
  guarded_response acc e = elim (env.response_of acc) [
    | none ↦ none
    | some base ↦ if env.is_guard e then some (env.filtered (some base)) else none
  ]

  abbrev pub latest : Option Response → Raw → Option Response
  latest resp ev = elim (env.terminal ev) [ none ↦ resp | some final ↦ some final ]

  -- The rest of a withheld response, read for its usage alone.
  unfoldable pub read_usage : Acc → Option Response → List (Result Err Raw) → Acc × Option Response
  read_usage acc resp [] = (acc, resp)
  read_usage acc resp (err e ∷ events) = (acc, resp)
  read_usage acc resp (ok ev ∷ events) = read_usage (env.add acc ev) (latest resp ev) events

  abbrev pub withheld_response : Acc × Option Response → Response
  withheld_response (acc, some final) = env.filtered (some final)
  withheld_response (acc, none) = env.filtered (env.response_of acc)

  abbrev pub outcome_of : Result (Halt Err) Response → Outcome Err Response
  outcome_of (ok resp) = responded resp
  outcome_of (err h) = failed none true h

  abbrev pub finish_stream :
      Option Response → Bool → State (Attempt × W) → Outcome Err Response × State (Attempt × W)
  finish_stream none committed s = (failed none committed (fault env.truncated), s)
  finish_stream (some resp) committed s = let (r, s') = settle_response resp s in (outcome_of r, s')

  -- An event that was not delivered ends the attempt, but for a message that the guard withheld.
  abbrev pub stop_reading :
      Acc → Option Response → List (Result Err Raw) → Halt Err → Outcome Err Response
  stop_reading acc resp events (stop reason cause e true) =
      failed (some (withheld_response (read_usage acc resp events))) true (stop reason cause e true)
  stop_reading acc resp events h = failed none true h

  unfoldable pub read_events :
      Acc
      → Option Response
      → Bool
      → List (Result Err Raw)
      → State (Attempt × W)
      → Outcome Err Response × State (Attempt × W)
  unfolding stream_event settle_response read_usage
  read_events acc resp committed [] s = finish_stream resp committed s
  read_events acc resp committed (err e ∷ events) s =
      (failed (guarded_response acc e) committed (fault e), s)
  read_events acc resp committed (ok ev ∷ events) s =
      let acc' = env.add acc ev in
      let (r, s') = stream_event env turn ev acc' committed s in
      elim r [
        | err h ↦ (stop_reading acc' resp events h, s')
        | ok (wire_error e) ↦ (failed (guarded_response acc' e) committed (fault e), s')
        | ok (delivered commits) ↦
            read_events acc' (latest resp ev) (committed || commits) events s'
      ]

  unfoldable pub stream : Request → State W → Outcome Err Response × State W
  unfolding read_events
  stream req s =
      let (events, w) = env.events req s.world in
      let s0 : State (Attempt × W) = record { run = s.run; world = (fresh_attempt, w) } in
      let (out, s') = read_events env.empty none false events s0 in
      (out, record { run = s'.run; world = s'.world.1 })

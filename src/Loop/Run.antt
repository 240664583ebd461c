-- ===== src/Loop/Run.antt =====
-- run.go: what loop does before its first turn, how a run ends, and run itself, as the agent starts
-- it.
pub mod Budget
pub mod Invariant
pub mod Kept
pub mod Whole
use agentturn.Base.{
  ℕ, zero, suc, ◌+◌, Bool, true, false, not, ◌&&◌, ◌||◌, List, [], ◌∷◌, ◌++◌, map, Option, none,
  some, String, Result, ok, err, if◌then◌else◌, ltb, leb, is_empty, length, ◌==◌, String-Comparable,
}
use agentturn.Items.{Item, Input, Trigger, zero_trigger, unhide, unhide_all, output_id_of}
use agentturn.Items.Marks.{base}
use agentturn.Loop.{
  InputMode, prompt, resume, hook, TurnInput, Note, Reason, done, stopped, input_required, aborted,
  error, StopCause, no_cause, max_turns, stop_hook, guard, refused, Source, RunEnd, PendingCall,
  Event, run_start, turn_end, run_end, Halt, stop, fault, Runner, State, Act,
}
use agentturn.Loop.Turns.{Env, use_queue, ending, stop_with, ends_pending, turns, one_turn}
use agentturn.Loop.Append.{
  ◌>>=◌, ◌>>◌, pure, halt, get, put, emit, append_with, append_items, append_arrived,
}
use agentturn.Loop.Notes.{same_notes, report_notes, hold, flush_notes}
use agentturn.Loop.Pending.{source, terminates, continued_inputs, pending}

-- A note that an answer carries, said on its call as the run begins.
pub record AnswerNote : Type 0 where
  pub call_id : String
  pub item : Item

-- How the run was begun.
pub record Begin : Type 0 where
  pub trigger : Trigger
  pub prompts : List Input
  pub resuming : Bool
  pub answer_notes : List AnswerNote
  -- Whether calls were approved, and whether a refusal ends the run.
  pub approved : Bool
  pub terminate : Bool

module _ {W Err Response : Type 0} (env : Env W Err Response) where
  open env use {send}

  -- One answer of the prompts, with the notes it carries. A refused report or append puts the notes
  -- back as they were.
  abbrev hold_answer : List AnswerNote → Trigger → String → Runner → Runner
  hold_answer [] trigger id r = r
  hold_answer (n ∷ ns) trigger id r = hold_answer ns trigger id (
      if n.call_id == id
      then hold env.json (record { item = n.item; mode = resume; trigger = trigger; call_id = id })
          r
      else r)

  abbrev grew : State W → State W → Bool
  grew s s' = ltb (length s.run.transcript) (length s'.run.transcript)

  abbrev with_notes : State W → List Note → State W
  with_notes s notes = record s { run = record (s.run) { notes = notes } }

  answer_one : List AnswerNote → Trigger → Trigger → Input → String → Act W Err (Unit {0})
  unfolding hold report_notes append_with
  answer_one resume_notes trigger on_answers i id s =
      let held = s.run.notes in
      let s1 : State W = record s { run = hold_answer resume_notes trigger id s.run } in
      let (r2, s2) = report_notes send s1 in
      elim r2 [
        | err e ↦ (err e, with_notes s2 held)
        | ok _ ↦
            let (r3, s3) = append_with send (i ∷ []) resume zero_trigger on_answers s2 in
            (r3, if grew s2 s3 then s3 else with_notes s3 held)
      ]

  -- The prompts that are outputs, up to the first that is none; then the rest.
  answers : List AnswerNote → Trigger → Trigger → List Input → Act W Err (List Input)
  unfolding answer_one
  answers notes trigger on_answers [] s = (ok [], s)
  answers notes trigger on_answers (i ∷ prompts) s = elim (output_id_of (base i)) [
    | none ↦ (ok (i ∷ prompts), s)
    | some id ↦
        let (r, s') = answer_one notes trigger on_answers i id s in
        elim r [ ok _ ↦ answers notes trigger on_answers prompts s' | err e ↦ (err e, s') ]
  ]

  start_reported : Act W Err (Unit {0})
  start_reported s = (ok tt, record s { run = record (s.run) { reported = s.run.notes } })

  abbrev unless : Bool → Act W Err (Unit {0}) → Act W Err (Unit {0})
  unless b m = if b then pure tt else m

  -- The results of approved calls stop the run, unless a refusal is to end it.
  abbrev approved_results : Bool → List Bool → Act W Err (Unit {0})
  approved_results refusing results = if refusing then pure tt else elim (terminates results) [
    | none ↦ pure tt
    | some cause ↦ stop_with env stopped cause none
  ]

  run_approved : Bool → Act W Err (Unit {0})
  unfolding append_arrived
  run_approved refusing = do
    (results, waiting) ← env.approved_batch
    ends_pending env waiting
    approved_results refusing results
    inputs ← use_queue env env.steer
    append_arrived send inputs

  -- What the loop does before its first turn.
  unfoldable pub opening : Begin → Act W Err (Unit {0})
  unfolding emit source start_reported answers flush_notes append_with append_arrived run_approved
  opening b = do
    r ← get
    emit send (run_start (source r.transcript b.prompts b.approved) b.trigger)
    start_reported
    rest ←
        answers b.answer_notes b.trigger (if b.resuming then zero_trigger else b.trigger) b.prompts
    unless b.approved (flush_notes send)
    append_with send rest (if b.resuming then resume else prompt)
        (if b.resuming then zero_trigger else b.trigger) b.trigger
    unless (b.approved || b.terminate) (use_queue env env.steer >>= append_arrived send)
    unless (not b.approved) (run_approved b.terminate)
    unless (not b.terminate) (stop_with env stopped refused none)

  unfoldable pub loop : ℕ → Begin → State W → Option (Result (Halt Err) (Unit {0}) × State W × ℕ)
  unfolding opening turns one_turn
  loop fuel b s =
      let (r, s') = opening b s in
      elim r [ err e ↦ some (err e, s', 0) | ok _ ↦ turns env fuel 0 s' ]

  -- How the run ends: the reason, and what is left open. The error of a cancelled run joins the cause
  -- with the failure in the program; here the failure stands beside it.
  abbrev end_of : Result (Halt Err) (Unit {0}) → Option Err → RunEnd Err → RunEnd Err
  end_of (ok _) cancelled end = end
  end_of (err (stop reason cause e withheld)) cancelled end = record end {
    reason = reason;
    cause = cause;
    err = e;
    withheld = withheld;
  }
  end_of (err (fault e)) none end = record end { reason = error; err = some e }
  end_of (err (fault e)) (some cause) end = record end {
    reason = aborted;
    err = some cause;
    failure = if env.is_error e cause then none else some e;
  }

  abbrev no_notes : List PendingCall → List Note → List Note
  no_notes [] notes = notes
  no_notes (p ∷ ps) notes = []

  unfoldable pub finish : Result (Halt Err) (Unit {0}) → State W → RunEnd Err × State W
  unfolding emit pending
  finish r s =
      let waiting = pending env.same_args (s.run.marks) s.run.transcript s.run.added s.run.notes in
      let end = end_of r (env.cancelled s.world) (record {
        items = s.run.added;
        reason = done;
        cause = no_cause;
        err = none;
        failure = none;
        withheld = false;
        pending = waiting;
        notes = no_notes waiting s.run.notes;
      }) in
      let (_, s1) = ending env s in let (_, s2) = emit send (run_end end) s1 in (end, s2)

  abbrev pub begin_state : State W → State W
  begin_state s = record s {
    run = record (s.run) {
      mark = length s.run.transcript;
      arrived = continued_inputs env.extension s.run.transcript;
    };
  }

  unfoldable pub run : ℕ → Begin → State W → Option (RunEnd Err × State W × ℕ)
  unfolding loop finish continued_inputs
  run fuel b s = elim (loop fuel b (begin_state s)) [
    | none ↦ none
    | some (r, s', n) ↦ let (end, s'') = finish r s' in some (end, s'', n)
  ]

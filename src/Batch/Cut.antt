-- ===== src/Batch/Cut.antt =====
-- run.go: how a batch that is cut off ends: failBatch, abortBatch and appendFinished. A call that the
-- batch has no state of, nil in the program, is none.
use agentturn.Base.{
  ℕ, Bool, true, false, not, ◌&&◌, ◌||◌, List, [], ◌∷◌, Option, none, some, Result, ok, err,
  if◌then◌else◌,
}
use agentturn.Items.{at, function_call_output, Input, plain}
use agentturn.Loop.{tool, aborted, no_cause, Halt, stop, fault, Runner, State, Act}
use agentturn.Loop.Append.{◌>>=◌, ◌>>◌, pure, get, put, append_items}
use agentturn.Loop.Notes.{report_notes, flush_notes}
use agentturn.Loop.Pending.{id_of}
use agentturn.Batch.{Cancel, Call, no_result, BatchEnv, is_cancellation}
use agentturn.Batch.Said.{hold_notes_of, hold_strays}
use agentturn.Batch.Settle.{finish, settle}

module _ {W Err : Type 0} (env : BatchEnv W Err) where
  abbrev pub output_of : ℕ → Call Err → Input
  output_of ref p = plain (at ref (function_call_output (id_of p.call) p.result.output))

  -- The outputs of the calls that are appended, each a new item.
  unfoldable pub outputs : List (Call Err) → State W → List Input × State W
  outputs [] s = ([], s)
  outputs (p ∷ ps) s =
      let (ref, w) = env.new_ref s.world in
      let (items, s') = outputs ps (record s { world = w }) in (output_of ref p ∷ items, s')

  -- A call that finished by itself.
  unfoldable pub has_finished : Option (Cancel Err) → Call Err → Bool
  has_finished c p =
      p.settled
      && not p.deferred
      && not p.appended
      && not p.cut
      && not (is_cancellation env p.err c)

  unfoldable pub finished_calls : Option (Cancel Err) → List (Option (Call Err)) → List (Call Err)
  unfolding has_finished
  finished_calls c [] = []
  finished_calls c (none ∷ batch) = finished_calls c batch
  finished_calls c (some p ∷ batch) =
      if has_finished c p then p ∷ finished_calls c batch else finished_calls c batch

  -- Whether every call of the batch is appended, these among them.
  unfoldable pub all_appended : Option (Cancel Err) → List (Option (Call Err)) → Bool
  unfolding has_finished
  all_appended c [] = true
  all_appended c (none ∷ batch) = false
  all_appended c (some p ∷ batch) = (p.appended || has_finished c p) && all_appended c batch

  unfoldable pub hold_batch : List (Option (Call Err)) → Runner → Runner
  unfolding hold_notes_of
  hold_batch [] r = r
  hold_batch (none ∷ batch) r = hold_batch batch r
  hold_batch (some p ∷ batch) r = hold_batch batch (hold_notes_of env.json p r)

  -- The notes are reported held before the outputs that they follow are appended.
  unfoldable pub append_outputs : List (Option (Call Err)) → List Input → Act W Err (Unit {0})
  unfolding hold_batch hold_strays report_notes append_items
  append_outputs batch items = do
    r ← get
    put (hold_strays env.json (hold_batch batch r))
    report_notes env.send
    append_items env.send items tool

  abbrev pub flush_if : Bool → Act W Err (Unit {0})
  flush_if all = if all then flush_notes env.send else pure tt

  unfoldable pub append_finished : List (Option (Call Err)) → Act W Err (Unit {0})
  unfolding outputs finished_calls all_appended append_outputs flush_notes
  append_finished batch s =
      let c = env.cancelled s.world in
      let (items, s1) = outputs (finished_calls c batch) s in
      (append_outputs batch items >> flush_if (all_appended c batch)) s1

  -- A call cut off by an error.
  abbrev pub cut_by : Err → Call Err → Call Err
  cut_by cause p = record p { settled = true; cut = true; err = some cause }

  unfoldable pub fail_all :
      Err → List (Option (Call Err)) → State W → List (Option (Call Err)) × State W
  unfolding finish
  fail_all cause [] s = ([], s)
  fail_all cause (none ∷ batch) s = let (batch', s') = fail_all cause batch s in (none ∷ batch', s')
  fail_all cause (some p ∷ batch) s =
      let (_, (q, s1)) = finish env (record (cut_by cause p) { result = no_result }) s in
      let (batch', s') = fail_all cause batch (if p.ended then s else s1) in
      (some (if p.ended then p else q) ∷ batch', s')

  unfoldable pub fail_batch : {A : Type 0} → List (Option (Call Err)) → Err → Act W Err A
  unfolding fail_all append_finished
  fail_batch batch cause s =
      let (batch', s1) = fail_all cause batch s in
      let (_, s2) = append_finished batch' s1 in (err (fault cause), s2)

  -- A failure of the hook before the call was ended leaves it to end here.
  unfoldable pub end_refused : Option Err × (Call Err × State W) → Option Err × (Call Err × State W)
  unfolding finish
  end_refused (none, left) = (none, left)
  end_refused (some e, (q, s)) =
      let (_, left) = finish env q s in if q.ended then (some e, (q, s)) else (some e, left)

  -- One call of an aborted batch: once a hook or a consumer has failed, the rest end without the
  -- hook.
  unfoldable pub abort_one :
      Err → Option Err → Call Err → State W → Option Err × (Call Err × State W)
  unfolding finish settle end_refused
  abort_one cause none p s = end_refused (settle env (cut_by cause p) s)
  abort_one cause (some first) p s =
      let (_, left) = finish env (cut_by cause p) s in (some first, left)

  unfoldable pub abort_all :
      Err
      → Option Err
      → List (Option (Call Err))
      → State W
      → Option Err × (List (Option (Call Err)) × State W)
  unfolding abort_one
  abort_all cause first [] s = (first, ([], s))
  abort_all cause first (none ∷ batch) s =
      let (e, (batch', s')) = abort_all cause first batch s in (e, (none ∷ batch', s'))
  abort_all cause first (some p ∷ batch) s =
      let (f, (q, s1)) = abort_one cause first p s in
      let (e, (batch', s')) =
        abort_all cause (if p.ended then first else f) batch (if p.ended then s else s1) in
      (e, (some (if p.ended then p else q) ∷ batch', s'))

  -- The failure of a hook or a consumer stands over the abort.
  abbrev pub aborted_by :
      {A : Type 0} → Err → Option Err → Result (Halt Err) (Unit {0}) → Result (Halt Err) A
  aborted_by cause (some f) r = err (fault f)
  aborted_by cause none (err e) = err e
  aborted_by cause none (ok _) = err (stop aborted no_cause (some cause) false)

  unfoldable pub abort_batch : {A : Type 0} → List (Option (Call Err)) → Err → Act W Err A
  unfolding abort_all append_finished
  abort_batch batch cause s =
      let (first, (batch', s1)) = abort_all cause none batch s in
      let (r, s2) = append_finished batch' s1 in (aborted_by cause first r, s2)

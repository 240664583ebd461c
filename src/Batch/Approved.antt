-- ===== src/Batch/Approved.antt =====
-- run.go: the calls of an approved batch before they execute.
use agentturn.Base.{
  ℕ, suc, Bool, false, ◌||◌, List, [], ◌∷◌, ◌++◌, map, Option, none, some, String, ok, ◌==◌,
  String-Comparable, if◌then◌else◌, add_key,
}
use agentturn.Items.{Item, at, message, user, developer}
use agentturn.Chain.Decision.{ToolDecision, allow}
use agentturn.Loop.{State, Act}
use agentturn.Loop.Pending.{id_of}
use agentturn.Batch.{Call, BatchEnv}
use agentturn.Batch.Said.{batch_call}
use agentturn.Batch.Settle.{prepare, said_note, new_text}
use agentturn.Batch.Preflight.{consult, launch, no_states, after_preflight}

-- A call that a caller approved on Resume, less what ran nested under it.
pub record Approval : Type 0 where
  pub call : Item
  pub args : Option String
  pub key : String
  pub note : String
  pub by : String
  pub held : String
  pub reason : String
  pub decide : Bool

module _ {W Err : Type 0} (env : BatchEnv W Err) where
  abbrev by_person : String → Bool
  by_person by = by == "" || by == "human"

  -- answerNoteItem
  unfoldable pub answer_note_item : String → String → State W → Item × State W
  answer_note_item note by s =
      let (ref, w) = env.new_ref s.world in
      (at ref (message (if by_person by then user else developer) note), record s { world = w })

  -- A note on the call, when there is a text to say.
  unfoldable pub add_text :
      String → (State W → Item × State W) → Call Err × State W → Call Err × State W
  add_text text make (p, s) =
      let (item, s') = make s in
      if text == "" then (p, s) else (record p { notes = p.notes ++ said_note env item ∷ [] }, s')

  abbrev pub on_approved_call : Item → State W → State W
  on_approved_call call s =
      let r = batch_call (id_of call) s.run in
      record s {
        run = record r {
          marks = record (r.marks) { approved_calls = add_key (id_of call) r.marks.approved_calls };
        };
      }

  abbrev pub with_key : String → Call Err → Call Err
  with_key key p = if key == "" then p else record p { key = key }

  -- The state of an approved call with the person's note, then that of the decision that held it.
  unfoldable pub approve : ℕ → Approval → State W → Call Err × State W
  unfolding prepare batch_call add_text answer_note_item new_text
  approve turn ap s = add_text ap.held (new_text env ap.held) (
      add_text ap.note (answer_note_item ap.note ap.by)
        (with_key ap.key (prepare env turn ap.call ap.args), on_approved_call ap.call s))

  abbrev pub approval_decision : Approval → ToolDecision
  approval_decision ap = record {
    action = allow;
    reason = ap.reason;
    terminate = false;
    args = ap.args;
    by = ap.by;
    note = ap.note;
    held = false;
    subject = "";
    decline_text = "";
  }

  unfoldable pub approved_call :
      ℕ → Approval → List Item → ℕ → State W → Option Err × (Option (Call Err) × State W)
  unfolding approve consult launch
  approved_call turn ap batch index s =
      let (p, s1) = approve turn ap s in
      launch env (some (approval_decision ap)) (
        if ap.decide then consult env env.before_tool_call p batch index s1 else (ok none, (p, s1)))

  unfoldable pub approved_from :
      ℕ
      → List Item
      → List (Option (Call Err))
      → ℕ
      → List Approval
      → State W
      → Option Err × (List (Option (Call Err)) × State W)
  unfolding approved_call
  approved_from turn batch done i [] s = (none, (done, s))
  approved_from turn batch done i (ap ∷ approved) s =
      let (e, (p, s1)) = approved_call turn ap batch i s in
      elim e [
        | some x ↦ (some x, (done ++ p ∷ no_states (map (λ a. a.call) approved), s1))
        | none ↦ approved_from turn batch (done ++ p ∷ []) (suc i) approved s1
      ]

  unfoldable pub approved_all : ℕ → List Approval → Act W Err (List (Call Err))
  unfolding approved_from after_preflight
  approved_all turn approved s =
      after_preflight env (approved_from turn (map (λ ap. ap.call) approved) [] 0 approved s)

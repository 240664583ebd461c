-- ===== src/Batch/Paired.antt =====
-- run.go: the history of a batch: the tool events that it raises, and what leaves them as they are.
pub mod Settled
pub mod Begun
pub mod Preflighted
pub mod Ended
pub mod Live
pub mod Executed
pub mod Steps
pub mod Whole
pub mod Batches
pub mod Runs
mod Tests
use agentturn.Base.{
  ℕ, suc, ◌+◌, ◌≡◌, refl, sym, ap, ◌∙◌, subst, ◌⊎◌, inl, inr, Bool, true, false, List, [], ◌∷◌,
  Option, none, some, String, Result, ok, err, ◌==◌, String-Comparable, if◌then◌else◌, arith,
  Bool-cases, Option-cases, ltb, length, Result-cases, get_elem?,
}
use agentturn.Items.{Input, is_nil_input, is_nil, plain, marks, provenance, zero_trigger, Trigger}
use agentturn.Chain.{ToolCallInfo}
use agentturn.Chain.Decision.{ToolDecision}
use agentturn.Loop.{
  ToolEvent, tool_start, tool_dispatch, tool_update, tool_end, ToolEnd, Event, run_start,
  item_start, item_end, notes_held, turn_end, run_end, tool_event, Note, InputMode, Runner, State,
  Act, Halt,
}
use agentturn.Loop.Append.{
  emit, append_one, append_with, append_items, appended, pure, get, put, ◌>>=◌, bind_ok, bind_err,
}
use agentturn.Loop.Notes.{same_notes, report_notes, flush_one, flush_from, flush_notes, drop_note}
use agentturn.Batch.{Call, CallInfo, ResultInfo, ToolOverride, Spoken, BatchEnv, ExecEvent, ran}

unfoldable pub one_of : String → String → ℕ
one_of a b = if a == b then 1 else 0

module _ {Err : Type 0} where
  abbrev pub noted : Event Err → List (ToolEvent Err) → List (ToolEvent Err)
  noted (tool_event t) l = t ∷ l
  noted _ l = l

  abbrev pub is_tool_event : Event Err → Bool
  is_tool_event (tool_event t) = true
  is_tool_event _ = false

  -- How often a call of this ID was started, and ended.
  abbrev pub starts : String → List (ToolEvent Err) → ℕ
  starts id [] = 0
  starts id (tool_start turn i name args d ∷ l) = one_of i id + starts id l
  starts id (_ ∷ l) = starts id l

  abbrev pub ends : String → List (ToolEvent Err) → ℕ
  ends id [] = 0
  ends id (tool_end e ∷ l) = one_of e.call_id id + ends id l
  ends id (_ ∷ l) = ends id l

abbrev pub IsQuiet : {W Err : Type 0} → (W → List (ToolEvent Err)) → ExecEvent W Err → Type 0
IsQuiet {W} raised (ran f) = (w : W) → raised (f w) ≡ raised w
IsQuiet raised _ = Unit

-- The world keeps the tool events it was sent, the last first, and the hooks and the maker of items
-- raise none.
pub record Recorded {W Err : Type 0} (env : BatchEnv W Err) (raised : W → List (ToolEvent Err))
    : Type 0 where
  pub sent : (ev : Event Err) (w : W) → raised (env.send ev w).1 ≡ noted ev (raised w)
  pub made : (w : W) → raised (env.new_ref w).1 ≡ raised w
  pub before :
      (f : ToolCallInfo CallInfo
        → List Spoken × W
        → Result Err (Option ToolDecision) × (List Spoken × W))
      → env.before_tool_call ≡ some f
      → (info : ToolCallInfo CallInfo) (w : W) → raised (f info ([], w)).1.1 ≡ raised w
  pub after :
      (f : ResultInfo Err
        → List Spoken × W
        → Result Err (Option (ToolOverride Err)) × (List Spoken × W))
      → env.after_tool_call ≡ some f
      → (info : ResultInfo Err) (w : W) → raised (f info ([], w)).1.1 ≡ raised w

-- What the loop appends raises no tool event.
module _ {W Err : Type 0} (env : BatchEnv W Err) (raised : W → List (ToolEvent Err))
    (rec : Recorded env raised) where
  abbrev pub Keeps : {A : Type 0} → Act W Err A → Type 0
  Keeps m = (s : State W) → raised (m s).1.world ≡ raised s.world

  pub Keeps-bind :
      {A B : Type 0} (m : Act W Err A) (f : A → Act W Err B)
      → Keeps m
      → ((a : A) → Keeps (f a))
      → Keeps (m >>= f)
  Keeps-bind m f keeps keeps' s = elim (Result-cases (m s).0) [
    | inl (a, e) ↦ ap (λ r. raised r.1.world) (bind_ok m f s e) ∙ keeps' a (m s).1 ∙ keeps s
    | inr (x, e) ↦ ap (λ r. raised r.1.world) (bind_err m f s e) ∙ keeps s
  ]

  Keeps-emit :
      (ev : Event Err) → ((l : List (ToolEvent Err)) → noted ev l ≡ l) → Keeps (emit env.send ev)
  unfolding emit
  Keeps-emit ev other s = elim (Option-cases (env.send ev s.world).0) [
    | inl e ↦ rw (e, emit) (rec.sent ev s.world ∙ other (raised s.world))
    | inr (x, e) ↦ rw (e, emit) (rec.sent ev s.world ∙ other (raised s.world))
  ]

  Keeps-append_one :
      (i : Input) (mode : InputMode) (t end_t : Trigger)
      → Keeps (append_one env.send i mode t end_t)
  unfolding append_one
  Keeps-append_one i mode t end_t s =
      let (item, hidden, copied) = marks i in
      let start : Event Err = item_start item hidden copied (provenance i) in
      let end : Event Err = item_end item hidden copied end_t (provenance i) in
      let w = (env.send start s.world).1 in
      elim (Bool-cases (is_nil_input i)) [
        | inl e ↦ ground (arith, e)
        | inr e ↦ elim (Option-cases (env.send start s.world).0) [
          | inl f ↦ elim (Option-cases (env.send end w).0) [
            | inl g ↦ ground (arith, e, f, g, rec.sent start s.world, rec.sent end w)
            | inr (x, g) ↦ ground (arith, e, f, g, rec.sent start s.world, rec.sent end w)
          ]
          | inr (x, f) ↦ ground (arith, e, f, rec.sent start s.world)
        ]
      ]

  Keeps-append_with :
      (items : List Input) (mode : InputMode) (t end_t : Trigger)
      → Keeps (append_with env.send items mode t end_t)
  unfolding append_with
  Keeps-append_with [] mode t end_t s = refl
  Keeps-append_with (i ∷ items) mode t end_t s =
      Keeps-bind (append_one env.send i mode t end_t) (λ u. append_with env.send items mode t end_t)
        (Keeps-append_one i mode t end_t) (λ u. Keeps-append_with items mode t end_t) s

  pub Keeps-append_items :
      (items : List Input) (mode : InputMode) → Keeps (append_items env.send items mode)
  unfolding append_items
  Keeps-append_items items mode = Keeps-append_with items mode zero_trigger zero_trigger

  pub Keeps-report_notes : Keeps (report_notes env.send)
  unfolding report_notes emit
  Keeps-report_notes s =
      let ev : Event Err = notes_held s.run.notes in
      elim (Bool-cases (same_notes s.run.notes s.run.reported)) [
        | inl e ↦ ground (arith, e)
        | inr e ↦ elim (Option-cases (env.send ev s.world).0) [
          | inl f ↦ ground (arith, e, f, rec.sent ev s.world)
          | inr (x, f) ↦ ground (arith, e, f, rec.sent ev s.world)
        ]
      ]

  Keeps-flush_one : (n : Note) (rest : List Note) → Keeps (flush_one env.send n rest)
  unfolding flush_one
  Keeps-flush_one n rest s =
      let s' = (append_one env.send (plain n.item) n.mode zero_trigger n.trigger s).1 in
      elim (Bool-cases (ltb (length s.run.transcript) (length s'.run.transcript))) [
        | inl e ↦ rw e (Keeps-append_one (plain n.item) n.mode zero_trigger n.trigger s)
        | inr e ↦ rw e (Keeps-append_one (plain n.item) n.mode zero_trigger n.trigger s)
      ]

  Keeps-flush_from : (notes : List Note) → Keeps (flush_from env.send notes)
  unfolding flush_from
  Keeps-flush_from [] = Keeps-report_notes
  Keeps-flush_from (n ∷ rest) = elim (Bool-cases (is_nil n.item)) [
    | inl e ↦ λ s. rw e (
        Keeps-bind (drop_note env.send rest) (λ u. flush_from env.send rest) (λ s. refl)
          (λ u. Keeps-flush_from rest) s)
    | inr e ↦ λ s. rw e (
        Keeps-bind (flush_one env.send n rest) (λ u. flush_from env.send rest)
          (Keeps-flush_one n rest) (λ u. Keeps-flush_from rest) s)
  ]

  pub Keeps-flush_notes : Keeps (flush_notes env.send)
  unfolding flush_notes
  Keeps-flush_notes s = Keeps-flush_from s.run.notes s

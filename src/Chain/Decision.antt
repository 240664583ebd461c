-- ===== src/Chain/Decision.antt =====
-- config.go's ToolDecision and chain.go's merge, which joins the decisions of two tool hooks.
use agentturn.Base.{
  ℕ, Bool, true, false, not, ◌&&◌, ◌||◌, Option, none, some, String, ◌==◌, String-Comparable, ltb,
  if◌then◌else◌,
}

pub data ToolAction : Type 0 where
  allow block defer : ToolAction

pub record ToolDecision : Type 0 where
  pub action : ToolAction
  pub reason : String
  pub terminate : Bool
  pub args : Option String
  pub by : String
  pub note : String
  pub held : Bool
  pub subject : String
  pub decline_text : String

unfoldable pub strictness : ToolAction → ℕ
strictness block = 2
strictness defer = 1
strictness allow = 0

abbrev pub is_block : ToolAction → Bool
is_block block = true
is_block _ = false

abbrev pub is_defer : ToolAction → Bool
is_defer defer = true
is_defer _ = false

-- `if d.f == "" { d.f = next.f }`
abbrev pub or_else : String → String → String
or_else s t = if s == "" then t else s

abbrev or_some : Option String → Option String → Option String
or_some a none = a
or_some a (some b) = some b

-- The switch: which of the two explains the decision that stands.
standing : ToolDecision → ToolDecision → ToolDecision
unfolding strictness
standing d next =
    if ltb (strictness d.action) (strictness next.action)
    then record d {
      action = next.action;
      reason = next.reason;
      by = next.by;
      held = next.held;
      subject = next.subject;
      decline_text = next.decline_text;
    }
    else if is_defer d.action && is_defer next.action && d.held && not next.held
    then record d {
      held = false;
      reason = next.reason;
      by = next.by;
      subject = next.subject;
      decline_text = next.decline_text;
    }
    else d

abbrev same_bool : Bool → Bool → Bool
same_bool true b = b
same_bool false b = not b

-- What the decision that stands takes from the other where it says nothing itself.
filled : ToolDecision → ToolDecision → ToolDecision
filled d next = record d {
  reason = or_else d.reason next.reason;
  by = or_else d.by next.by;
  decline_text =
      if is_defer d.action && is_defer next.action && same_bool d.held next.held
      then or_else d.decline_text next.decline_text
      else d.decline_text;
  note = or_else d.note next.note;
  args = or_some d.args next.args;
  terminate = d.terminate || next.terminate;
}

unfoldable pub merge : ToolDecision → ToolDecision → ToolDecision
unfolding standing filled
merge d next = filled (standing d next) next

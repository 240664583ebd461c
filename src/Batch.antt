-- ===== src/Batch.antt =====
-- run.go: the batches of tool calls: what a batch is given, and the state of one of its calls. A hook
-- or a tool may say notes on a call as it runs: a hook hands what it said back beside its world, in
-- the order said. What tools do on their own goroutines reaches the loop as a schedule, the events of
-- the executor (a third-party package) in the order that the loop and the start callback take them,
-- with what the tools did to the world in between. The calls that a tool makes itself (Invoke) are
-- not modelled.
pub mod Said
pub mod Settle
pub mod Cut
pub mod Preflight
pub mod Approved
pub mod Execute
pub mod Run
pub mod Paired
pub mod Tests
use agentturn.Base.{ℕ, Bool, true, false, ◌||◌, List, [], Option, none, some, String, Result}
use Prim.Native.String.{◌++◌}
use agentturn.Items.{Item, Trigger}
use agentturn.Loop.{ToolResult, Note, PendingCall, Event, State}
use agentturn.Chain.{BeforeToolCall}

-- A cancelled context: what Err gives, and the cause.
pub record Cancel (Err : Type 0) : Type 0 where
  pub ctx_err : Err
  pub cause : Err

-- A note, and the calls it is said under, nearest first.
pub record Spoken : Type 0 where
  pub note : Item
  pub ids : List String

-- callState, less the call's parent, which is for a nested call only, and what the executor waits on.
pub record Call (Err : Type 0) : Type 0 where
  pub call : Item
  -- Whether a tool has its name.
  pub tool : Bool
  pub args : String
  pub result : ToolResult
  pub err : Option Err
  pub blocked : Bool
  pub settled : Bool
  pub deferred : Bool
  pub cut : Bool
  pub ended : Bool
  pub terminate : Bool
  pub dispatch_err : Option Err
  pub turn : ℕ
  pub appended : Bool
  pub notes : List Note
  pub reason : String
  pub key : String
  pub dispatched : Bool

-- The idempotency key of a call.
abbrev pub call_key : String → String → String
call_key run_id call_id = run_id ++ "/" ++ call_id

abbrev pub no_result : ToolResult
no_result = record { output = ""; terminate = false; details = none }

-- What a tool hook is told beside the arguments.
pub record CallInfo : Type 0 where
  pub turn : ℕ
  pub call : Item
  pub tool : Bool
  pub batch : List Item
  pub index : ℕ

pub record ResultInfo (Err : Type 0) : Type 0 where
  pub turn : ℕ
  pub call : Item
  pub tool : Bool
  pub args : String
  pub result : ToolResult
  pub err : Option Err

pub record ToolOverride (Err : Type 0) : Type 0 where
  pub result : ToolResult
  pub err : Option Err

pub record Job : Type 0 where
  pub call_id : String
  pub name : String
  pub args : String
  pub key : String

-- What the executor does, by the index of its job. A start is a call of OnStart that came past its
-- waits: one that the cancellation ends there does nothing.
pub data ExecEvent (W Err : Type 0) : Type 0 where
  ran : (W → W) → ExecEvent W Err
  said : Spoken → ExecEvent W Err
  started : ℕ → ExecEvent W Err
  partial : ℕ → ToolResult → ExecEvent W Err
  final : ℕ → ToolResult → Option Err → ExecEvent W Err

pub record BatchEnv (W Err : Type 0) : Type 0 where
  pub send : Event Err → W → Option Err × W
  pub json : Item → Option String
  pub run_id : String
  pub has_tool : String → Bool
  pub before_tool_call : Option (BeforeToolCall (List Spoken × W) Err CallInfo)
  pub after_tool_call : Option (
      ResultInfo Err → List Spoken × W → Result Err (Option (ToolOverride Err)) × (List Spoken × W))
  pub executor : List Job → W → List (ExecEvent W Err)
  -- The context of the batch, once it is cancelled.
  pub cancelled : W → Option (Cancel Err)
  -- `errors.Is`, context.Canceled, and the errors that the batch makes: of a blocked call by its
  -- reason, of a call that no tool has the name of, of bad arguments, of a hook.
  pub is_error : Err → Err → Bool
  pub canceled : Err
  pub blocked_error : String → Err
  pub unknown_tool : String → Err
  pub invalid_arguments : Err
  pub before_error : Err → Err
  pub after_error : Err → Err
  -- agenttool.ErrorResult, and the decoding of the arguments as an object.
  pub error_result : Err → ToolResult
  pub valid_object : String → Bool
  -- The address of the next item made, and what openresponses makes of a text.
  pub new_ref : W → ℕ × W

module _ {W Err : Type 0} (env : BatchEnv W Err) where
  -- `r.emit`, as the error or none.
  unfoldable pub tell : Event Err → State W → Option Err × State W
  tell ev s = let (e, w) = env.send ev s.world in (e, record s { world = w })

  abbrev pub matches : Err → Option (Cancel Err) → Bool
  matches e none = false
  matches e (some c) = env.is_error e c.ctx_err || env.is_error e c.cause

  abbrev pub is_cancellation : Option Err → Option (Cancel Err) → Bool
  is_cancellation none c = false
  is_cancellation (some e) c = matches e c

-- ===== src/Chain/Tests.antt =====
-- Runs of the chains on small hooks, and the theorems at such inputs.
use agentturn.Base.{
  ℕ, ◌+◌, ◌≡◌, refl, Bool, true, false, ◌++◌, List, [], ◌∷◌, Option, none, some, ok, err, String,
}
use agentturn.Chain.Decision.{ToolDecision, allow, block, defer, strictness, merge}
use agentturn.Chain.{
  ToolCallInfo, BeforeToolCall, Transform, ShouldStop, BeforeModelCall, BeforeTurn, OutputGuard,
  chain_before_tool_call,
}
use agentturn.Chain.ToolCall.{chain_before_tool_call_final}

abbrev silent : ToolDecision
silent = record {
  action = allow;
  reason = "";
  terminate = false;
  args = none;
  by = "";
  note = "";
  held = false;
  subject = "";
  decline_text = "";
}

abbrev asks : ToolDecision
asks = record silent { action = defer; reason = "ask the person"; terminate = true }

abbrev refuses : ToolDecision
refuses = record silent { action = block; reason = "never"; by = "policy" }

-- The state counts the calls.
abbrev says : Option ToolDecision → BeforeToolCall ℕ String String
says d info w = (ok d, w + 1)

abbrev policy : List (Option (BeforeToolCall ℕ String String))
policy = some (says (some asks)) ∷ none ∷ some (says none) ∷ some (says (some refuses)) ∷ []

abbrev call : ToolCallInfo String
call = record { call = "read"; args = none }

chain_before_tool_call_final_example :
    (h : BeforeToolCall ℕ String String) × (chain_before_tool_call
        (policy ++ some (says (some asks)) ∷ [])
      ≡ some h)
    × (h call 0 ≡ (ok (some (merge asks refuses)), 3))
unfolding chain_before_tool_call merge strictness
chain_before_tool_call_final_example =
    chain_before_tool_call_final policy (some (says (some asks)) ∷ []) call 0 refl refl

-- A transform that adds to the transcript, and one that fails.
abbrev adds : ℕ → Transform ℕ String (List ℕ)
adds n t w = (ok (t ++ n ∷ []), w + 1)

abbrev fails : Transform ℕ String (List ℕ)
fails t w = (err "no", w + 1)

abbrev two : Transform ℕ String (List ℕ)
two t w = (ok ((t ++ 1 ∷ []) ++ 2 ∷ []), w + 1 + 1)

abbrev stops : Bool → ShouldStop ℕ String ℕ
stops b info w = (ok b, w + 1)

abbrev edits : Option String → BeforeModelCall ℕ String
edits e w = (e, w + 1)

abbrev offers : ℕ → BeforeTurn ℕ String ℕ ℕ
offers n info w = (ok (n ∷ info ∷ []), w + 1)

abbrev replaces : Option ℕ → OutputGuard ℕ String ℕ
replaces m message w = (ok m, w + message)

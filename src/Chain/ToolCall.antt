-- ===== src/Chain/ToolCall.antt =====
-- chain.go: what the chain of tool hooks decides, and what ends it.
use agentturn.Base.{
  ◌≡◌, ap, sym, ◌∙◌, inl, inr, true, ◌++◌, List, [], ◌∷◌, Option, none, some, Result, ok, err,
  arith, Result-cases, Bool-cases, if◌then◌else◌, subst,
}
use agentturn.Chain.Decision.{ToolDecision, is_block}
use agentturn.Chain.{
  ToolCallInfo, with_args, fold_decision, BeforeToolCall, run_before_tool_call,
  chain_before_tool_call, kept,
}
use agentturn.Chain.Laws.{kept-append, chained-eq, chained-append}
use agentturn.Chain.Merged.{Goes}

abbrev OnOk :
    {Err : Type 0} → (Option ToolDecision → Type 0) → Result Err (Option ToolDecision) → Type 0
OnOk P (ok res) = P res
OnOk P (err e) = Unit {0}

-- A run that failed or blocked: its result.
abbrev pub IsFinal : {W Err : Type 0} → Result Err (Option ToolDecision) × W → Type 0
IsFinal (err e, w) = Unit {0}
IsFinal (ok none, w) = ⊥
IsFinal (ok (some d), w) = is_block d.action ≡ true

-- The decisions that the hooks returned, in order: those of the hooks that were called.
module _ {W Err Call : Type 0} where
  pub decided :
      Option ToolDecision
      → List (BeforeToolCall W Err Call)
      → ToolCallInfo Call
      → W
      → List ToolDecision
  decided out [] info w = []
  decided out (fn ∷ fns) info w =
      let (r, w') = fn info w in
      elim r [
        | err e ↦ []
        | ok none ↦ decided out fns info w'
        | ok (some d) ↦
            let out' = fold_decision out d in
            let rest = decided (some out') fns (with_args info out'.args) w' in
            d ∷ (if is_block out'.action then [] else rest)
      ]

  run_final :
      (xs ys : List (BeforeToolCall W Err Call)) (out : Option ToolDecision)
      (info : ToolCallInfo Call) (w : W)
      → Goes out
      → IsFinal (run_before_tool_call out xs info w)
      → run_before_tool_call out (xs ++ ys) info w ≡ run_before_tool_call out xs info w
  unfolding run_before_tool_call
  run_final [] ys none info w g f = absurd f
  run_final [] ys (some d) info w g f = cc
  run_final (fn ∷ xs) ys out info w g f = elim (Result-cases (fn info w).0) [
    | inl (none, q) ↦ ground (arith, q, run_final xs ys out info (fn info w).1 g)
    | inl (some d, q) ↦ elim (Bool-cases (is_block (fold_decision out d).action)) [
      | inl b ↦ ground (arith, q, b)
      | inr b ↦ ground (
        arith,
        q,
        b,
        run_final xs ys (some (fold_decision out d)) (with_args info (fold_decision out d).args)
            (fn info w).1 b,
      )
    ]
    | inr (_, q) ↦ ground (arith, q)
  ]

  -- A chain that ended in an error or a block is not changed by functions appended to it: they are
  -- not called, and the result and the state are those of the shorter chain.
  pub chain_before_tool_call_final :
      (xs ys : List (Option (BeforeToolCall W Err Call))) {f : BeforeToolCall W Err Call}
      (info : ToolCallInfo Call) (w : W)
      → chain_before_tool_call xs ≡ some f
      → IsFinal (f info w)
      → (h : BeforeToolCall W Err Call) × (chain_before_tool_call (xs ++ ys) ≡ some h)
        × (h info w ≡ f info w)
  unfolding chain_before_tool_call
  chain_before_tool_call_final xs ys {f} info w p final =
      let q = chained-eq (run_before_tool_call none) (kept xs) p in
      (
        run_before_tool_call none (kept xs ++ kept ys),
        rw (kept-append xs ys) (chained-append (run_before_tool_call none) (kept xs) (kept ys) p),
        run_final (kept xs) (kept ys) none info w tt (subst (λ g. IsFinal (g info w)) q final)
            ∙ ap (λ h. h info w) (sym q),
      )

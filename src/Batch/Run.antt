-- ===== src/Batch/Run.antt =====
-- run.go: collect, toolBatch and approvedBatch.
use agentturn.Base.{List, [], ◌∷◌, map, some, if◌then◌else◌, is_empty, ℕ}
use agentturn.Items.{Item}
use agentturn.Loop.{ToolResult, Act}
use agentturn.Loop.Append.{◌>>=◌, ◌>>◌, pure}
use agentturn.Loop.Notes.{flush_notes}
use agentturn.Batch.{Call, BatchEnv}
use agentturn.Batch.Cut.{outputs, append_outputs, flush_if}
use agentturn.Batch.Preflight.{preflight_all}
use agentturn.Batch.Approved.{Approval, approved_all}
use agentturn.Batch.Execute.{execute}

module _ {Err : Type 0} where
  unfoldable pub answered_calls : List (Call Err) → List (Call Err)
  answered_calls [] = []
  answered_calls (p ∷ batch) = if p.deferred then answered_calls batch else p ∷ answered_calls batch

  unfoldable pub deferred_calls_of : List (Call Err) → List Item
  deferred_calls_of [] = []
  deferred_calls_of (p ∷ batch) =
      if p.deferred then p.call ∷ deferred_calls_of batch else deferred_calls_of batch

module _ {W Err : Type 0} (env : BatchEnv W Err) where
  unfoldable pub collect : List (Call Err) → Act W Err (List ToolResult × List Item)
  unfolding outputs answered_calls deferred_calls_of append_outputs flush_notes
  collect batch s =
      let (items, s1) = outputs env (answered_calls batch) s in
      let waiting = deferred_calls_of batch in
      let steps : Act W Err (List ToolResult × List Item) = do
        append_outputs env (map some batch) items
        flush_if env (is_empty waiting)
        pure (map (λ p. p.result) batch, waiting)
      in steps s1

  unfoldable pub tool_batch : ℕ → List Item → Act W Err (List ToolResult × List Item)
  unfolding preflight_all execute collect
  tool_batch turn [] = pure ([], [])
  tool_batch turn (call ∷ calls) = do
    batch ← preflight_all env turn (call ∷ calls)
    executed ← execute env batch
    collect executed

  unfoldable pub approved_batch : ℕ → List Approval → Act W Err (List ToolResult × List Item)
  unfolding approved_all execute collect
  approved_batch turn approved = do
    batch ← approved_all env turn approved
    executed ← execute env batch
    collect executed

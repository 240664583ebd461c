-- ===== src/Batch/Paired/Batches.antt =====
-- run.go: toolBatch and approvedBatch raise a tool_end for every tool_start, on every path.
use agentturn.Base.{
  ℕ, suc, ◌≡◌, refl, ◌∙◌, false, List, [], ◌∷◌, ◌++◌, map, Option, none, some, String, ok, arith,
  by_if, All, ◌==◌, String-Comparable,
}
use agentturn.Items.{Item}
use agentturn.Loop.{ToolEvent, State}
use agentturn.Batch.{Call, BatchEnv}
use agentturn.Batch.Said.{batch_call}
use agentturn.Batch.Settle.{new_text, prepare}
use agentturn.Batch.Preflight.{consult, launch, preflight_all, preflight_from}
use agentturn.Batch.Approved.{
  Approval, add_text, answer_note_item, approval_decision, approve, approved_all, approved_call,
  approved_from, on_approved_call, with_key,
}
use agentturn.Batch.Run.{tool_batch, approved_batch}
use agentturn.Batch.Paired.{Recorded, starts, ends}
use agentturn.Batch.Paired.Settled.{Owes}
use agentturn.Batch.Paired.Begun.{consult-IsQuietly, owed}
use agentturn.Batch.Paired.Preflighted.{
  Tried, launch-Tried, Loaded, Loaded-step, IsReady, preflight_from-Loaded,
}
use agentturn.Batch.Paired.Whole.{Executes, Prepared, Prepared-Owes, after_preflight-Prepared}

-- Every call ID was started as often as it was ended.
abbrev pub IsPaired : {Err : Type 0} → List (ToolEvent Err) → Type 0
IsPaired history = (id : String) → starts id history ≡ ends id history

module _ {W Err : Type 0} (env : BatchEnv W Err) (raised : W → List (ToolEvent Err))
    (rec : Recorded env raised) where
  -- A call that has only been prepared.
  abbrev IsFresh : State W → Call Err × State W → Type 0
  IsFresh s (p, s') = (p.ended ≡ false) × (p.settled ≡ false) × (raised s'.world ≡ raised s.world)

  add_text-IsFresh :
      (text : String) (make : State W → Item × State W) (s : State W) (out : Call Err × State W)
      → ((t : State W) → raised (make t).1.world ≡ raised t.world)
      → IsFresh s out
      → IsFresh s (add_text env text make out)
  unfolding add_text
  add_text-IsFresh text make s (p, s1) quiet (e, t, kept) =
      by_if (IsFresh s) (text == "") (λ b. (e, t, kept)) (λ b. (e, t, quiet s1 ∙ kept))

  approve-IsFresh : (turn : ℕ) (ap : Approval) (s : State W) → IsFresh s (approve env turn ap s)
  unfolding approve new_text answer_note_item prepare batch_call
  approve-IsFresh turn a s =
      let p = prepare env turn a.call a.args in
      let s0 = on_approved_call env a.call s in
      let keyed : IsFresh s (with_key env a.key p, s0) =
        by_if (λ q. IsFresh s (q, s0)) (a.key == "") (λ b. (refl, refl, refl))
          (λ b. (refl, refl, refl)) in
      add_text-IsFresh a.held (new_text env a.held) s
        (add_text env a.note (answer_note_item env a.note a.by) (with_key env a.key p, s0))
        (λ t. rec.made t.world)
        (add_text-IsFresh a.note (answer_note_item env a.note a.by) s (with_key env a.key p, s0)
          (λ t. rec.made t.world) keyed)

  approved_call-Tried :
      (turn : ℕ) (a : Approval) (batch : List Item) (i : ℕ) (s : State W)
      → Tried env raised rec s (approved_call env turn a batch i s)
  unfolding approved_call
  approved_call-Tried turn a batch i s =
      let (p, s1) = approve env turn a s in
      let (unended, unsettled, kept) = approve-IsFresh turn a s in
      let asked = consult env env.before_tool_call p batch i s1 in
      by_if (λ out. Tried env raised rec s (launch env (some (approval_decision env a)) out))
        a.decide
        (λ b.
          let (alike, quiet) =
            consult-IsQuietly env raised rec env.before_tool_call p batch i s1 refl in
          launch-Tried env raised rec (some (approval_decision env a)) p s asked unended unsettled
            (alike, quiet ∙ kept))
        (λ b.
          launch-Tried env raised rec (some (approval_decision env a)) p s (ok none, (p, s1))
            unended unsettled ((refl, refl, refl), kept))

  approved_from-Loaded :
      (turn : ℕ) (batch : List Item) (approved : List Approval) (done : List (Option (Call Err)))
      (i : ℕ) (s0 s : State W)
      → ((id : String) → Owes env raised rec id 0 s0 → Owes env raised rec id (owed id done) s)
      → All (IsReady env raised rec) done
      → Loaded env raised rec s0 (approved_from env turn batch done i approved s)
  unfolding approved_from
  approved_from-Loaded turn batch [] done i s0 s owes ready = (owes, λ n. ready)
  approved_from-Loaded turn batch (a ∷ approved) done i s0 s owes ready =
      let (e, (o, s1)) = approved_call env turn a batch i s in
      Loaded-step env raised rec s0 s done (map (λ a. a.call) approved) e o s1
        (approved_from env turn batch (done ++ o ∷ []) (suc i) approved s1)
        (approved_call-Tried turn a batch i s) owes ready
        (approved_from-Loaded turn batch approved (done ++ o ∷ []) (suc i) s0 s1)

  paired-Owes : (id : String) (s : State W) → IsPaired (raised s.world) → Owes env raised rec id 0 s
  paired-Owes id s paired = ground (arith, paired id)

  Owes-paired :
      (id : String) (s : State W)
      → Owes env raised rec id 0 s
      → starts id (raised s.world) ≡ ends id (raised s.world)
  Owes-paired id s owes = ground (arith, owes)

  preflight_all-Prepared :
      (turn : ℕ) (calls : List Item) (s : State W)
      → Prepared env raised rec s (preflight_all env turn calls s)
  unfolding preflight_all
  preflight_all-Prepared turn calls s =
      after_preflight-Prepared env raised rec s (preflight_from env turn calls [] 0 calls s)
        (preflight_from-Loaded env raised rec turn calls calls [] 0 s s (λ id o. o) tt)

  approved_all-Prepared :
      (turn : ℕ) (approved : List Approval) (s : State W)
      → Prepared env raised rec s (approved_all env turn approved s)
  unfolding approved_all
  approved_all-Prepared turn approved s =
      let calls = map (λ a. a.call) approved in
      after_preflight-Prepared env raised rec s (approved_from env turn calls [] 0 approved s)
        (approved_from-Loaded turn calls approved [] 0 s s (λ id o. o) tt)

-- The world keeps a history of the tool events sent to it, the executor brings each of its jobs to its
-- end once, in whatever order, and the hooks, the tools and the maker of items raise no tool event
-- themselves. Then from a history in which every call ID has as many tool_end as tool_start events, a
-- batch of calls leaves such a history, whether it goes on, fails or is aborted: whatever the hooks,
-- the subscribers and the tools answer, and wherever a failure or a cancellation cuts it off.
pub tool_batch-IsPaired :
    {W Err : Type 0} (env : BatchEnv W Err) (raised : W → List (ToolEvent Err))
    (rec : Recorded env raised) (turn : ℕ) (calls : List Item) (s : State W)
    → Executes env raised rec
    → IsPaired (raised s.world)
    → IsPaired (raised (tool_batch env turn calls s).1.world)
unfolding tool_batch
tool_batch-IsPaired env raised rec turn [] s executes paired id = paired id
tool_batch-IsPaired env raised rec turn (call ∷ calls) s executes paired id =
    Owes-paired env raised rec id (tool_batch env turn (call ∷ calls) s).1 (
      Prepared-Owes env raised rec s (preflight_all env turn (call ∷ calls)) s id executes
        (preflight_all-Prepared env raised rec turn (call ∷ calls) s)
        (paired-Owes env raised rec id s paired))

-- With such a world, executor, hooks and tools, a batch of the calls that were approved keeps a
-- history in which every call ID has as many tool_end as tool_start events, on every path.
pub approved_batch-IsPaired :
    {W Err : Type 0} (env : BatchEnv W Err) (raised : W → List (ToolEvent Err))
    (rec : Recorded env raised) (turn : ℕ) (approved : List Approval) (s : State W)
    → Executes env raised rec
    → IsPaired (raised s.world)
    → IsPaired (raised (approved_batch env turn approved s).1.world)
unfolding approved_batch
approved_batch-IsPaired env raised rec turn approved s executes paired id =
    Owes-paired env raised rec id (approved_batch env turn approved s).1 (
      Prepared-Owes env raised rec s (approved_all env turn approved) s id executes
        (approved_all-Prepared env raised rec turn approved s)
        (paired-Owes env raised rec id s paired))

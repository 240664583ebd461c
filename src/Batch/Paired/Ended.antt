-- ===== src/Batch/Paired/Ended.antt =====
-- run.go: the tool events of failBatch and abortBatch: every call that has not ended is ended.
use agentturn.Base.{
  ℕ, ◌+◌, ◌≡◌, refl, ◌∙◌, inl, inr, Bool, true, false, List, [], ◌∷◌, Option, none, some, String,
  Result, ok, err, String-Comparable, if◌then◌else◌, arith, Bool-cases, by_if,
}
use agentturn.Loop.{tool, ToolEvent, State, Halt}
use agentturn.Loop.Append.{append_items}
use agentturn.Loop.Notes.{report_notes}
use agentturn.Loop.Pending.{id_of}
use agentturn.Items.{Input}
use agentturn.Batch.{Call, no_result, BatchEnv}
use agentturn.Batch.Said.{hold_strays}
use agentturn.Batch.Settle.{finish, settle}
use agentturn.Batch.Cut.{
  outputs, finished_calls, all_appended, hold_batch, append_outputs, flush_if, end_refused,
  append_finished, cut_by, fail_all, fail_batch, abort_one, abort_all, abort_batch, aborted_by,
}
use agentturn.Batch.Paired.{
  Recorded, Keeps, Keeps-bind, Keeps-append_items, Keeps-report_notes, Keeps-flush_notes,
}
use agentturn.Batch.Paired.Settled.{Owes, Closes, finish-Closes, Ends, settle-Ends}
use agentturn.Batch.Paired.Begun.{owed}

module _ {W Err : Type 0} (env : BatchEnv W Err) (raised : W → List (ToolEvent Err))
    (rec : Recorded env raised) where
  pub outputs-quiet :
      (ps : List (Call Err)) (s : State W) → raised (outputs env ps s).1.world ≡ raised s.world
  unfolding outputs
  outputs-quiet [] s = refl
  outputs-quiet (p ∷ ps) s =
      let (ref, w) = env.new_ref s.world in
      outputs-quiet ps (record s { world = w }) ∙ rec.made s.world

  pub Keeps-append_outputs :
      (batch : List (Option (Call Err))) (items : List Input)
      → Keeps env raised rec (append_outputs env batch items)
  unfolding append_outputs
  Keeps-append_outputs batch items s =
      Keeps-bind env raised rec (report_notes env.send) (λ _. append_items env.send items tool)
        (Keeps-report_notes env raised rec) (λ _. Keeps-append_items env raised rec items tool)
        (record s { run = hold_strays env.json (hold_batch env batch s.run) })

  pub Keeps-flush_if : (all : Bool) → Keeps env raised rec (flush_if env all)
  Keeps-flush_if true s = Keeps-flush_notes env raised rec s
  Keeps-flush_if false s = refl

  pub Keeps-append_finished :
      (batch : List (Option (Call Err))) → Keeps env raised rec (append_finished env batch)
  unfolding append_finished
  Keeps-append_finished batch s =
      let c = env.cancelled s.world in
      let (items, s1) = outputs env (finished_calls env c batch) s in
      Keeps-bind env raised rec (append_outputs env batch items)
        (λ _. flush_if env (all_appended env c batch)) (Keeps-append_outputs batch items)
        (λ _. Keeps-flush_if (all_appended env c batch)) s1
      ∙ outputs-quiet (finished_calls env c batch) s

  -- Every call that has not ended gets its end.
  abbrev pub Clears : List (Option (Call Err)) → State W → State W → Type 0
  Clears batch s s' =
      (id : String) (k : ℕ)
      → Owes env raised rec id (k + owed id batch) s
      → Owes env raised rec id k s'

  Clears-cons :
      (p : Call Err) (batch : List (Option (Call Err))) (s s1 s' : State W)
      → (p.ended ≡ false → Closes env raised rec p s s1)
      → Clears batch (if p.ended then s else s1) s'
      → Clears (some p ∷ batch) s s'
  Clears-cons p batch s s1 s' one rest id k owes = elim (Bool-cases p.ended) [
    | inl e ↦ rest id k (rw e (ground (arith, e, owes)))
    | inr e ↦ rest id k (rw e (one e id (k + owed id batch) (ground (arith, e, owes))))
  ]

  pub fail_all-Clears :
      (cause : Err) (batch : List (Option (Call Err))) (s : State W)
      → Clears batch s (fail_all env cause batch s).1
  unfolding fail_all
  fail_all-Clears cause [] s id k owes = ground (arith, owes)
  fail_all-Clears cause (none ∷ batch) s id k owes = fail_all-Clears cause batch s id k owes
  fail_all-Clears cause (some p ∷ batch) s id k owes =
      let cut : Call Err = record (cut_by env cause p) { result = no_result } in
      let s1 = (finish env cut s).1.1 in
      Clears-cons p batch s s1 (fail_all env cause batch (if p.ended then s else s1)).1
        (λ e. finish-Closes env raised rec cut s)
        (fail_all-Clears cause batch (if p.ended then s else s1)) id k owes

  Closes-from :
      (p q : Call Err) (s s' t : State W)
      → id_of q.call ≡ id_of p.call
      → raised s'.world ≡ raised s.world
      → Closes env raised rec q s' t
      → Closes env raised rec p s t
  Closes-from p q s s' t same quiet closes id k owes = closes id k (rw (same, quiet) owes)

  end_refused-Closes :
      (p : Call Err) (s : State W) (out : Option Err × (Call Err × State W))
      → Ends env raised rec p s out
      → Closes env raised rec p s (end_refused env out).1.1
  unfolding end_refused
  end_refused-Closes p s (none, (q, s')) (same, settled, inl (ended, owes)) = owes
  end_refused-Closes p s (none, (q, s')) (same, settled, inr (open_end, quiet, (x, failed))) =
      λ id k owes. ground (arith, failed)
  end_refused-Closes p s (some e, (q, s')) (same, settled, inl (ended, owes)) =
      by_if (λ (out : Option Err × (Call Err × State W)). Closes env raised rec p s out.1.1) q.ended
        (λ b. owes) (λ b id k owed. ground (arith, b, ended))
  end_refused-Closes p s (some e, (q, s')) (same, settled, inr (open_end, quiet, failed)) =
      by_if (λ (out : Option Err × (Call Err × State W)). Closes env raised rec p s out.1.1) q.ended
        (λ b id k owed. ground (arith, b, open_end))
        (λ b.
          Closes-from p q s s' (finish env q s').1.1 same quiet (finish-Closes env raised rec q s'))

  abort_one-Closes :
      (cause : Err) (first : Option Err) (p : Call Err) (s : State W)
      → p.ended ≡ false
      → Closes env raised rec p s (abort_one env cause first p s).1.1
  unfolding abort_one
  abort_one-Closes cause none p s unended =
      end_refused-Closes (cut_by env cause p) s (settle env (cut_by env cause p) s)
        (settle-Ends env raised rec (cut_by env cause p) s unended)
  abort_one-Closes cause (some first) p s unended =
      finish-Closes env raised rec (cut_by env cause p) s

  abort_all-Clears :
      (cause : Err) (first : Option Err) (batch : List (Option (Call Err))) (s : State W)
      → Clears batch s (abort_all env cause first batch s).1.1
  unfolding abort_all
  abort_all-Clears cause first [] s id k owes = ground (arith, owes)
  abort_all-Clears cause first (none ∷ batch) s id k owes =
      abort_all-Clears cause first batch s id k owes
  abort_all-Clears cause first (some p ∷ batch) s id k owes =
      let (f, (q, s1)) = abort_one env cause first p s in
      let f' = if p.ended then first else f in
      let s' = if p.ended then s else s1 in
      Clears-cons p batch s s1 (abort_all env cause f' batch s').1.1
        (λ e. abort_one-Closes cause first p s e) (abort_all-Clears cause f' batch s') id k owes

  pub fail_batch-Clears :
      (A : Type 0) (batch : List (Option (Call Err))) (cause : Err) (s : State W)
      → Clears batch s (fail_batch env {A = A} batch cause s).1
  unfolding fail_batch
  fail_batch-Clears A batch cause s id k owes =
      let (batch', s1) = fail_all env cause batch s in
      rw (Keeps-append_finished batch' s1) (fail_all-Clears cause batch s id k owes)

  pub abort_batch-Clears :
      (A : Type 0) (batch : List (Option (Call Err))) (cause : Err) (s : State W)
      → Clears batch s (abort_batch env {A = A} batch cause s).1
  unfolding abort_batch
  abort_batch-Clears A batch cause s id k owes =
      let (first, (batch', s1)) = abort_all env cause none batch s in
      rw (Keeps-append_finished batch' s1) (abort_all-Clears cause none batch s id k owes)

  aborted_by-err :
      (A : Type 0) (cause : Err) (first : Option Err) (r : Result (Halt Err) (Unit {0}))
      → (e : Halt Err) × (aborted_by env {A = A} cause first r ≡ err e)
  aborted_by-err A cause (some f) r = (_, refl)
  aborted_by-err A cause none (err e) = (_, refl)
  aborted_by-err A cause none (ok u) = (_, refl)

  pub abort_batch-err :
      (A : Type 0) (batch : List (Option (Call Err))) (cause : Err) (s : State W)
      → (e : Halt Err) × ((abort_batch env {A = A} batch cause s).0 ≡ err e)
  unfolding abort_batch
  abort_batch-err A batch cause s =
      let (first, (batch', s1)) = abort_all env cause none batch s in
      aborted_by-err A cause first (append_finished env batch' s1).0

-- ===== src/Batch/Paired/Executed.antt =====
-- run.go: the tool events of execute.
use agentturn.Base.{
  ℕ, ◌≡◌, refl, sym, ◌∙◌, ◌⊎◌, inl, inr, true, false, ◌||◌, List, Option, none, some,
  String-Comparable, Nat-Comparable, arith, Option-cases, by_if, by_option, get_elem?, set, is_some,
  set-same,
}
use agentturn.Loop.{ToolEvent, ToolResult, State}
use agentturn.Loop.Pending.{id_of}
use agentturn.Batch.{Call, no_result, BatchEnv, is_cancellation}
use agentturn.Batch.Settle.{settle}
use agentturn.Batch.Execute.{
  Execution, put_call, with_final, drained, drain, take_result, settled_by, finish_job, context,
}
use agentturn.Batch.Paired.{Recorded}
use agentturn.Batch.Paired.Settled.{Closes, finish-Closes, Ends, settle-Ends}
use agentturn.Batch.Paired.Begun.{Owes-open}
use agentturn.Batch.Paired.Live.{Moved}

module _ {W Err : Type 0} (env : BatchEnv W Err) (raised : W → List (ToolEvent Err))
    (rec : Recorded env raised) where
  -- What the end of the job of `p`, at `i`, does.
  abbrev pub Finished : ℕ → Call Err → Execution W Err → Execution W Err → Type 0
  Finished i p x x' =
      (q : Call Err) × Moved env raised rec i p q x x'
      × ((q.ended ≡ true) ⊎ (is_some x'.failed ≡ true))

  -- A result of the call's own ends it, whatever the hook says.
  drained-Closes :
      (p : Call Err) (s : State W) (out : Option Err × (Call Err × State W))
      → Ends env raised rec p s out
      → ((drained env out).0.ended ≡ true) × Closes env raised rec p s (drained env out).1
  unfolding drained
  drained-Closes p s (none, (q, s')) (same, settled, inl (ended, owes)) = (ended, owes)
  drained-Closes p s (none, (q, s')) (same, settled, inr (open_end, quiet, (x, failed))) =
      ground (arith, failed)
  drained-Closes p s (some e, (q, s')) (same, settled, inl (ended, owes)) =
      by_if (λ (out : Call Err × State W). (out.0.ended ≡ true) × Closes env raised rec p s out.1)
        q.ended (λ b. (ended, owes)) (λ b. ground (arith, b, ended))
  drained-Closes p s (some e, (q, s')) (same, settled, inr (open_end, quiet, failed)) =
      by_if (λ (out : Call Err × State W). (out.0.ended ≡ true) × Closes env raised rec p s out.1)
        q.ended (λ b. ground (arith, b, open_end))
        (λ b. (
          refl,
          λ id k owes.
              let cut : Call Err = record q { cut = true; err = some e; result = no_result } in
              finish-Closes env raised rec cut s' id k (rw (same, quiet) owes),
        ))

  closed-Moved :
      (i : ℕ) (p q : Call Err) (x x' : Execution W Err)
      → p.ended ≡ false
      → q.ended ≡ true
      → x'.batch ≡ set x.batch i q
      → Closes env raised rec p x.state x'.state
      → (is_some x.failed ≡ true → is_some x'.failed ≡ true)
      → Moved env raised rec i p q x x'
  closed-Moved i p q x x' unended ended batch closes failed = (
    batch,
    λ id k owes. ground (arith, ended, closes id k (ground (arith, unended, owes))),
    failed,
  )

  drain-Finished :
      (i : ℕ) (result : ToolResult) (e : Option Err) (p : Call Err) (x : Execution W Err)
      → get_elem? x.batch i ≡ some p
      → p.ended ≡ false
      → is_some x.failed ≡ true
      → Finished i p x (drain env i result e p x)
  unfolding drain
  drain-Finished i result e p x here unended failed =
      let out = settle env (with_final env result e p) x.state in
      let (ended, closes) =
        drained-Closes (with_final env result e p) x.state out
          (settle-Ends env raised rec (with_final env result e p) x.state unended) in
      let left : Finished i p x x =
        (p, (sym (set-same x.batch i p here), (λ id k owes. owes), (λ f. f)), inr failed) in
      by_if (Finished i p x) (is_some p.dispatch_err) (λ b. left)
        (λ b.
          by_if (Finished i p x) (is_cancellation env e (context env x) || x.hook_failed)
            (λ c. left)
            (λ c. (
              (drained env out).0,
              closed-Moved i p (drained env out).0 x (put_call env i (drained env out) x) unended
                  ended refl closes (λ f. f),
              inl ended,
            )))

  -- What a settled call leaves, its failure taken note of.
  settled-Finished :
      (i : ℕ) (p p' : Call Err) (x : Execution W Err) (out : Option Err × (Call Err × State W))
      → p.ended ≡ false
      → id_of p'.call ≡ id_of p.call
      → x.failed ≡ none
      → Ends env raised rec p' x.state out
      → Finished i p x (settled_by env i out x)
  unfolding settled_by
  settled-Finished i p p' x (none, (q, s)) unended same failed (named, settled, inl (ended, owes)) =
      (
        q,
        closed-Moved i p q x (settled_by env i (none, (q, s)) x) unended ended refl
            (λ id k owed. owes id k (rw same owed)) (λ f. f),
        inl ended,
      )
  settled-Finished i p p' x (none, (q, s)) unended same failed
        (named, settled, inr (o, quiet, (y, f))) =
      ground (arith, f)
  settled-Finished i p p' x (some e, (q, s)) unended same failed
        (named, settled, inl (ended, owes)) =
      (
        q,
        closed-Moved i p q x (settled_by env i (some e, (q, s)) x) unended ended refl
            (λ id k owed. owes id k (rw same owed)) (λ f. refl),
        inl ended,
      )
  settled-Finished i p p' x (some e, (q, s)) unended same failed
        (named, settled, inr (o, quiet, f)) =
      (
        q,
        (
          refl,
          λ id k owed.
              Owes-open env raised rec id (id_of p.call) k q x.state s o (named ∙ same) quiet
                (ground (arith, unended, owed)),
          λ f. refl,
        ),
        inr refl,
      )

  take_result-Finished :
      (i : ℕ) (result : ToolResult) (e : Option Err) (p : Call Err) (x : Execution W Err)
      → get_elem? x.batch i ≡ some p
      → p.ended ≡ false
      → x.failed ≡ none
      → Finished i p x (take_result env i result e p x)
  unfolding take_result
  take_result-Finished i result e p x here unended failed =
      let q = with_final env result e p in
      by_option (Finished i p x) p.dispatch_err
        (λ d.
          settled-Finished i p q x (settle env q x.state) unended refl failed
            (settle-Ends env raised rec q x.state unended))
        (λ refused d.
          (p, (sym (set-same x.batch i p here), (λ id k owes. owes), (λ f. refl)), inr refl))

  pub finish_job-Finished :
      (i : ℕ) (result : ToolResult) (e : Option Err) (p : Call Err) (x : Execution W Err)
      → get_elem? x.batch i ≡ some p
      → p.ended ≡ false
      → Finished i p x (finish_job env result e i p x)
  finish_job-Finished i result e p x here unended =
      by_if (Finished i p x) (is_some x.failed) (drain-Finished i result e p x here unended) (λ f.
        take_result-Finished i result e p x here unended (ground (arith, Option-cases x.failed, f)))

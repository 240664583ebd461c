-- ===== src/Batch/Paired/Whole.antt =====
-- run.go: the tool events of a whole batch: execute, toolBatch and approvedBatch.
use agentturn.Base.{
  ℕ, zero, suc, ◌+◌, ◌<◌, ◌≡◌, refl, sym, ap, ◌∙◌, subst, ◌⊎◌, inl, inr, true, false, not, List, [],
  ◌∷◌, map, Option, none, some, String, Result, ok, err, Nat-Comparable, arith, Result-cases, by_if,
  by_option, get_elem?, contains, All, nat_eq_iff, is_empty, get_or_else,
}
use agentturn.Items.{Item}
use agentturn.Loop.{fault, ToolEvent, ToolResult, State, Act, Halt}
use agentturn.Loop.Append.{pure, ◌>>=◌, bind_ok, bind_err}
use agentturn.Batch.{Call, BatchEnv}
use agentturn.Batch.Cut.{append_outputs, outputs, flush_if, fail_batch}
use agentturn.Batch.Preflight.{after_preflight, states_of}
use agentturn.Batch.Execute.{
  Execution, job_index, jobs, find_job, steps, begin, executed, execute, mark_all,
}
use agentturn.Batch.Run.{collect, answered_calls, deferred_calls_of}
use agentturn.Batch.Paired.{Recorded, IsQuiet, Keeps, Keeps-bind}
use agentturn.Batch.Paired.Settled.{Owes}
use agentturn.Batch.Paired.Begun.{owed}
use agentturn.Batch.Paired.Preflighted.{Loaded, IsReady}
use agentturn.Batch.Paired.Ended.{
  fail_batch-Clears, abort_batch-Clears, abort_batch-err, Keeps-append_finished,
  Keeps-append_outputs, Keeps-flush_if, outputs-quiet,
}
use agentturn.Batch.Paired.Live.{is_served, Fits}
use agentturn.Batch.Paired.Steps.{Running, steps-Running}

module _ {Err : Type 0} where
  pub job_index-below :
      (batch : List (Call Err)) (n k : ℕ) → k < n → contains (job_index n batch) k ≡ false
  unfolding contains job_index
  job_index-below [] n k b = refl
  job_index-below (p ∷ batch) n k b =
      by_if (λ index. contains index k ≡ false) p.settled
        (λ e. job_index-below batch (suc n) k (omega (arith, b)))
        (λ e. ground (arith, b, nat_eq_iff n k, job_index-below batch (suc n) k (omega (arith, b))))

  job_index-at :
      (batch : List (Call Err)) (n i : ℕ) (p : Call Err)
      → get_elem? batch i ≡ some p
      → contains (job_index n batch) (n + i) ≡ not p.settled
  unfolding contains job_index
  job_index-at [] n i p h = ground (arith, h)
  job_index-at (x ∷ batch) n zero p h =
      let same : x.settled ≡ p.settled = ap (λ o. (get_or_else o x).settled) h in
      by_if (λ index. contains index (n + 0) ≡ not p.settled) x.settled
        (λ e. ground (arith, e, same, job_index-below batch (suc n) (n + 0) (omega arith)))
        (λ e. ground (arith, e, same, nat_eq_iff n (n + 0)))
  job_index-at (x ∷ batch) n (suc i) p h =
      let later : contains (job_index (suc n) batch) (n + suc i) ≡ not p.settled =
        subst (λ k. contains (job_index (suc n) batch) k ≡ not p.settled) (omega arith)
          (job_index-at batch (suc n) i p h) in
      by_if (λ index. contains index (n + suc i) ≡ not p.settled) x.settled (λ e. later)
        (λ e. ground (arith, later, nat_eq_iff n (n + suc i)))

  owed-ended :
      (id : String) (batch : List (Call Err))
      → ((i : ℕ) (p : Call Err) → get_elem? batch i ≡ some p → p.ended ≡ true)
      → owed id (map some batch) ≡ 0
  owed-ended id [] over = refl
  owed-ended id (p ∷ batch) over =
      ground (arith, over 0 p refl, owed-ended id batch (λ i. over (suc i)))

  ready_at :
      (batch : List (Call Err)) (i : ℕ) (p : Call Err)
      → All (λ q. q.settled ≡ q.ended) batch
      → get_elem? batch i ≡ some p
      → p.settled ≡ p.ended
  ready_at [] i p all h = ground (arith, h)
  ready_at (x ∷ batch) zero p (r, all) h =
      subst (λ (q : Call Err). q.settled ≡ q.ended) (ap (λ o. get_or_else o x) h) r
  ready_at (x ∷ batch) (suc i) p (r, all) h = ready_at batch i p all h

module _ {W Err : Type 0} (env : BatchEnv W Err) (raised : W → List (ToolEvent Err))
    (rec : Recorded env raised) where
  -- The executor brings every job to its end once, and what runs meanwhile raises no tool event.
  abbrev pub Executes : Type 0
  Executes =
      (batch : List (Call Err)) (w : W)
      → (is_served (job_index 0 batch) (job_index 0 batch) (env.executor (jobs batch) w) ≡ true)
        × All (IsQuiet raised) (env.executor (jobs batch) w)

  executed-Owes :
      (x : Execution W Err) (s0 : State W) (id : String)
      → Running env raised rec s0 [] x
      → Owes env raised rec id 0 s0
      → Owes env raised rec id 0 (executed env x).1
  unfolding executed contains
  executed-Owes x s0 id (owing, fits) owed0 =
      let s : State W = record (x.state) { run = mark_all x.batch x.state.run } in
      let owes = owing id owed0 in
      by_option
        (λ (out : Result (Halt Err) (List (Call Err)) × State W). Owes env raised rec id 0 out.1)
        x.failed
        (λ fine.
          let over : owed id (map some x.batch) ≡ 0 = owed-ended id x.batch (λ i p here.
            elim ((fits i p here).1 refl) [
              | inl ended ↦ ended
              | inr failed ↦ ground (arith, fine, failed)
            ]) in
          let paired = subst (λ k. Owes env raised rec id k x.state) over owes in
          by_option
            (λ (out : Result (Halt Err) (List (Call Err)) × State W).
              Owes env raised rec id 0 out.1)
            (env.cancelled s.world) (λ e. paired)
            (λ c e. rw (Keeps-append_finished env raised rec (map some x.batch) s) paired))
        (λ e failed.
          fail_batch-Clears env raised rec (List (Call Err)) (map some x.batch) e s id 0
            (ground (arith, owes)))

  execute-Owes :
      (batch : List (Call Err)) (s0 s : State W) (id : String)
      → Executes
      → All (λ q. q.settled ≡ q.ended) batch
      → ((id : String)
          → Owes env raised rec id 0 s0
          → Owes env raised rec id (owed id (map some batch)) s)
      → Owes env raised rec id 0 s0
      → Owes env raised rec id 0 (execute env batch s).1
  unfolding execute
  execute-Owes batch s0 s id executes ready owes =
      let js = jobs batch in
      let (served, quiet) = executes batch s.world in
      let schedule = env.executor js s.world in
      let fits : Fits env raised rec (job_index 0 batch) (begin env batch s) = λ i p here.
        let live = job_index-at batch 0 i p here in
        (
          λ runs. ground (arith, runs, live, ready_at batch i p ready here),
          λ gone. inl (ground (arith, gone, live, ready_at batch i p ready here)),
        ) in
      executed-Owes (steps env (job_index 0 batch) (find_job batch js) schedule (begin env batch s))
        s0 id
        (steps-Running env raised rec (job_index 0 batch) (find_job batch js) s0 schedule
          (job_index 0 batch) (begin env batch s) served quiet (owes, fits))

  ready_states :
      (batch : List (Option (Call Err)))
      → All (IsReady env raised rec) batch
      → (map some (states_of batch) ≡ batch) × All (λ q. q.settled ≡ q.ended) (states_of batch)
  ready_states [] all = (refl, tt)
  ready_states (none ∷ batch) ((q, here, r), all) = ground (arith, here)
  ready_states (some p ∷ batch) ((q, here, r), all) =
      let (same, ready) = ready_states batch all in
      (
        ap (◌∷◌ (some p)) same,
        (subst (λ o. (get_or_else o q).settled ≡ (get_or_else o q).ended) (sym here) r, ready),
      )

  -- The batch is loaded, or it was cut off and every call has its end.
  abbrev pub Prepared : State W → Result (Halt Err) (List (Call Err)) × State W → Type 0
  Prepared s0 (r, s) =
      ((e : Halt Err) × (r ≡ err e)
        × ((id : String) → Owes env raised rec id 0 s0 → Owes env raised rec id 0 s))
      ⊎ ((batch : List (Call Err)) × (r ≡ ok batch)
          × All (λ q. q.settled ≡ q.ended) batch
          × ((id : String)
              → Owes env raised rec id 0 s0
              → Owes env raised rec id (owed id (map some batch)) s))

  pub after_preflight-Prepared :
      (s0 : State W) (out : Option Err × (List (Option (Call Err)) × State W))
      → Loaded env raised rec s0 out
      → Prepared s0 (after_preflight env out)
  unfolding after_preflight fail_batch
  after_preflight-Prepared s0 (some e, (batch, s)) (owes, ready) = inl (
    fault e,
    refl,
    λ id owed0.
        fail_batch-Clears env raised rec (List (Call Err)) batch e s id 0
          (ground (arith, owes id owed0)),
  )
  after_preflight-Prepared s0 (none, (batch, s)) (owes, ready) =
      by_option (Prepared s0) (env.cancelled s.world)
        (λ e.
          let (same, settled) = ready_states batch (ready refl) in
          inr (
            states_of batch,
            refl,
            settled,
            λ id owed0.
                subst (λ b. Owes env raised rec id (owed id b) s) (sym same) (owes id owed0),
          ))
        (λ c e.
          let (x, failed) = abort_batch-err env raised rec (List (Call Err)) batch c.cause s in
          inl (
            x,
            failed,
            λ id owed0.
                abort_batch-Clears env raised rec (List (Call Err)) batch c.cause s id 0
                  (ground (arith, owes id owed0)),
          ))

  Keeps-collect : (batch : List (Call Err)) → Keeps env raised rec (collect env batch)
  unfolding collect
  Keeps-collect batch s =
      let (items, s1) = outputs env (answered_calls batch) s in
      let waiting = deferred_calls_of batch in
      let result : Act W Err (List ToolResult × List Item) =
        pure (map (λ p. p.result) batch, waiting) in
      let rest : Act W Err (List ToolResult × List Item) =
        flush_if env (is_empty waiting) >>= λ _. result in
      Keeps-bind env raised rec (append_outputs env (map some batch) items) (λ _. rest)
        (Keeps-append_outputs env raised rec (map some batch) items)
        (λ u.
          Keeps-bind env raised rec (flush_if env (is_empty waiting)) (λ _. result)
            (Keeps-flush_if env raised rec (is_empty waiting)) (λ _ s. refl))
        s1
      ∙ outputs-quiet env raised rec (answered_calls batch) s

  -- What runs and collects a batch that preflight loaded.
  pub Prepared-Owes :
      (s0 : State W) (m : Act W Err (List (Call Err))) (s : State W) (id : String)
      → Executes
      → Prepared s0 (m s)
      → Owes env raised rec id 0 s0
      → Owes env raised rec id 0 ((m >>= λ batch. execute env batch >>= collect env) s).1
  Prepared-Owes s0 m s id executes (inl (e, failed, owes)) owed0 =
      subst (λ out. Owes env raised rec id 0 out.1)
        (sym (bind_err m (λ batch. execute env batch >>= collect env) s failed)) (owes id owed0)
  Prepared-Owes s0 m s id executes (inr (batch, loaded, ready, owes)) owed0 =
      let s1 = (m s).1 in
      let run = execute-Owes batch s0 s1 id executes ready owes owed0 in
      subst (λ out. Owes env raised rec id 0 out.1)
        (sym (bind_ok m (λ batch. execute env batch >>= collect env) s loaded))
        (elim (Result-cases (execute env batch s1).0) [
          | inl (b, e) ↦
              subst (λ out. Owes env raised rec id 0 out.1)
                (sym (bind_ok (execute env batch) (collect env) s1 e))
                (rw (Keeps-collect b (execute env batch s1).1) run)
          | inr (x, e) ↦
              subst (λ out. Owes env raised rec id 0 out.1)
                (sym (bind_err (execute env batch) (collect env) s1 e)) run
        ])

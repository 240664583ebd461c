-- ===== src/Batch/Paired/Preflighted.antt =====
-- run.go: the tool events of preflightAll's loop, and of approvedBatch's.
use agentturn.Base.{
  ℕ, suc, ◌+◌, ◌≡◌, refl, sym, ap, ◌∙◌, subst, false, List, [], ◌∷◌, ◌++◌, Option, none, some,
  String, Result, ok, err, String-Comparable, arith, All, All-snoc,
}
use agentturn.Items.{Item}
use agentturn.Chain.Decision.{ToolDecision}
use agentturn.Loop.{ToolEvent, State}
use agentturn.Batch.{Call, BatchEnv}
use agentturn.Batch.Said.{batch_call}
use agentturn.Batch.Settle.{prepare}
use agentturn.Batch.Preflight.{
  consult, launch, or_decision, preflight, preflight_from, on_batch_call, no_states,
}
use agentturn.Batch.Paired.{Recorded}
use agentturn.Batch.Paired.Settled.{owed_by, Owes}
use agentturn.Batch.Paired.Begun.{
  owed, owed-append, owed-no_states, IsQuietly, consult-IsQuietly, begin_call-Began,
}

module _ {W Err : Type 0} (env : BatchEnv W Err) (raised : W → List (ToolEvent Err))
    (rec : Recorded env raised) where
  -- A call that is there, and has ended or is to run.
  abbrev pub IsReady : Option (Call Err) → Type 0
  IsReady o = (q : Call Err) × (o ≡ some q) × (q.settled ≡ q.ended)

  -- The preflight of one call: what it is owed, and, without a failure, that it is ready.
  abbrev pub Tried : State W → Option Err × (Option (Call Err) × State W) → Type 0
  Tried s (e, (o, s')) =
      ((id : String) (k : ℕ)
        → Owes env raised rec id k s
        → Owes env raised rec id (k + owed id (o ∷ [])) s')
      × (e ≡ none → IsReady o)

  Owes-quiet :
      (id : String) (k : ℕ) (s s' : State W)
      → raised s'.world ≡ raised s.world
      → Owes env raised rec id k s
      → Owes env raised rec id k s'
  Owes-quiet id k s s' quiet owes = rw quiet owes

  pub launch-Tried :
      (d : Option ToolDecision) (p : Call Err) (s : State W)
      (out : Result Err (Option ToolDecision) × (Call Err × State W))
      → p.ended ≡ false
      → p.settled ≡ false
      → IsQuietly env raised rec p s out.1
      → Tried s (launch env d out)
  unfolding launch
  launch-Tried d p s (err x, (q, s1)) unended unsettled (alike, quiet) =
      (λ id k owes. ground (arith, Owes-quiet id k s s1 quiet owes), λ n. ground (arith, n))
  launch-Tried d p s (ok d', (q, s1)) unended unsettled ((same, settled, ended), quiet) =
      let (owes, ready) =
        begin_call-Began env raised rec (or_decision env d d') q s1 (ended ∙ unended)
          (settled ∙ unsettled) in
      (
        λ id k owed. ground (arith, owes id k (Owes-quiet id k s s1 quiet owed)),
        λ n. (_, refl, ready n),
      )

  preflight-Tried :
      (turn : ℕ) (call : Item) (batch : List Item) (i : ℕ) (s : State W)
      → Tried s (preflight env turn call batch i s)
  unfolding preflight batch_call prepare
  preflight-Tried turn call batch i s =
      let p = prepare env turn call none in
      let s0 = on_batch_call env call s in
      launch-Tried none p s (consult env env.before_tool_call p batch i s0) refl refl
        (consult-IsQuietly env raised rec env.before_tool_call p batch i s0 refl)

  owed-failed :
      (id : String) (done : List (Option (Call Err))) (o : Option (Call Err)) (calls : List Item)
      → owed id (done ++ o ∷ no_states calls) ≡ owed id done + owed id (o ∷ [])
  owed-failed id done none calls =
      owed-append id done (none ∷ no_states calls)
      ∙ ap (◌+◌ (owed id done)) (owed-no_states Err id calls)
  owed-failed id done (some p) calls =
      owed-append id done (some p ∷ no_states calls)
      ∙ ap (λ k. owed id done + (owed_by id p + k)) (owed-no_states Err id calls)

  -- The loop: what the batch is owed, and, without a failure, that every call is there and ready.
  abbrev pub Loaded : State W → Option Err × (List (Option (Call Err)) × State W) → Type 0
  Loaded s (e, (batch, s')) =
      ((id : String) → Owes env raised rec id 0 s → Owes env raised rec id (owed id batch) s')
      × (e ≡ none → All IsReady batch)

  -- One call of the loop, and the rest after it.
  pub Loaded-step :
      (s0 s : State W) (done : List (Option (Call Err))) (calls : List Item) (e : Option Err)
      (o : Option (Call Err)) (s1 : State W)
      (rest : Option Err × (List (Option (Call Err)) × State W))
      → Tried s (e, (o, s1))
      → ((id : String) → Owes env raised rec id 0 s0 → Owes env raised rec id (owed id done) s)
      → All IsReady done
      → (((id : String)
            → Owes env raised rec id 0 s0
            → Owes env raised rec id (owed id (done ++ o ∷ [])) s1)
          → All IsReady (done ++ o ∷ [])
          → Loaded s0 rest)
      → Loaded s0 (elim e [ some x ↦ (some x, (done ++ o ∷ no_states calls, s1)) | none ↦ rest ])
  Loaded-step s0 s done calls (some x) o s1 rest (owes, tried) before ready then_rest = (
    λ id owed0.
        subst (λ k. Owes env raised rec id k s1) (sym (owed-failed id done o calls))
          (owes id (owed id done) (before id owed0)),
    λ n. ground (arith, n),
  )
  Loaded-step s0 s done calls none o s1 rest (owes, tried) before ready then_rest =
      then_rest
        (λ id owed0.
          subst (λ k. Owes env raised rec id k s1) (sym (owed-append id done (o ∷ [])))
            (owes id (owed id done) (before id owed0)))
        (All-snoc IsReady done o ready (tried refl))

  pub preflight_from-Loaded :
      (turn : ℕ) (batch calls : List Item) (done : List (Option (Call Err))) (i : ℕ)
      (s0 s : State W)
      → ((id : String) → Owes env raised rec id 0 s0 → Owes env raised rec id (owed id done) s)
      → All IsReady done
      → Loaded s0 (preflight_from env turn batch done i calls s)
  unfolding preflight_from
  preflight_from-Loaded turn batch [] done i s0 s owes ready = (owes, λ n. ready)
  preflight_from-Loaded turn batch (call ∷ calls) done i s0 s owes ready =
      let (e, (o, s1)) = preflight env turn call batch i s in
      Loaded-step s0 s done calls e o s1
        (preflight_from env turn batch (done ++ o ∷ []) (suc i) calls s1)
        (preflight-Tried turn call batch i s) owes ready
        (preflight_from-Loaded turn batch calls (done ++ o ∷ []) (suc i) s0 s1)

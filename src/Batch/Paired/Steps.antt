-- ===== src/Batch/Paired/Steps.antt =====
-- run.go: the tool events of a schedule of the executor, event by event.
use agentturn.Base.{
  ℕ, ◌+◌, ◌≡◌, refl, sym, ap, inl, inr, true, false, ◌&&◌, List, [], ◌∷◌, Option, none, some,
  String, arith, Bool-cases, by_if, by_option, get_elem?, contains, is_some, set-same, All,
  Nat-Comparable, ◌==◌, nat_eq_iff,
}
use agentturn.Loop.{ToolEvent, ToolResult, tool_update, tool_dispatch, tool_event, Event, State}
use agentturn.Loop.Pending.{id_of, name_of}
use agentturn.Batch.{Call, BatchEnv, ExecEvent, ran, said, started, partial, final, tell, Spoken}
use agentturn.Batch.Said.{heard}
use agentturn.Batch.Execute.{
  Execution, take_update, dispatch, at_call, finish_job, fail_if, step, steps,
}
use agentturn.Batch.Paired.{Recorded, IsQuiet}
use agentturn.Batch.Paired.Settled.{owed_by, Owes, tell-raised}
use agentturn.Batch.Paired.Live.{
  is_served, remove, contains-remove, Moved, Fits, Owing, Owing-move, Fits-final, Fits-other,
}
use agentturn.Batch.Paired.Executed.{finish_job-Finished}

module _ {W Err : Type 0} (env : BatchEnv W Err) (raised : W → List (ToolEvent Err))
    (rec : Recorded env raised) where
  -- What the calls are owed, and which of them still run.
  abbrev pub Running : State W → List ℕ → Execution W Err → Type 0
  Running s0 live x = Owing env raised rec s0 x × Fits env raised rec live x

  at_call-Running :
      (o : Option ℕ) (f : ℕ → Call Err → Execution W Err → Execution W Err) (s0 : State W)
      (live : List ℕ) (x : Execution W Err)
      → ((i : ℕ) (p : Call Err)
          → get_elem? x.batch i ≡ some p
          → (q : Call Err) × Moved env raised rec i p q x (f i p x) × (q.ended ≡ p.ended))
      → Running s0 live x
      → Running s0 live (at_call env o f x)
  at_call-Running none f s0 live x moves running = running
  at_call-Running (some i) f s0 live x moves (owing, fits) =
      by_option (Running s0 live) (get_elem? x.batch i) (λ e. (owing, fits))
        (λ p here.
          let (q, moved, same) = moves i p here in
          (
            Owing-move env raised rec i p q s0 x (f i p x) here moved owing,
            Fits-other env raised rec i p q live x (f i p x) here moved same fits,
          ))

  dispatch-moves :
      (x : Execution W Err) (i : ℕ) (p : Call Err)
      → get_elem? x.batch i ≡ some p
      → (q : Call Err) × Moved env raised rec i p q x (dispatch env i p x) × (q.ended ≡ p.ended)
  unfolding dispatch
  dispatch-moves x i p here =
      let ev : Event Err =
        tool_event (tool_dispatch p.turn (id_of p.call) (name_of p.call) p.key) in
      (
        _,
        (refl, λ id k owes. ground (arith, owes, tell-raised env raised rec ev x.state), λ f. f),
        refl,
      )

  fail_if-Moved :
      (i : ℕ) (p : Call Err) (e : Option Err) (x : Execution W Err) (s : State W)
      → get_elem? x.batch i ≡ some p
      → ((id : String) (k : ℕ) → Owes env raised rec id k x.state → Owes env raised rec id k s)
      → Moved env raised rec i p p x (fail_if env e (record x { state = s }))
  fail_if-Moved i p none x s here quiet =
      (sym (set-same x.batch i p here), (λ id k. quiet id (k + owed_by id p)), λ f. f)
  fail_if-Moved i p (some e) x s here quiet =
      (sym (set-same x.batch i p here), (λ id k. quiet id (k + owed_by id p)), λ f. refl)

  take_update-moves :
      (result : ToolResult) (x : Execution W Err) (i : ℕ) (p : Call Err)
      → get_elem? x.batch i ≡ some p
      → (q : Call Err) × Moved env raised rec i p q x (take_update env result p x)
        × (q.ended ≡ p.ended)
  unfolding take_update
  take_update-moves result x i p here =
      let ev : Event Err = tool_event (tool_update p.turn (id_of p.call) (name_of p.call) result) in
      let (e, s) = tell env ev x.state in
      by_if
        (λ (x' : Execution W Err).
          (q : Call Err) × Moved env raised rec i p q x x' × (q.ended ≡ p.ended))
        (is_some x.failed)
        (λ f. (p, (sym (set-same x.batch i p here), (λ id k owes. owes), (λ f. f)), refl))
        (λ f. (
          p,
          fail_if-Moved i p e x s here
              (λ id k owes. ground (arith, owes, tell-raised env raised rec ev x.state)),
          refl,
        ))

  final-Running :
      (i : ℕ) (result : ToolResult) (e : Option Err) (s0 : State W) (live : List ℕ)
      (x : Execution W Err)
      → contains live i ≡ true
      → Running s0 live x
      → Running s0 (remove i live) (at_call env (some i) (finish_job env result e) x)
  final-Running i result e s0 live x lives (owing, fits) =
      by_option (Running s0 (remove i live)) (get_elem? x.batch i)
        (λ none_here. (
          owing,
          λ k w there.
              let (open_end, closed) = fits k w there in
              let other : (k == i) ≡ false = elim (Bool-cases (k == i)) [
                | inl same ↦ ground (
                  arith,
                  ap (λ j. get_elem? x.batch j) ((nat_eq_iff k i).0 same),
                  none_here,
                  there,
                )
                | inr o ↦ o
              ] in
              (
                λ l. open_end (ground (arith, l, other, contains-remove i k live)),
                λ l. closed (ground (arith, l, other, contains-remove i k live)),
              ),
        ))
        (λ p here.
          let (q, moved, over) =
            finish_job-Finished env raised rec i result e p x here ((fits i p here).0 lives) in
          let x' = finish_job env result e i p x in
          (
            Owing-move env raised rec i p q s0 x x' here moved owing,
            Fits-final env raised rec i p q live x x' here moved over fits,
          ))

  quiet-Running :
      (s0 s : State W) (live : List ℕ) (x : Execution W Err)
      → raised s.world ≡ raised x.state.world
      → Running s0 live x
      → Running s0 live (record x { state = s })
  quiet-Running s0 s live x quiet (owing, fits) = (λ id owed0. rw quiet (owing id owed0), fits)

  heard-quiet :
      (sp : List Spoken) (s : State W) → raised (heard (sp, s.world) s).world ≡ raised s.world
  unfolding heard
  heard-quiet sp s = refl

  served_final :
      (o : Option ℕ) (index live : List ℕ) (schedule : List (ExecEvent W Err)) (x : Execution W Err)
      (s0 : State W) (result : ToolResult) (e : Option Err)
      → elim o [
        | none ↦ is_served index live schedule
        | some i ↦ contains live i && is_served index (remove i live) schedule
      ]
        ≡ true
      → Running s0 live x
      → (live' : List ℕ) × (is_served index live' schedule ≡ true)
        × Running s0 live' (at_call env o (finish_job env result e) x)
  served_final none index live schedule x s0 result e served running = (live, served, running)
  served_final (some i) index live schedule x s0 result e served running = (
    remove i live,
    ground (arith, served),
    final-Running i result e s0 live x (ground (arith, served)) running,
  )

  pub steps-Running :
      (index : List ℕ) (find : ℕ → Option ℕ) (s0 : State W) (schedule : List (ExecEvent W Err))
      (live : List ℕ) (x : Execution W Err)
      → is_served index live schedule ≡ true
      → All (IsQuiet raised) schedule
      → Running s0 live x
      → Running s0 [] (steps env index find schedule x)
  unfolding steps is_served step
  steps-Running index find s0 [] [] x served quiet running = running
  steps-Running index find s0 [] (l ∷ live) x served quiet running = ground (arith, served)
  steps-Running index find s0 (ran f ∷ schedule) live x served (q, quiet) running =
      let s : State W = record (x.state) { world = f x.state.world } in
      steps-Running index find s0 schedule live (record x { state = s }) served quiet
        (quiet-Running s0 s live x (q x.state.world) running)
  steps-Running index find s0 (said sp ∷ schedule) live x served (q, quiet) running =
      let s = heard (sp ∷ [], x.state.world) x.state in
      steps-Running index find s0 schedule live (record x { state = s }) served quiet
        (quiet-Running s0 s live x (heard-quiet (sp ∷ []) x.state) running)
  steps-Running index find s0 (started j ∷ schedule) live x served (q, quiet) running =
      steps-Running index find s0 schedule live (at_call env (find j) (dispatch env) x) served quiet
        (at_call-Running (find j) (dispatch env) s0 live x (dispatch-moves x) running)
  steps-Running index find s0 (partial j result ∷ schedule) live x served (q, quiet) running =
      steps-Running index find s0 schedule live _ served quiet (
        at_call-Running (get_elem? index j) (λ i p. take_update env result p) s0 live x
          (take_update-moves result x) running)
  steps-Running index find s0 (final j result e ∷ schedule) live x served (q, quiet) running =
      let (live', served', running') =
        served_final (get_elem? index j) index live schedule x s0 result e served running in
      steps-Running index find s0 schedule live'
        (at_call env (get_elem? index j) (finish_job env result e) x) served' quiet running'

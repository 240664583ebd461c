-- ===== src/Loop/Run/Budget.antt =====
-- run.go: the budget of turns bounds a whole run.
use agentturn.Base.{◌<◌, some, ok, err, ◌≡◌, refl, sym, subst, arith, Result-cases, inl, inr}
use agentturn.Loop.{Halt, State}
use agentturn.Loop.Turns.{Env, turns}
use agentturn.Loop.Turns.Bound.{Within, turns-Within}
use agentturn.Loop.Run.{Begin, opening, loop, run, finish, begin_state}

module _ {W Err Response : Type 0} (env : Env W Err Response) where
  pub loop-Within :
      (b : Begin) (s : State W)
      → 0 < env.max_turn_count
      → Within env.max_turn_count (loop env env.max_turn_count b s)
  unfolding loop
  loop-Within b s h = elim (Result-cases (opening env b s).0) [
    | inl (_, o) ↦
        subst (Within env.max_turn_count) (sym (opened o))
          (turns-Within env env.max_turn_count 0 (opening env b s).1 h (omega arith))
    | inr (x, o) ↦ (err x, (opening env b s).1, 0, unopened o, omega arith)
  ]
    where
      opened :
          {u : Unit {0}}
          → (opening env b s).0 ≡ ok u
          → loop env env.max_turn_count b s ≡ turns env env.max_turn_count 0 (opening env b s).1
      opened o = rw (o, loop) refl

      unopened :
          {x : Halt Err}
          → (opening env b s).0 ≡ err x
          → loop env env.max_turn_count b s ≡ some (err x, (opening env b s).1, 0)
      unopened o = rw (o, loop) refl

-- With a budget of turns set, a run ends, whatever the model, the tools, the hooks, the queues and
-- the subscribers do, and it has then done no more turns than its budget: fuel for the budget's
-- turns is enough.
pub run-Within :
    {W Err Response : Type 0} (env : Env W Err Response) (b : Begin) (s : State W)
    → 0 < env.max_turn_count
    → Within env.max_turn_count (run env env.max_turn_count b s)
unfolding run
run-Within env b s h =
    let (r, s', n, e, k) = loop-Within env b (begin_state env s) h in
    ((finish env r s').0, (finish env r s').1, n, rw (e, run) refl, k)

-- ===== src/Loop/Turns/Bound.antt =====
-- run.go: the budget of turns bounds the loop.
use agentturn.Base.{
  ℕ, zero, suc, ◌+◌, ◌≤◌, ◌<◌, Bool, true, false, ◌&&◌, List, Option, none, some, ok, err, ltb, leb,
  is_empty, ◌≡◌, refl, sym, subst, ap, ◌∙◌, arith, Bool-cases, Option-cases, Result-cases, inl, inr,
  ◌≢◌,
}
use agentturn.Items.{Item}
use agentturn.Loop.{aborted, no_cause, turn_end, Halt, stop, State, Act}
use agentturn.Loop.Append.{◌>>=◌, emit, bind_ok, bind_err}
use agentturn.Loop.Turns.{
  Env, Next, again, finished, spend, ending, after_turn, one_turn, turns, run_before_turn,
  check_tools, ends_pending, run_should_stop, ends_terminated,
}

-- An action that never asks for another turn.
abbrev Ends : {W Err : Type 0} → Act W Err Next → Type 0
Ends {W} m = (s : State W) → (m s).0 ≢ ok again

-- The turns came to an end within the budget.
abbrev pub Within : {A W : Type 0} → ℕ → Option (A × State W × ℕ) → Type 0
Within {A} {W} budget r = (a : A) × (s : State W) × (n : ℕ) × (r ≡ some (a, s, n)) × (n ≤ budget)

module _ {W Err : Type 0} where
  bind-Ends :
      {A : Type 0} (m : Act W Err A) (f : A → Act W Err Next)
      → ((a : A) → Ends (f a))
      → Ends (m >>= f)
  bind-Ends m f h s e = elim (Result-cases (m s).0) [
    | inl (a, o) ↦ h a (m s).1 (sym (ap (λ r. r.0) (bind_ok m f s o)) ∙ e)
    | inr (x, o) ↦ absurd (ground (arith, ap (λ r. r.0) (bind_err m f s o)))
  ]

module _ {W Err Response : Type 0} (env : Env W Err Response) where
  spend-Ends : (calls : List Item) (waiting : Bool) → Ends (spend env calls waiting)
  spend-Ends calls waiting s e = ground arith

  after_turn-Ends :
      (turn : ℕ) (calls : List Item)
      → 0 < env.max_turn_count
      → env.max_turn_count ≤ turn
      → Ends (after_turn env turn calls)
  unfolding after_turn
  after_turn-Ends turn calls h k =
      rw (budget) (bind-Ends (ending env) (spend env calls) (spend-Ends calls))
    where
      budget : (ltb 0 env.max_turn_count && leb env.max_turn_count turn) ≡ true
      budget = ground arith

  one_turn-Ends :
      (turn : ℕ) → 0 < env.max_turn_count → env.max_turn_count ≤ turn → Ends (one_turn env turn)
  unfolding one_turn
  one_turn-Ends turn h k = bind-Ends (run_before_turn env turn) checked λ _.
      bind-Ends (check_tools env) modelled λ _. bind-Ends (env.model_turn turn) batched λ resp.
        bind-Ends (env.tool_batch turn (env.function_calls resp)) (ended resp) λ r.
          bind-Ends (emit env.send (turn_end turn)) (waited resp r) λ _.
            bind-Ends (ends_pending env r.1) (hooked resp r) λ _.
              bind-Ends (run_should_stop env turn resp r.0 (is_empty (env.function_calls resp)))
                (settled resp r)
                λ _.
                  bind-Ends (ends_terminated env r.0) (last resp)
                    λ _. after_turn-Ends turn (env.function_calls resp) h k
    where
      last : Response → Unit {0} → Act W Err Next
      last resp _ = after_turn env turn (env.function_calls resp)

      settled : Response → List Bool × List Item → Unit {0} → Act W Err Next
      settled resp r _ = ends_terminated env r.0 >>= last resp

      hooked : Response → List Bool × List Item → Unit {0} → Act W Err Next
      hooked resp r _ =
          run_should_stop env turn resp r.0 (is_empty (env.function_calls resp)) >>= settled resp r

      waited : Response → List Bool × List Item → Unit {0} → Act W Err Next
      waited resp r _ = ends_pending env r.1 >>= hooked resp r

      ended : Response → List Bool × List Item → Act W Err Next
      ended resp r = emit env.send (turn_end turn) >>= waited resp r

      batched : Response → Act W Err Next
      batched resp = env.tool_batch turn (env.function_calls resp) >>= ended resp

      modelled : Unit {0} → Act W Err Next
      modelled _ = env.model_turn turn >>= batched

      checked : Unit {0} → Act W Err Next
      checked _ = check_tools env >>= modelled

  module _ (fuel turn : ℕ) (s : State W) where
    pub turns_cancelled :
        {cause : Err}
        → env.cancelled s.world ≡ some cause
        → turns env (suc fuel) turn s
          ≡ some (err (stop aborted no_cause (some cause) false), s, turn)
    unfolding turns
    turns_cancelled e = rw (e, turns) refl

    module _ (alive : env.cancelled s.world ≡ none) where
      pub turns_halted :
          {x : Halt Err}
          → (one_turn env (turn + 1) s).0 ≡ err x
          → turns env (suc fuel) turn s ≡ some (err x, (one_turn env (turn + 1) s).1, turn + 1)
      unfolding turns
      turns_halted o = rw (alive, o, turns) refl

      pub turns_done :
          (one_turn env (turn + 1) s).0 ≡ ok finished
          → turns env (suc fuel) turn s ≡ some (ok tt, (one_turn env (turn + 1) s).1, turn + 1)
      unfolding turns
      turns_done o = rw (alive, o, turns) refl

      pub turns_again :
          (one_turn env (turn + 1) s).0 ≡ ok again
          → turns env (suc fuel) turn s ≡ turns env fuel (turn + 1) (one_turn env (turn + 1) s).1
      unfolding turns
      turns_again o = rw (alive, o, turns) refl

  pub turns-Within :
      (fuel turn : ℕ) (s : State W)
      → turn < env.max_turn_count
      → env.max_turn_count ≤ fuel + turn
      → Within env.max_turn_count (turns env fuel turn s)
  turns-Within zero turn s h k = absurd (omega arith)
  turns-Within (suc fuel) turn s h k = elim (Option-cases (env.cancelled s.world)) [
    | inr (cause, e) ↦ (
      err (stop aborted no_cause (some cause) false),
      s,
      turn,
      turns_cancelled fuel turn s e,
      omega arith,
    )
    | inl e ↦ elim (Result-cases (one_turn env (turn + 1) s).0) [
      | inr (x, o) ↦ (
        err x,
        (one_turn env (turn + 1) s).1,
        turn + 1,
        turns_halted fuel turn s e o,
        omega arith,
      )
      | inl (finished, o) ↦
          (ok tt, (one_turn env (turn + 1) s).1, turn + 1, turns_done fuel turn s e o, omega arith)
      | inl (again, o) ↦ elim (Bool-cases (ltb (turn + 1) env.max_turn_count)) [
        | inl below ↦ subst (Within env.max_turn_count) (sym (turns_again fuel turn s e o)) (
            turns-Within fuel (turn + 1) (one_turn env (turn + 1) s).1 (ground arith) (omega arith))
        | inr spent ↦ absurd (one_turn-Ends (turn + 1) (omega arith) (ground arith) s o)
      ]
    ]
  ]

-- ===== src/Loop/Run/Kept.antt =====
-- run.go: the steps of a run, its turns and its end keep what every call out of the loop keeps.
use agentturn.Loop.Run.Invariant.{
  Preserves, Preserves-bind, Steady, emit-Preserves, append_with-Preserves,
  append_arrived-Preserves,
}
use agentturn.Base.{
  ℕ, zero, suc, ◌+◌, ◌≡◌, refl, Bool, true, false, not, ◌&&◌, ◌||◌, List, [], ◌∷◌, ◌++◌, Option,
  none, some, Result, ok, String-Comparable, if◌then◌else◌, ltb, leb, is_empty, by_if, by_option,
  by_result,
}
use agentturn.Items.{Item, zero_trigger}
use agentturn.Loop.{
  hook, TurnInput, turn_end, State, Act, Halt, Reason, StopCause, stop_hook, input_required,
  no_cause, stopped,
}
use agentturn.Loop.Append.{emit, append_items, append_arrived, pure, ◌>>=◌, ◌>>◌}
use agentturn.Loop.Pending.{terminates}
use agentturn.Loop.Turns.{
  Env, Next, again, finished, spend, ending, after_turn, one_turn, turns, run_before_turn,
  check_tools, ends_pending, run_should_stop, ends_terminated, use_queue, drain_last, stop_with,
  hook_error,
}

module _ {W Err Response : Type 0} (env : Env W Err Response) (P : W → Type 0)
    (steady : Steady env P) where
  pub queue-Preserves :
      (q : Option (W → List TurnInput × W))
      → ((f : W → List TurnInput × W) → q ≡ some f → (w : W) → P w → P (f w).1)
      → Preserves P (use_queue env q)
  queue-Preserves none keeps s p = p
  queue-Preserves (some f) keeps s p = keeps f refl s.world p

  pub ending-Preserves : Preserves P (ending env)
  ending-Preserves s p =
      by_option (λ (out : Result (Halt Err) Bool × State W). P out.1.world) env.closing (λ e. p)
        (λ f e. steady.closed f e s.world p)

  drain_last-Preserves : Preserves P (drain_last env)
  drain_last-Preserves s p =
      by_option (λ (m : Act W Err (List TurnInput)). P (m s).1.world) env.last
        (λ e.
          Preserves-bind P (use_queue env env.steer)
            (λ a. use_queue env env.follow_up >>= λ b. pure (a ++ b))
            (queue-Preserves env.steer steady.steered)
            (λ a.
              Preserves-bind P (use_queue env env.follow_up) (λ b. pure (a ++ b))
                (queue-Preserves env.follow_up steady.followed) (λ b t p'. p'))
            s p)
        (λ q e. steady.drained q e s.world p)

  hook_error-Preserves : (A : Type 0) (e : Err) → Preserves P (hook_error env {A = A} e)
  hook_error-Preserves A e s p =
      by_if (λ (m : Act W Err A). P (m s).1.world) (env.is_guard e) (λ b. p) (λ b. p)

  run_before_turn-Preserves : (turn : ℕ) → Preserves P (run_before_turn env turn)
  unfolding run_before_turn append_items
  run_before_turn-Preserves turn s p =
      by_option (λ (out : Result (Halt Err) (Unit {0}) × State W). P out.1.world) env.before_turn
        (λ e. p)
        (λ f e.
          let p' = steady.before f e turn s.run s.world p in
          let s' : State W = record s { world = (f turn s.run s.world).1 } in
          by_result (λ (out : Result (Halt Err) (Unit {0}) × State W). P out.1.world)
            (f turn s.run s.world).0
            (λ items b.
              append_with-Preserves env P steady items hook zero_trigger zero_trigger s' p')
            (λ x b. hook_error-Preserves (Unit {0}) x s' p'))

  check_tools-Preserves : Preserves P (check_tools env)
  unfolding check_tools
  check_tools-Preserves s p =
      let p' = steady.checked s.world p in
      by_option (λ (out : Result (Halt Err) (Unit {0}) × State W). P out.1.world)
        (env.tools_refused s.world).0 (λ e. p') (λ x e. p')

  stop_with-Preserves :
      (A : Type 0) (reason : Reason) (cause : StopCause) (e : Option Err)
      → Preserves P (ending env >>= λ _. stop_with env {A = A} reason cause e)
  stop_with-Preserves A reason cause e =
      Preserves-bind P (ending env) (λ _. stop_with env {A = A} reason cause e) ending-Preserves
        (λ b s p. p)

  told-Preserves :
      (told : Bool) (s : State W)
      → P s.world
      → P
          (elim told as (λ x. Result (Halt Err) (Unit {0}) × State W) [
            | false ↦ (ok tt, s)
            | true ↦ (ending env >>= λ _. stop_with env stopped stop_hook none) s
          ]).1.world
  told-Preserves false s p = p
  told-Preserves true s p = stop_with-Preserves (Unit {0}) stopped stop_hook none s p

  run_should_stop-Preserves :
      (turn : ℕ) (resp : Response) (results : List Bool) (final : Bool)
      → Preserves P (run_should_stop env turn resp results final)
  unfolding run_should_stop
  run_should_stop-Preserves turn resp results final s p =
      by_option (λ (out : Result (Halt Err) (Unit {0}) × State W). P out.1.world) env.should_stop
        (λ e. p)
        (λ f e.
          let p' = steady.asked f e turn resp results final s.run s.world p in
          let s' : State W = record s { world = (f turn resp results final s.run s.world).1 } in
          by_result (λ (out : Result (Halt Err) (Unit {0}) × State W). P out.1.world)
            (f turn resp results final s.run s.world).0 (λ b h. told-Preserves b s' p')
            (λ x b.
              Preserves-bind P (ending env) (λ _. hook_error env x) ending-Preserves
                (λ _. hook_error-Preserves (Unit {0}) x) s' p'))

  pub ends_pending-Preserves : (waiting : List Item) → Preserves P (ends_pending env waiting)
  ends_pending-Preserves [] s p = p
  ends_pending-Preserves (i ∷ waiting) s p =
      stop_with-Preserves (Unit {0}) input_required no_cause none s p

  ends_terminated-Preserves : (results : List Bool) → Preserves P (ends_terminated env results)
  ends_terminated-Preserves results s p =
      by_option (λ (m : Act W Err (Unit {0})). P (m s).1.world) (terminates results) (λ e. p)
        (λ cause e. stop_with-Preserves (Unit {0}) stopped cause none s p)

  arrive-Preserves :
      {A : Type 0} (inputs : List TurnInput) (a : A)
      → Preserves P (append_arrived env.send inputs >> pure a)
  arrive-Preserves inputs a =
      Preserves-bind P (append_arrived env.send inputs) (λ _. pure a)
        (append_arrived-Preserves env P steady inputs) (λ _ s p. p)

  after_turn-Preserves : (turn : ℕ) (calls : List Item) → Preserves P (after_turn env turn calls)
  unfolding after_turn
  after_turn-Preserves turn calls =
      by_if (Preserves P) (ltb 0 env.max_turn_count && leb env.max_turn_count turn)
        (λ _. Preserves-bind P (ending env) (spend env calls) ending-Preserves (λ waiting s p.
          by_if (λ (m : Act W Err Next). P (m s).1.world) (not (is_empty calls) || waiting) (λ e. p)
            (λ e. p)))
        (λ _.
          by_if (Preserves P) (is_empty calls)
            (λ _.
              Preserves-bind P (drain_last env)
                (λ inputs.
                  if is_empty inputs
                  then pure finished
                  else append_arrived env.send inputs >> pure again)
                drain_last-Preserves
                (λ inputs.
                  by_if (Preserves P) (is_empty inputs) (λ e s p. p)
                    (λ e. arrive-Preserves inputs again)))
            (λ _.
              Preserves-bind P (use_queue env env.steer)
                (λ inputs. append_arrived env.send inputs >> pure again)
                (queue-Preserves env.steer steady.steered)
                (λ inputs. arrive-Preserves inputs again)))

  pub ended-Preserves :
      {A B : Type 0} (k : A → Act W Err B)
      → ((a : A) → Preserves P (k a))
      → (m : Act W Err A) → Preserves P m
      → Preserves P (m >>= k)
  ended-Preserves k keeps m kept = Preserves-bind P m k kept keeps

  pub one_turn-Preserves : (turn : ℕ) → Preserves P (one_turn env turn)
  unfolding one_turn
  one_turn-Preserves turn =
      ended-Preserves (λ _. check_tools env >>= modelled)
        (λ _.
          ended-Preserves modelled
            (λ _.
              ended-Preserves batched
                (λ resp.
                  ended-Preserves (ended resp)
                    (λ r.
                      ended-Preserves (waited resp r)
                        (λ _.
                          ended-Preserves (hooked resp r)
                            (λ _.
                              ended-Preserves (settled resp r)
                                (λ _.
                                  ended-Preserves (last resp)
                                    (λ _. after_turn-Preserves turn (env.function_calls resp))
                                    (ends_terminated env r.0) (ends_terminated-Preserves r.0))
                                (run_should_stop env turn resp r.0
                                  (is_empty (env.function_calls resp)))
                                (run_should_stop-Preserves turn resp r.0
                                  (is_empty (env.function_calls resp))))
                            (ends_pending env r.1) (ends_pending-Preserves r.1))
                        (emit env.send (turn_end turn))
                        (emit-Preserves env P steady (turn_end turn) refl))
                    (env.tool_batch turn (env.function_calls resp))
                    (steady.batched turn (env.function_calls resp)))
                (env.model_turn turn) (steady.modelled turn))
            (check_tools env) check_tools-Preserves)
        (run_before_turn env turn) (run_before_turn-Preserves turn)
    where
      last : Response → Unit {0} → Act W Err Next
      last resp _ = after_turn env turn (env.function_calls resp)

      settled : Response → List Bool × List Item → Unit {0} → Act W Err Next
      settled resp r _ = ends_terminated env r.0 >>= last resp

      hooked : Response → List Bool × List Item → Unit {0} → Act W Err Next
      hooked resp r _ =
          run_should_stop env turn resp r.0 (is_empty (env.function_calls resp)) >>= settled resp r

      waited : Response → List Bool × List Item → Unit {0} → Act W Err Next
      waited resp r _ = ends_pending env r.1 >>= hooked resp r

      ended : Response → List Bool × List Item → Act W Err Next
      ended resp r = emit env.send (turn_end turn) >>= waited resp r

      batched : Response → Act W Err Next
      batched resp = env.tool_batch turn (env.function_calls resp) >>= ended resp

      modelled : Unit {0} → Act W Err Next
      modelled _ = env.model_turn turn >>= batched

  -- Where the turns ended, the world is as `P` says.
  abbrev pub Ended : Option (Result (Halt Err) (Unit {0}) × State W × ℕ) → Type 0
  Ended none = Unit
  Ended (some (r, s, n)) = P s.world

  next-Ended :
      (fuel turn : ℕ) (next : Next) (s : State W)
      → ((s' : State W) → P s'.world → Ended (turns env fuel turn s'))
      → P s.world
      → Ended (elim next as (λ x. Option (Result (Halt Err) (Unit {0}) × State W × ℕ)) [
        | again ↦ turns env fuel turn s
        | finished ↦ some (ok tt, s, turn)
      ])
  next-Ended fuel turn again s more p = more s p
  next-Ended fuel turn finished s more p = p

  pub turns-Ended : (fuel turn : ℕ) (s : State W) → P s.world → Ended (turns env fuel turn s)
  unfolding turns
  turns-Ended zero turn s p = tt
  turns-Ended (suc fuel) turn s p =
      let p' = one_turn-Preserves (turn + 1) s p in
      let s' = (one_turn env (turn + 1) s).1 in
      by_option Ended (env.cancelled s.world)
        (λ e.
          by_result Ended (one_turn env (turn + 1) s).0
            (λ next b. next-Ended fuel (turn + 1) next s' (turns-Ended fuel (turn + 1)) p')
            (λ x b. p'))
        (λ cause e. p)

-- ===== src/Loop/Run/Whole.antt =====
-- run.go: what loop does before its turns, how a run ends, and the run as a whole keep what every
-- call out of the loop keeps.
use agentturn.Loop.Run.Budget.{loop-Within}
use agentturn.Loop.Run.Kept.{
  queue-Preserves, ending-Preserves, ended-Preserves, ends_pending-Preserves, Ended, turns-Ended,
}
use agentturn.Loop.Run.Invariant.{
  Preserves, Steady, emit-Preserves, append_with-Preserves, append_arrived-Preserves,
  report_notes-Preserves, flush_notes-Preserves,
}
use agentturn.Base.{
  ℕ, ◌<◌, ◌≤◌, ◌≡◌, refl, subst, Bool, not, ◌||◌, List, [], ◌∷◌, none, some, String, Result,
  String-Comparable, if◌then◌else◌, by_if, by_option, by_result,
}
use agentturn.Items.{Item, Input, zero_trigger, Trigger, output_id_of}
use agentturn.Items.Marks.{base}
use agentturn.Loop.{
  InputMode, prompt, resume, Event, run_start, run_end, RunEnd, State, Act, Halt, stopped, refused,
}
use agentturn.Loop.Append.{emit, append_with, append_arrived, ◌>>=◌, ◌>>◌}
use agentturn.Loop.Notes.{report_notes, flush_notes}
use agentturn.Loop.Pending.{source, terminates}
use agentturn.Loop.Turns.{Env, ending, ends_pending, use_queue, stop_with}
use agentturn.Loop.Run.{
  AnswerNote, Begin, answer_one, answers, start_reported, run_approved, unless, approved_results,
  opening, hold_answer, grew, loop, finish, run, begin_state,
}

module _ {W Err Response : Type 0} (env : Env W Err Response) (P : W → Type 0)
    (steady : Steady env P) where
  answer_one-Preserves :
      (notes : List AnswerNote) (trigger on_answers : Trigger) (i : Input) (id : String)
      → Preserves P (answer_one env notes trigger on_answers i id)
  unfolding answer_one
  answer_one-Preserves notes trigger on_answers i id s p =
      let s1 : State W = record s { run = hold_answer env notes trigger id s.run } in
      let p2 = report_notes-Preserves env P steady s1 p in
      let s2 = (report_notes env.send s1).1 in
      let p3 = append_with-Preserves env P steady (i ∷ []) resume zero_trigger on_answers s2 p2 in
      let s3 = (append_with env.send (i ∷ []) resume zero_trigger on_answers s2).1 in
      by_result (λ (out : Result (Halt Err) (Unit {0}) × State W). P out.1.world)
        (report_notes env.send s1).0
        (λ u e. by_if (λ (t : State W). P t.world) (grew env s2 s3) (λ b. p3) (λ b. p3)) (λ x e. p2)

  answers-Preserves :
      (notes : List AnswerNote) (trigger on_answers : Trigger) (prompts : List Input)
      → Preserves P (answers env notes trigger on_answers prompts)
  unfolding answers
  answers-Preserves notes trigger on_answers [] s p = p
  answers-Preserves notes trigger on_answers (i ∷ prompts) s p =
      by_option (λ (out : Result (Halt Err) (List Input) × State W). P out.1.world)
        (output_id_of (base i)) (λ e. p)
        (λ id e.
          let p' = answer_one-Preserves notes trigger on_answers i id s p in
          by_result (λ (out : Result (Halt Err) (List Input) × State W). P out.1.world)
            (answer_one env notes trigger on_answers i id s).0
            (λ u b.
              answers-Preserves notes trigger on_answers prompts
                (answer_one env notes trigger on_answers i id s).1 p')
            (λ x b. p'))

  run_approved-Preserves : (refusing : Bool) → Preserves P (run_approved env refusing)
  unfolding run_approved
  run_approved-Preserves refusing =
      ended-Preserves env P steady {A = List Bool × List Item}
        (λ r. ends_pending env r.1 >>= λ _. approved_results env refusing r.0 >>= λ _.
          use_queue env env.steer >>= append_arrived env.send)
        (λ r.
          ended-Preserves env P steady
            (λ _. approved_results env refusing r.0 >>= λ _.
              use_queue env env.steer >>= append_arrived env.send)
            (λ _.
              ended-Preserves env P steady
                (λ _. use_queue env env.steer >>= append_arrived env.send) (λ _. queued)
                (approved_results env refusing r.0) (results r.0))
            (ends_pending env r.1) (ends_pending-Preserves env P steady r.1))
        env.approved_batch steady.approved
    where
      queued : Preserves P (use_queue env env.steer >>= append_arrived env.send)
      queued =
          ended-Preserves env P steady (append_arrived env.send)
            (append_arrived-Preserves env P steady) (use_queue env env.steer)
            (queue-Preserves env P steady env.steer steady.steered)

      results : (r : List Bool) → Preserves P (approved_results env refusing r)
      results r s p =
          by_if (λ (m : Act W Err (Unit {0})). P (m s).1.world) refusing (λ e. p)
            (λ e.
              by_option (λ (m : Act W Err (Unit {0})). P (m s).1.world) (terminates r) (λ f. p)
                (λ cause f. p))

  unless-Preserves :
      (b : Bool) (m : Act W Err (Unit {0})) → Preserves P m → Preserves P (unless env b m)
  unless-Preserves b m keeps =
      by_if (λ (m : Act W Err (Unit {0})). Preserves P m) b (λ e s p. p) (λ e. keeps)

  -- What the opening does once the answers are in.
  abbrev after_answers : Begin → List Input → Act W Err (Unit {0})
  after_answers b rest = do
    unless env b.approved (flush_notes env.send)
    append_with env.send rest (if b.resuming then resume else prompt)
        (if b.resuming then zero_trigger else b.trigger) b.trigger
    unless env (b.approved || b.terminate) (use_queue env env.steer >>= append_arrived env.send)
    unless env (not b.approved) (run_approved env b.terminate)
    unless env (not b.terminate) (stop_with env stopped refused none)

  given-Preserves : (b : Begin) (rest : List Input) → Preserves P (after_answers b rest)
  given-Preserves b rest =
      ended-Preserves env P steady (held)
        (λ _.
          ended-Preserves env P steady steered
            (λ _.
              ended-Preserves env P steady judged
                (λ _.
                  ended-Preserves env P steady last
                    (λ _.
                      unless-Preserves (not b.terminate) (stop_with env stopped refused none)
                        (λ t q. q))
                    (unless env (not b.approved) (run_approved env b.terminate))
                    (unless-Preserves (not b.approved) (run_approved env b.terminate)
                      (run_approved-Preserves b.terminate)))
                (unless env (b.approved || b.terminate)
                  (use_queue env env.steer >>= append_arrived env.send))
                (unless-Preserves (b.approved || b.terminate)
                  (use_queue env env.steer >>= append_arrived env.send)
                  (ended-Preserves env P steady (append_arrived env.send)
                    (append_arrived-Preserves env P steady) (use_queue env env.steer)
                    (queue-Preserves env P steady env.steer steady.steered))))
            (append_with env.send rest mode trigger b.trigger)
            (append_with-Preserves env P steady rest mode trigger b.trigger))
        (unless env b.approved (flush_notes env.send))
        (unless-Preserves b.approved (flush_notes env.send) (flush_notes-Preserves env P steady))
    where
      mode : InputMode
      mode = if b.resuming then resume else prompt

      trigger : Trigger
      trigger = if b.resuming then zero_trigger else b.trigger

      last : Unit {0} → Act W Err (Unit {0})
      last _ = unless env (not b.terminate) (stop_with env stopped refused none)

      judged : Unit {0} → Act W Err (Unit {0})
      judged _ = unless env (not b.approved) (run_approved env b.terminate) >>= last

      steered : Unit {0} → Act W Err (Unit {0})
      steered _ =
          unless env (b.approved || b.terminate)
            (use_queue env env.steer >>= append_arrived env.send)
          >>= judged

      held : Unit {0} → Act W Err (Unit {0})
      held _ = append_with env.send rest mode trigger b.trigger >>= steered

  opening-Preserves : (b : Begin) → Preserves P (opening env b)
  unfolding opening start_reported
  opening-Preserves b s p =
      ended-Preserves env P steady begun
        (λ _.
          ended-Preserves env P steady answer
            (λ _.
              ended-Preserves env P steady given (λ rest. given-Preserves b rest)
                (answers env b.answer_notes b.trigger trigger b.prompts)
                (answers-Preserves b.answer_notes b.trigger trigger b.prompts))
            (start_reported env) (λ t q. q))
        (emit env.send (first s)) (emit-Preserves env P steady (first s) refl) s p
    where
      mode : InputMode
      mode = if b.resuming then resume else prompt

      trigger : Trigger
      trigger = if b.resuming then zero_trigger else b.trigger

      first : State W → Event Err
      first t = run_start (source t.run.transcript b.prompts b.approved) b.trigger

      given : List Input → Act W Err (Unit {0})
      given rest = after_answers b rest

      answer : Unit {0} → Act W Err (Unit {0})
      answer _ = answers env b.answer_notes b.trigger trigger b.prompts >>= given

      begun : Unit {0} → Act W Err (Unit {0})
      begun _ = start_reported env >>= answer

  loop-Ended :
      (fuel : ℕ) (b : Begin) (s : State W) → P s.world → Ended env P steady (loop env fuel b s)
  unfolding loop
  loop-Ended fuel b s p =
      let p' = opening-Preserves b s p in
      by_result (Ended env P steady) (opening env b s).0
        (λ u e. turns-Ended env P steady fuel 0 (opening env b s).1 p') (λ x e. p')

  finish-Preserves :
      (r : Result (Halt Err) (Unit {0})) (s : State W) → P s.world → P (finish env r s).1.world
  unfolding finish
  finish-Preserves r s p =
      emit-Preserves env P steady (run_end (finish env r s).0) refl (ending env s).1
        (ending-Preserves env P steady s p)

-- Every call out of the loop keeps `P`: the subscribers at the events the loop sends, the queues and
-- hooks, the model's turn and the batches. Then a run with a budget of turns, which ends within it, keeps `P`,
-- however it ends: with fuel for the budget's turns it returns, and `P` holds of the world it leaves.
pub run-Preserves :
    {W Err Response : Type 0} (env : Env W Err Response) (P : W → Type 0)
    → Steady env P
    → (b : Begin) (s : State W) → 0 < env.max_turn_count
    → P s.world
    → (end : RunEnd Err) × (s' : State W) × (n : ℕ) × (run env env.max_turn_count b s
        ≡ some (end, s', n))
      × (n ≤ env.max_turn_count)
      × P s'.world
unfolding run
run-Preserves env P steady b s h p =
    let (r, s', n, e, k) = loop-Within env b (begin_state env s) h in
    let p' : P s'.world =
      subst (Ended env P steady) e
        (loop-Ended env P steady env.max_turn_count b (begin_state env s) p) in
    (
      (finish env r s').0,
      (finish env r s').1,
      n,
      rw (e, run) refl,
      k,
      finish-Preserves env P steady r s' p',
    )

-- ===== src/Model/Turn/Retries.antt =====
-- run.go: when modelTurn calls the model again, and how often.
use agentturn.Base.{
  ℕ, ◌+◌, ◌<◌, Bool, true, false, not, ◌&&◌, ◌||◌, Option, none, some, Result, ok, leb, ◌≡◌, refl,
  ap, arith, inl, inr, ◌⊎◌, by_if, by_option, drop, if◌then◌else◌,
}
use agentturn.Loop.{Halt, stop, fault, State, Act}
use agentturn.Loop.Append.{◌>>=◌, ◌>>◌, pure, halt, get}
use agentturn.Model.{Request, Built, Outcome, responded, failed, TurnEnv, model_retry}
use agentturn.Model.Turn.Gives.{Gives, bind-Gives, then-Gives, pure-Gives, halt-Gives}
use agentturn.Model.Turn.{
  Tries, Step, answered, again, report, on_stop, on_guard, fold_once, retry, fail_or_retry,
  on_error, after_attempt, after_fold, try_once, revised_request, rest_before, close_with,
  record_if, record_guarded, keep_revision, same_items, close_withheld, stops_guard,
}

module _ {W Err Response : Type 0} (env : TurnEnv W Err Response) (turn : ℕ) where
  -- Why the model is called again with `u` after the attempt of `t` failed with `e`: the request was
  -- folded, once in the turn, or the policy allowed another attempt.
  abbrev pub Folds : Tries → Err → Tries → Type 0
  Folds t e u =
      (env.has_transform ≡ true)
      × (env.is_context_length e ≡ true)
      × (t.folded ≡ false)
      × (u.folded ≡ true)
      × (u.attempt ≡ t.attempt)

  abbrev pub Retries : Tries → Err → Tries → Type 0
  Retries t e u =
      (env.retryable e ≡ true)
      × (t.attempt < env.max_attempts)
      × (u.attempt ≡ t.attempt + 1)
      × (t.folded ≡ true → u.folded ≡ true)

  abbrev pub Again : Tries → Err → Tries → Type 0
  Again t e u = (u.call ≡ t.call + 1) × (Folds t e u ⊎ Retries t e u)

  -- Where the step asks for another call, `Q` holds of what it goes on with.
  abbrev pub Asks : (Tries → Type 0) → Step Response → Type 0
  Asks Q (answered resp) = Unit
  Asks Q (again u) = Q u

  retry-Gives :
      (t : Tries) (e : Err)
      → env.retryable e ≡ true
      → t.attempt < env.max_attempts
      → Gives (Asks (Again t e)) (retry env turn t e)
  unfolding retry
  retry-Gives t e may below =
      let Q = Asks (Again t e) in
      then-Gives Q (λ s. let (out, s') = revised_request env turn t e s in (ok out, s'))
        (λ out. reported out.0.0 >>= λ _. rested >>= λ _. pure (again (next out.0.0 out.0.1 out.1)))
        (λ out.
          then-Gives Q (reported out.0.0)
            (λ _. rested >>= λ _. pure (again (next out.0.0 out.0.1 out.1)))
            (λ _.
              then-Gives Q rested (λ _. pure (again (next out.0.0 out.0.1 out.1)))
                (λ _.
                  pure-Gives Q (again (next out.0.0 out.0.1 out.1))
                    (refl, inr (may, below, refl, λ f. f)))))
    where
      rested : Act W Err (Unit {0})
      rested = rest_before env turn (env.backoff t.attempt e)

      reported : Request → Act W Err (Unit {0})
      reported req = report env turn (model_retry turn t.call e (env.backoff t.attempt e) req)

      next : Request → Built → Bool → Tries
      next req b revised = record t {
        request = req;
        built = b;
        revised = revised;
        call = t.call + 1;
        attempt = t.attempt + 1;
      }

  abbrev pub Uncommitted : Tries → Bool → Err → Tries → Type 0
  Uncommitted t committed e u = (committed ≡ false) × Again t e u

  fail_or_retry-Gives :
      (t : Tries) (committed : Bool) (e : Err)
      → Gives (Asks (Uncommitted t committed e)) (fail_or_retry env turn t committed e)
  unfolding fail_or_retry
  fail_or_retry-Gives t committed e =
      by_if (Gives (Asks (Uncommitted t committed e)))
        (committed || leb env.max_attempts t.attempt || not (env.retryable e))
        (λ b. halt-Gives (Asks (Uncommitted t committed e)) (fault (env.model_error e)))
        (λ b s a o.
          spread a (ground (arith, b))
            (retry-Gives t e (ground (arith, b)) (ground (arith, b)) s a o))
    where
      spread :
          (a : Step Response)
          → committed ≡ false
          → Asks (Again t e) a
          → Asks (Uncommitted t committed e) a
      spread (answered resp) c q = tt
      spread (again u) c q = (c, q)

  abbrev Folded : Tries → Option Tries → Type 0
  Folded t none = Unit
  Folded t (some u) = (u.call ≡ t.call + 1) × (u.folded ≡ true) × (u.attempt ≡ t.attempt)

  fold_once-Gives : (t : Tries) (e : Err) → Gives (Folded t) (fold_once env turn t e)
  unfolding fold_once
  fold_once-Gives t e =
      then-Gives (Folded t) (env.refold (if t.revised then some t.request else none))
        (λ built. kept built.0 built.1 >>= unchanged)
        (λ built. then-Gives (Folded t) (kept built.0 built.1) unchanged (λ out.
          by_if (Gives (Folded t)) (same_items env turn out.0.input.items t.request.input.items)
            (λ b. pure-Gives (Folded t) none tt)
            (λ b.
              then-Gives (Folded t) (report env turn (model_retry turn t.call e 0 out.0))
                (λ _. pure (some (next out.0 out.1)))
                (λ _. pure-Gives (Folded t) (some (next out.0 out.1)) (refl, refl, refl)))))
    where
      next : Request → Built → Tries
      next req b = record t { request = req; built = b; folded = true; call = t.call + 1 }

      kept : Request → Built → Act W Err (Request × Built)
      kept req b s = let (out, s') = keep_revision env turn t req b s in (ok out, s')

      unchanged : Request × Built → Act W Err (Option Tries)
      unchanged (req, b) =
          if same_items env turn req.input.items t.request.input.items
          then pure none
          else report env turn (model_retry turn t.call e 0 req) >> pure (some (next req b))

  close_with-Gives :
      (R : Step Response → Type 0) (start : ℕ) (h : Halt Err)
      → Gives R (close_with env turn start h)
  close_with-Gives R start h =
      then-Gives R get (λ r. close_withheld env turn (drop start r.transcript) >>= λ _. halt h)
        (λ r.
          then-Gives R (close_withheld env turn (drop start r.transcript)) (λ _. halt h)
            (λ _. halt-Gives R h))

  on_stop-Gives :
      (R : Step Response → Type 0) (start : ℕ) (resp : Option Response) (withheld : Bool)
      (h : Halt Err)
      → Gives R (on_stop env turn start resp withheld h)
  unfolding on_stop
  on_stop-Gives R start resp withheld h =
      then-Gives R (record_if env turn withheld start resp) (λ _. close_with env turn start h)
        (λ _. close_with-Gives R start h)

  on_guard-Gives :
      (R : Step Response → Type 0) (req : Request) (start : ℕ) (resp : Option Response)
      (committed : Bool) (e : Err)
      → Gives R (on_guard env turn req start resp committed e)
  unfolding on_guard
  on_guard-Gives R req start resp committed e =
      then-Gives R (record_guarded env turn req start resp committed e)
        (λ withheld. close_with env turn start (stops_guard env turn e withheld))
        (λ withheld. close_with-Gives R start (stops_guard env turn e withheld))

  -- What asked for another call: an attempt that had not committed, not a guard and not a cancellation.
  abbrev pub Spared : Tries → Bool → Err → W → Tries → Type 0
  Spared t committed e w u =
      (env.is_guard e ≡ false) × (env.cancelled w ≡ none) × Uncommitted t committed e u

  after_change :
      (t : Tries) (committed : Bool) (e : Err) (a : Step Response)
      → Asks (Uncommitted (record t { folded = true }) committed e) a
      → Asks (Uncommitted t committed e) a
  after_change t committed e (answered resp) q = tt
  after_change t committed e (again u) (c, (call, inl (has, long, unfolded, set, same))) =
      absurd (cc)
  after_change t committed e (again u) (c, (call, inr (may, below, next, keeps))) =
      (c, (call, inr (may, below, next, λ f. keeps refl)))

  after_fold-Gives :
      (t : Tries) (committed : Bool) (e : Err) (folded : Option Tries)
      → committed ≡ false
      → t.folded ≡ false
      → env.has_transform ≡ true
      → env.is_context_length e ≡ true
      → Folded t folded
      → Gives (Asks (Uncommitted t committed e)) (after_fold env turn t committed e folded)
  after_fold-Gives t committed e none c f has long _ = λ s a o.
      after_change t committed e a
        (fail_or_retry-Gives (record t { folded = true }) committed e s a o)
  after_fold-Gives t committed e (some u) c f has long (call, folded, attempt) =
      pure-Gives (Asks (Uncommitted t committed e)) (again u)
        (c, (call, inl (has, long, f, folded, attempt)))

  spare :
      (t : Tries) (committed : Bool) (e : Err) (w : W) (a : Step Response)
      → env.is_guard e ≡ false
      → env.cancelled w ≡ none
      → Asks (Uncommitted t committed e) a
      → Asks (Spared t committed e w) a
  spare t committed e w (answered resp) g c q = tt
  spare t committed e w (again u) g c q = (g, c, q)

  on_error-Spared :
      (start : ℕ) (t : Tries) (resp : Option Response) (committed : Bool) (e : Err) (s : State W)
      (a : Step Response)
      → (on_error env turn start t resp committed e s).0 ≡ ok a
      → Asks (Spared t committed e s.world) a
  unfolding on_error
  on_error-Spared start t resp committed e s a =
      by_option Ok (env.cancelled s.world)
        (λ alive.
          by_if Ok (env.is_guard e)
            (λ g.
              on_guard-Gives (Asks (Spared t committed e s.world)) t.request start resp committed e
                s a)
            (λ g.
              by_if Ok
                (not committed && not t.folded && env.has_transform && env.is_context_length e)
                (λ b o. spare t committed e s.world a g alive (
                  bind-Gives (Folded t) (Asks (Uncommitted t committed e)) (fold_once env turn t e)
                    (after_fold env turn t committed e) (fold_once-Gives t e)
                    (λ folded k.
                      after_fold-Gives t committed e folded (ground (arith, b)) (ground (arith, b))
                        (ground (arith, b)) (ground (arith, b)) k)
                    s a o))
                (λ b o.
                  spare t committed e s.world a g alive (fail_or_retry-Gives t committed e s a o))))
        (λ cause c o. absurd (cc))
    where
      Ok : Result (Halt Err) (Step Response) × State W → Type 0
      Ok out = out.0 ≡ ok a → Asks (Spared t committed e s.world) a

  -- The world once the attempt is over and what it left is attributed.
  abbrev pub seen : ℕ → Tries → State W → W
  seen start t s =
      let s1 = (env.stream t.request s).1 in
      env.attribute t.request.model (drop start s1.run.transcript) s1.world

  -- The model is called again for an attempt that failed uncommitted.
  abbrev pub Excused : Tries → Outcome Err Response → W → Tries → Type 0
  Excused t out w u =
      (resp : Option Response) × (e : Err) × (out ≡ failed resp false (fault e))
      × (env.is_guard e ≡ false)
      × (env.cancelled w ≡ none)
      × Again t e u

  after_attempt-Excused :
      (start : ℕ) (t : Tries) (out : Outcome Err Response) (s : State W) (u : Tries)
      → (after_attempt env turn start t out s).0 ≡ ok (again u)
      → Excused t out s.world u
  after_attempt-Excused start t (responded resp) s u o = absurd (cc)
  after_attempt-Excused start t (failed resp committed (stop reason cause e withheld)) s u o =
      absurd (
        on_stop-Gives (Asks (λ v. ⊥)) start resp withheld (stop reason cause e withheld) s (again u)
          o)
  after_attempt-Excused start t (failed resp committed (fault e)) s u o =
      let (guard, alive, (uncommitted, why)) =
        on_error-Spared start t resp committed e s (again u) o in
      (resp, e, ap (λ c. failed resp c (fault e)) uncommitted, guard, alive, why)

-- The model is called again only after an attempt that failed before it committed, with an error that
-- is no guard's, in a run that is not cancelled; and then either because the server refused the request
-- as too long and a transform is set to fold it, for the first time in the turn and with the attempts
-- not counted up, or because the policy allows a retry of the error and fewer attempts than it bounds
-- them by were made.
pub try_once-Again :
    {W Err Response : Type 0} (env : TurnEnv W Err Response) (turn start : ℕ) (t : Tries)
    (s : State W) (u : Tries)
    → (try_once env turn start t s).0 ≡ ok (again u)
    → Excused env turn t (env.stream t.request s).0 (seen env turn start t s) u
unfolding try_once
try_once-Again env turn start t s u =
    let s1 = (env.stream t.request s).1 in
    after_attempt-Excused env turn start t (env.stream t.request s).0
      (record s1 { world = seen env turn start t s }) u

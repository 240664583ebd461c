-- ===== src/Model/Turn/Bound.antt =====
-- run.go: how often modelTurn calls the model.
use agentturn.Base.{
  ℕ, zero, suc, ◌+◌, ◌-◌, ◌≤◌, ◌<◌, Bool, true, false, Option, some, ok, err, ◌≡◌, refl, sym, subst,
  arith, Result-cases, inl, inr, length,
}
use agentturn.Loop.{Halt, State}
use agentturn.Model.{TurnEnv}
use agentturn.Model.Turn.{
  Tries, answered, again, try_once, attempts, model_turn, first_try, begin_turn,
}
use agentturn.Model.Turn.Retries.{Again, try_once-Again}

-- MaxAttempts, or one attempt where it is 0.
abbrev pub allowed : ℕ → ℕ
allowed most = 1 + (most - 1)

-- The turn came to an end in that many calls of the model.
abbrev pub Called : {W A : Type 0} → ℕ → Option (A × State W × ℕ) → Type 0
Called {W} {A} most r = (a : A) × (s : State W) × (n : ℕ) × (r ≡ some (a, s, n)) × (n ≤ most)

-- The one call that a fold adds, while it is to come and once it is made.
abbrev to_come : Bool → ℕ
to_come true = 0
to_come false = 1

abbrev made : Bool → ℕ
made true = 1
made false = 0

module _ {W Err Response : Type 0} (env : TurnEnv W Err Response) (turn : ℕ) where
  abbrev Counted : Tries → Type 0
  Counted t = (t.attempt ≤ allowed env.max_attempts) × (t.call ≤ t.attempt + made t.folded)

  -- The calls that may follow.
  abbrev left_over : Tries → ℕ
  left_over t = allowed env.max_attempts - t.attempt + to_come t.folded

  made_mono : (b c : Bool) → (b ≡ true → c ≡ true) → (made b ≤ made c) × (to_come c ≤ to_come b)
  made_mono true true h = omega arith
  made_mono true false h = absurd (let e : false ≡ true = h refl in ground arith)
  made_mono false true h = omega arith
  made_mono false false h = omega arith

  count :
      (t u : Tries) (e : Err)
      → Counted t
      → Again env turn t e u
      → Counted u × (left_over u < left_over t)
  count t u e (within, counted) (call, inl (has, long, was, is, same)) =
      (ground (arith, was, is), ground (arith, was, is))
  count t u e (within, counted) (call, inr (may, below, next, keeps)) =
      let (more, less) = made_mono t.folded u.folded keeps in (omega arith, omega arith)

  module _ (start fuel : ℕ) (t : Tries) (s : State W) where
    attempts_ended :
        {h : Halt Err}
        → (try_once env turn start t s).0 ≡ err h
        → attempts env turn (suc fuel) start t s
          ≡ some (err h, (try_once env turn start t s).1, t.call)
    unfolding attempts
    attempts_ended o = rw (o, attempts) refl

    attempts-answered :
        {resp : Response}
        → (try_once env turn start t s).0 ≡ ok (answered resp)
        → attempts env turn (suc fuel) start t s
          ≡ some (ok resp, (try_once env turn start t s).1, t.call)
    unfolding attempts
    attempts-answered o = rw (o, attempts) refl

    attempts_again :
        {u : Tries}
        → (try_once env turn start t s).0 ≡ ok (again u)
        → attempts env turn (suc fuel) start t s
          ≡ attempts env turn fuel start u (try_once env turn start t s).1
    unfolding attempts
    attempts_again o = rw (o, attempts) refl

  attempts-Called :
      (start fuel : ℕ) (t : Tries) (s : State W)
      → Counted t
      → left_over t < fuel
      → Called (allowed env.max_attempts + 1) (attempts env turn fuel start t s)
  attempts-Called start zero t s c h = absurd (omega arith)
  attempts-Called start (suc fuel) t s c h =
      let s' = (try_once env turn start t s).1 in
      elim (Result-cases (try_once env turn start t s).0) [
        | inr (x, o) ↦ (err x, s', t.call, attempts_ended start fuel t s o, few t c)
        | inl (answered resp, o) ↦
            (ok resp, s', t.call, attempts-answered start fuel t s o, few t c)
        | inl (again u, o) ↦
            let (resp, e, out, guard, alive, why) = try_once-Again env turn start t s u o in
            let (c', less) = count t u e c why in
            subst (Called (allowed env.max_attempts + 1)) (sym (attempts_again start fuel t s o))
              (attempts-Called start fuel u s' c' (omega arith))
      ]
    where
      few : (t : Tries) → Counted t → t.call ≤ allowed env.max_attempts + 1
      few t (within, counted) = ground (arith)

-- A model turn ends, whatever the model, the hooks, the subscribers and the retry policy do, and has
-- then called the model at most once more than MaxAttempts allows: the one call more is the fold's.
-- Fuel for that many calls is enough.
pub model_turn-Called :
    {W Err Response : Type 0} (env : TurnEnv W Err Response) (turn : ℕ) (s : State W)
    → Called (allowed env.max_attempts + 1) (model_turn env turn (allowed env.max_attempts + 1) s)
unfolding model_turn
model_turn-Called env turn s = elim (Result-cases (begin_turn env turn s).0) [
  | inr (x, o) ↦ (err x, (begin_turn env turn s).1, 0, rw (o, model_turn) refl, omega arith)
  | inl ((req, b), o) ↦
      let s' = (begin_turn env turn s).1 in
      let (r, s'', n, e, k) =
        attempts-Called env turn (length s'.run.transcript) (allowed env.max_attempts + 1)
          (first_try req b) s' (omega arith) (omega arith) in
      (r, s'', n, rw (o, model_turn) e, k)
]

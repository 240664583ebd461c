-- ===== src/Model/Turn/Gives.antt =====
-- run.go: what the result of a step of the model's turn is known by.
use agentturn.Base.{◌≡◌, sym, subst, ap, ◌∙◌, ok, arith, Result-cases, inl, inr}
use agentturn.Loop.{Halt, State, Act}
use agentturn.Loop.Append.{◌>>=◌, pure, halt, bind_ok, bind_err}

module _ {W Err : Type 0} where
  -- What the action gives, if it halts not, is as `R` says.
  abbrev pub Gives : {A : Type 0} → (A → Type 0) → Act W Err A → Type 0
  Gives {A = A} R m = (s : State W) (a : A) → (m s).0 ≡ ok a → R a

  pub bind-Gives :
      {A B : Type 0} (R : A → Type 0) (S : B → Type 0) (m : Act W Err A) (f : A → Act W Err B)
      → Gives R m
      → ((a : A) → R a → Gives S (f a))
      → Gives S (m >>= f)
  bind-Gives R S m f given h s b e = elim (Result-cases (m s).0) [
    | inl (a, o) ↦ h a (given s a o) (m s).1 b (sym (ap (λ r. r.0) (bind_ok m f s o)) ∙ e)
    | inr (x, o) ↦ absurd (ground (arith, ap (λ r. r.0) (bind_err m f s o)))
  ]

  pub then-Gives :
      {A B : Type 0} (S : B → Type 0) (m : Act W Err A) (f : A → Act W Err B)
      → ((a : A) → Gives S (f a))
      → Gives S (m >>= f)
  then-Gives S m f h = bind-Gives (λ a. Unit {0}) S m f (λ s a o. tt) (λ a _. h a)

  pub pure-Gives : {A : Type 0} (R : A → Type 0) (a : A) → R a → Gives R (pure a)
  pure-Gives {A = A} R a r s b e = let same : a ≡ b = cc e in subst R same r

  pub halt-Gives : {A : Type 0} (R : A → Type 0) (h : Halt Err) → Gives R (halt h)
  halt-Gives R h s a e = absurd (cc)

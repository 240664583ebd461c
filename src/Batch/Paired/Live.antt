-- ===== src/Batch/Paired/Live.antt =====
-- run.go: the calls of a batch that still run, and what they are owed.
use agentturn.Base.{
  ℕ, zero, suc, ◌+◌, ◌≡◌, sym, ap, ◌∙◌, subst, ◌⊎◌, inl, inr, Bool, true, false, not, ◌&&◌, List,
  [], ◌∷◌, map, none, some, String, ◌==◌, String-Comparable, Nat-Comparable, if◌then◌else◌, arith,
  Bool-cases, get_elem?, set, keep, contains, is_some, is_empty, set-cases, nat_eq_iff,
}
use agentturn.Loop.{ToolEvent, State}
use agentturn.Batch.{Call, BatchEnv, ExecEvent, final}
use agentturn.Batch.Execute.{Execution}
use agentturn.Batch.Paired.{Recorded}
use agentturn.Batch.Paired.Settled.{owed_by, Owes}
use agentturn.Batch.Paired.Begun.{owed}

abbrev pub remove : ℕ → List ℕ → List ℕ
remove i live = keep (λ k. not (k == i)) live

-- Whether every call in `live` comes to its end once, and no other.
unfoldable pub is_served : {W Err : Type 0} → List ℕ → List ℕ → List (ExecEvent W Err) → Bool
is_served index live [] = is_empty live
is_served index live (final j result e ∷ schedule) = elim (get_elem? index j) [
  | none ↦ is_served index live schedule
  | some i ↦ contains live i && is_served index (remove i live) schedule
]
is_served index live (_ ∷ schedule) = is_served index live schedule

pub contains-remove :
    (i k : ℕ) (live : List ℕ)
    → contains (remove i live) k ≡ (if k == i then false else contains live k)
unfolding contains
contains-remove i k [] = elim (Bool-cases (k == i)) [
  | inl e ↦ ground (arith, e)
  | inr e ↦ ground (arith, e)
]
contains-remove i k (l ∷ live) = elim (Bool-cases (l == i)) [
  | inl e ↦ elim (Bool-cases (k == i)) [
    | inl f ↦ ground (arith, e, f, contains-remove i k live)
    | inr f ↦
        ground
          (arith, e, f, contains-remove i k live, nat_eq_iff l i, nat_eq_iff k i, nat_eq_iff l k)
  ]
  | inr e ↦ elim (Bool-cases (k == i)) [
    | inl f ↦
        ground
          (arith, e, f, contains-remove i k live, nat_eq_iff l i, nat_eq_iff k i, nat_eq_iff l k)
    | inr f ↦ ground (arith, e, f, contains-remove i k live)
  ]
]

-- What a call is owed apart from the others.
owed-at :
    {Err : Type 0} (batch : List (Call Err)) (i : ℕ) (p : Call Err) (id : String)
    → get_elem? batch i ≡ some p
    → (rest : ℕ) × (owed id (map some batch) ≡ rest + owed_by id p)
      × ((q : Call Err) → owed id (map some (set batch i q)) ≡ rest + owed_by id q)
owed-at [] i p id h = ground (arith, h)
owed-at (x ∷ batch) zero p id h =
    (owed id (map some batch), ground (arith, ap (λ o. owed id (o ∷ [])) h), λ q. omega arith)
owed-at (x ∷ batch) (suc i) p id h =
    let (rest, before, after) = owed-at batch i p id h in
    (owed_by id x + rest, omega (arith, before), λ q. omega (arith, after q))

module _ {W Err : Type 0} (env : BatchEnv W Err) (raised : W → List (ToolEvent Err))
    (rec : Recorded env raised) where
  -- What an event of the call at `i` may do.
  abbrev pub Moved : ℕ → Call Err → Call Err → Execution W Err → Execution W Err → Type 0
  Moved i p q x x' =
      (x'.batch ≡ set x.batch i q)
      × ((id : String) (k : ℕ)
          → Owes env raised rec id (k + owed_by id p) x.state
          → Owes env raised rec id (k + owed_by id q) x'.state)
      × (is_some x.failed ≡ true → is_some x'.failed ≡ true)

  abbrev pub Fits : List ℕ → Execution W Err → Type 0
  Fits live x =
      (i : ℕ) (p : Call Err)
      → get_elem? x.batch i ≡ some p
      → (contains live i ≡ true → p.ended ≡ false)
        × (contains live i ≡ false → (p.ended ≡ true) ⊎ (is_some x.failed ≡ true))

  abbrev pub Owing : State W → Execution W Err → Type 0
  Owing s0 x =
      (id : String)
      → Owes env raised rec id 0 s0
      → Owes env raised rec id (owed id (map some x.batch)) x.state

  pub Owing-move :
      (i : ℕ) (p q : Call Err) (s0 : State W) (x x' : Execution W Err)
      → get_elem? x.batch i ≡ some p
      → Moved i p q x x'
      → Owing s0 x
      → Owing s0 x'
  Owing-move i p q s0 x x' here (batch, owes, _) owing id owed0 =
      let (rest, before, after) = owed-at x.batch i p id here in
      subst (λ k. Owes env raised rec id k x'.state)
        (sym (ap (λ b. owed id (map some b)) batch ∙ after q))
        (owes id rest (subst (λ k. Owes env raised rec id k x.state) before (owing id owed0)))

  -- The end of a call takes it off the live ones.
  pub Fits-final :
      (i : ℕ) (p q : Call Err) (live : List ℕ) (x x' : Execution W Err)
      → get_elem? x.batch i ≡ some p
      → Moved i p q x x'
      → (q.ended ≡ true) ⊎ (is_some x'.failed ≡ true)
      → Fits live x
      → Fits (remove i live) x'
  Fits-final i p q live x x' here (batch, _, failed) over fits k w there =
      elim (set-cases x.batch i q k w (ap (λ b. get_elem? b k) (sym batch) ∙ there)) [
        | inl (at, e) ↦ (
          λ lives. ground (arith, at, lives, contains-remove i k live, nat_eq_iff k i),
          λ gone. elim over [ inl ended ↦ inl (ap (λ r. r.ended) e ∙ ended) | inr f ↦ inr f ],
        )
        | inr (other, e) ↦
            let (open_end, closed) = fits k w e in
            (
              λ lives.
                  open_end (ground (arith, other, lives, contains-remove i k live, nat_eq_iff k i)),
              λ gone.
                  elim (closed
                    (ground (arith, other, gone, contains-remove i k live, nat_eq_iff k i))) [
                      | inl ended ↦ inl ended
                      | inr f ↦ inr (failed f)
                    ],
            )
      ]

  -- Any other event leaves them.
  pub Fits-other :
      (i : ℕ) (p q : Call Err) (live : List ℕ) (x x' : Execution W Err)
      → get_elem? x.batch i ≡ some p
      → Moved i p q x x'
      → q.ended ≡ p.ended
      → Fits live x
      → Fits live x'
  Fits-other i p q live x x' here (batch, _, failed) same fits k w there =
      elim (set-cases x.batch i q k w (ap (λ b. get_elem? b k) (sym batch) ∙ there)) [
        | inl (at, e) ↦
            let (open_end, closed) = fits i p here in
            let alike = ap (λ r. r.ended) e ∙ same in
            (
              λ lives. alike ∙ open_end (subst (λ j. contains live j ≡ true) at lives),
              λ gone. elim (closed (subst (λ j. contains live j ≡ false) at gone)) [
                | inl ended ↦ inl (alike ∙ ended)
                | inr f ↦ inr (failed f)
              ],
            )
        | inr (other, e) ↦
            let (open_end, closed) = fits k w e in
            (
              open_end,
              λ gone. elim (closed gone) [ inl ended ↦ inl ended | inr f ↦ inr (failed f) ],
            )
      ]

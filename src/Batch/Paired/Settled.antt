-- ===== src/Batch/Paired/Settled.antt =====
-- run.go: the tool events that the operations on one call raise.
use agentturn.Base.{
  ℕ, ◌+◌, ◌≡◌, refl, sym, ◌∙◌, subst, ◌⊎◌, inl, inr, true, false, not, List, [], Option, none, some,
  String, Result, ok, err, String-Comparable, if◌then◌else◌, arith, by_if, by_option,
}
use agentturn.Loop.{ToolEvent, tool_end, Event, tool_event, State}
use agentturn.Loop.Pending.{id_of}
use agentturn.Batch.{Call, BatchEnv, tell, ResultInfo, ToolOverride, Spoken}
use agentturn.Batch.Said.{heard}
use agentturn.Batch.Settle.{
  finish, settle, settle_by, judged, check, checked, composed, end_event, marked_cut, overridden,
  result_info,
}
use agentturn.Batch.Paired.{starts, ends, one_of, Recorded, noted}

-- How many ends a call of this ID is owed by `p`.
abbrev pub owed_by : {Err : Type 0} → String → Call Err → ℕ
owed_by id p = if p.ended then 0 else one_of (id_of p.call) id

module _ {W Err : Type 0} (env : BatchEnv W Err) (raised : W → List (ToolEvent Err))
    (rec : Recorded env raised) where
  -- The starts of the ID are its ends and `k` more.
  abbrev pub Owes : String → ℕ → State W → Type 0
  Owes id k s = starts id (raised s.world) ≡ ends id (raised s.world) + k

  pub tell-raised :
      (ev : Event Err) (s : State W) → raised (tell env ev s).1.world ≡ noted ev (raised s.world)
  unfolding tell
  tell-raised ev s = rec.sent ev s.world

  -- A call that is not ended comes to its end, or to a failure of the hook before it.
  abbrev pub Ends : Call Err → State W → Option Err × (Call Err × State W) → Type 0
  Ends p s (e, (q, s')) =
      (id_of q.call ≡ id_of p.call)
      × (q.settled ≡ p.settled)
      × (((q.ended ≡ true)
            × ((id : String) (k : ℕ) → Owes id (k + one_of (id_of p.call) id) s → Owes id k s'))
          ⊎ ((q.ended ≡ false) × (raised s'.world ≡ raised s.world) × ((x : Err) × (e ≡ some x))))

  -- A call's end is raised.
  abbrev pub Closes : Call Err → State W → State W → Type 0
  Closes p s s' = (id : String) (k : ℕ) → Owes id (k + one_of (id_of p.call) id) s → Owes id k s'

  pub finish-Closes : (p : Call Err) (s : State W) → Closes p s (finish env p s).1.1
  unfolding finish
  finish-Closes p s id k owes =
      let ev : Event Err = tool_event (tool_end (end_event env (composed env p))) in
      ground (arith, owes, tell-raised ev s)

  pub finish-Ends : (p : Call Err) (s : State W) → Ends p s (finish env p s)
  unfolding finish
  finish-Ends p s = (refl, refl, inl (refl, finish-Closes p s))

  -- The same, begun from a state with the same history and a call with the same ID.
  pub Ends-from :
      (p p' : Call Err) (s s' : State W) (out : Option Err × (Call Err × State W))
      → id_of p'.call ≡ id_of p.call
      → p'.settled ≡ p.settled
      → raised s'.world ≡ raised s.world
      → Ends p' s' out
      → Ends p s out
  Ends-from p p' s s' (e, (q, t)) same kept_settled kept (named, settled, inl (ended, owes)) = (
    named ∙ same,
    settled ∙ kept_settled,
    inl (
      ended,
      λ id k owed. owes id k (
          subst (λ l. starts id l ≡ ends id l + (k + one_of (id_of p'.call) id)) (sym kept)
            (subst (λ i. starts id (raised s.world) ≡ ends id (raised s.world) + (k + one_of i id))
              (sym same) owed)),
    ),
  )
  Ends-from p p' s s' (e, (q, t)) same kept_settled kept
        (named, settled, inr (open_end, quiet, failed)) =
      (named ∙ same, settled ∙ kept_settled, inr (open_end, quiet ∙ kept, failed))

  judged-Ends :
      (r : Result Err (Option (ToolOverride Err))) (p : Call Err) (s : State W)
      → p.ended ≡ false
      → Ends p s (judged env r p s)
  unfolding judged
  judged-Ends (err e) p s unended = (refl, refl, inr (unended, refl, (env.after_error e, refl)))
  judged-Ends (ok none) p s unended = finish-Ends (marked_cut env p s) s
  judged-Ends (ok (some o)) p s unended =
      finish-Ends (marked_cut env (overridden env (some o) p) s) s

  settle_by-Ends :
      (h : Option (
        ResultInfo Err
        → List Spoken × W
        → Result Err (Option (ToolOverride Err)) × (List Spoken × W)))
      (p : Call Err) (s : State W)
      → env.after_tool_call ≡ h
      → p.ended ≡ false
      → Ends p s (settle_by env h p s)
  unfolding settle_by heard
  settle_by-Ends none p s e unended = finish-Ends (marked_cut env p s) s
  settle_by-Ends (some f) p s e unended =
      let out = f (result_info env p) ([], s.world) in
      by_if (Ends p s) p.blocked (λ b. finish-Ends (marked_cut env p s) s)
        (λ b.
          Ends-from p p s (heard out.1 s) (judged env out.0 p (heard out.1 s)) refl refl
            (rec.after f e (result_info env p) s.world)
            (judged-Ends out.0 p (heard out.1 s) unended))

  pub settle-Ends : (p : Call Err) (s : State W) → p.ended ≡ false → Ends p s (settle env p s)
  unfolding settle
  settle-Ends p s unended = settle_by-Ends env.after_tool_call p s refl unended

  abbrev pub refused : Err → Call Err → Call Err
  refused e p = record (checked env p) { settled = true; result = env.error_result e }

  abbrev pub IsAlike : Call Err → Call Err → Type 0
  IsAlike p q = (id_of q.call ≡ id_of p.call) × (q.settled ≡ p.settled) × (q.ended ≡ p.ended)

  pub checked-IsAlike : (p : Call Err) → IsAlike p (checked env p)
  checked-IsAlike p =
      by_if (IsAlike p) p.blocked (λ b. (refl, refl, refl))
        (λ b.
          by_if (IsAlike p) (not p.tool) (λ b. (refl, refl, refl))
            (λ b.
              by_if (IsAlike p) (not (env.valid_object p.args)) (λ b. (refl, refl, refl))
                (λ b. (refl, refl, refl))))

  -- A call that may run is as it was; one that may not is settled.
  abbrev pub Checked : Call Err → State W → Option Err × (Call Err × State W) → Type 0
  Checked p s out = (out ≡ (none, (checked env p, s))) ⊎ ((e : Err) × Ends (refused e p) s out)

  pub check-Checked : (p : Call Err) (s : State W) → p.ended ≡ false → Checked p s (check env p s)
  unfolding check
  check-Checked p s unended =
      by_option (Checked p s) (checked env p).err (λ e. inl refl)
        (λ e f. inr (e, settle-Ends (refused e p) s ((checked-IsAlike p).2 ∙ unended)))

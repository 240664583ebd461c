-- ===== src/Batch/Paired/Begun.antt =====
-- run.go: the tool events of preflight, for one call and for the calls of a batch.
use agentturn.Base.{
  ℕ, ◌+◌, ◌≡◌, refl, sym, ◌∙◌, subst, inl, inr, false, ◌&&◌, not, List, [], ◌∷◌, ◌++◌, Option, none,
  some, String, Result, ok, err, ◌==◌, String-Comparable, arith, by_if, by_option,
}
use agentturn.Items.{Item}
use agentturn.Chain.{BeforeToolCall}
use agentturn.Chain.Decision.{ToolDecision, ToolAction, allow, block, defer}
use agentturn.Loop.{ToolEvent, tool_start, tool_end, Event, tool_event, State}
use agentturn.Loop.Pending.{id_of, name_of}
use agentturn.Batch.{Call, CallInfo, BatchEnv, tell, Spoken}
use agentturn.Batch.Said.{heard}
use agentturn.Batch.Settle.{
  decide, decide_action, add_decision_note, with_decided_args, is_allow, check, checked,
}
use agentturn.Batch.Preflight.{
  consult, ruled, call_info, begin_call, deferred_end, reason_of, no_states,
}
use agentturn.Batch.Paired.{one_of, Recorded}
use agentturn.Batch.Paired.Settled.{
  owed_by, Owes, tell-raised, IsAlike, checked-IsAlike, Checked, check-Checked,
}

-- How many ends the calls of a batch are owed.
abbrev pub owed : {Err : Type 0} → String → List (Option (Call Err)) → ℕ
owed id [] = 0
owed id (none ∷ batch) = owed id batch
owed id (some p ∷ batch) = owed_by id p + owed id batch

pub owed-append :
    {Err : Type 0} (id : String) (xs ys : List (Option (Call Err)))
    → owed id (xs ++ ys) ≡ owed id xs + owed id ys
owed-append id [] ys = omega arith
owed-append id (none ∷ xs) ys = owed-append id xs ys
owed-append id (some p ∷ xs) ys = omega (arith, owed-append id xs ys)

pub owed-no_states :
    (Err : Type 0) (id : String) (calls : List Item) → owed id (no_states {Err = Err} calls) ≡ 0
owed-no_states Err id [] = refl
owed-no_states Err id (c ∷ calls) = owed-no_states Err id calls

module _ {W Err : Type 0} (env : BatchEnv W Err) (raised : W → List (ToolEvent Err))
    (rec : Recorded env raised) where
  -- A call left as it was, with the history.
  abbrev pub IsQuietly : Call Err → State W → Call Err × State W → Type 0
  IsQuietly p s (q, s') = IsAlike env raised rec p q × (raised s'.world ≡ raised s.world)

  decide_action-IsQuietly :
      (a : ToolAction) (d : ToolDecision) (p : Call Err) (s : State W)
      → IsQuietly p s (decide_action env a d p s)
  decide_action-IsQuietly allow d p s = ((refl, refl, refl), refl)
  decide_action-IsQuietly block d p s = ((refl, refl, refl), refl)
  decide_action-IsQuietly defer d p s = ((refl, refl, refl), refl)

  add_decision_note-IsQuietly :
      (d : ToolDecision) (p : Call Err) (s : State W) → IsQuietly p s (add_decision_note env d p s)
  unfolding add_decision_note
  add_decision_note-IsQuietly d p s =
      by_if (IsQuietly p s) (is_allow env d.action && not (d.note == ""))
        (λ b. ((refl, refl, refl), rec.made s.world)) (λ b. ((refl, refl, refl), refl))

  with_decided_args-IsAlike :
      (d : ToolDecision) (p : Call Err) → IsAlike env raised rec p (with_decided_args env d p)
  with_decided_args-IsAlike d p =
      by_option (IsAlike env raised rec p) d.args (λ e. (refl, refl, refl))
        (λ a e. (refl, refl, refl))

  IsQuietly-trans :
      (p q : Call Err) (s s' : State W) (out : Call Err × State W)
      → IsQuietly p s (q, s')
      → IsQuietly q s' out
      → IsQuietly p s out
  IsQuietly-trans p q s s' (o, t) ((a, b, c), h) ((a', b', c'), h') =
      ((a' ∙ a, b' ∙ b, c' ∙ c), h' ∙ h)

  decide-IsQuietly :
      (d : ToolDecision) (p : Call Err) (s : State W) → IsQuietly p s (decide env d p s)
  unfolding decide
  decide-IsQuietly d p s =
      let p0 = with_decided_args env d p in
      let out = add_decision_note env d p0 s in
      IsQuietly-trans p out.0 s out.1 (decide env d p s)
        (IsQuietly-trans p p0 s s out (with_decided_args-IsAlike d p, refl)
          (add_decision_note-IsQuietly d p0 s))
        (decide_action-IsQuietly d.action d (record (out.0) { terminate = d.terminate }) out.1)

  ruled-IsQuietly :
      (r : Result Err (Option ToolDecision)) (p : Call Err) (s : State W)
      → IsQuietly p s (ruled env r p s).1
  unfolding ruled
  ruled-IsQuietly (err e) p s = ((refl, refl, refl), refl)
  ruled-IsQuietly (ok none) p s = ((refl, refl, refl), refl)
  ruled-IsQuietly (ok (some d)) p s = decide-IsQuietly d p s

  pub consult-IsQuietly :
      (h : Option (BeforeToolCall (List Spoken × W) Err CallInfo)) (p : Call Err)
      (batch : List Item) (i : ℕ) (s : State W)
      → env.before_tool_call ≡ h
      → IsQuietly p s (consult env h p batch i s).1
  unfolding consult heard
  consult-IsQuietly none p batch i s e = ((refl, refl, refl), refl)
  consult-IsQuietly (some f) p batch i s e =
      let out = f (call_info env p batch i) ([], s.world) in
      IsQuietly-trans p p s (heard out.1 s) (ruled env out.0 p (heard out.1 s)).1
        ((refl, refl, refl), rec.before f e (call_info env p batch i) s.world)
        (ruled-IsQuietly out.0 p (heard out.1 s))

  -- A call begun: its start is raised, and it is owed an end unless it has one.
  abbrev pub Began : State W → Option Err × (Call Err × State W) → Type 0
  Began s (e, (q, s')) =
      ((id : String) (k : ℕ)
        → Owes env raised rec id k s
        → Owes env raised rec id (k + owed_by id q) s')
      × (e ≡ none → q.settled ≡ q.ended)

  -- A call whose start was raised before.
  abbrev Follows : Call Err → State W → Option Err × (Call Err × State W) → Type 0
  Follows p s (e, (q, s')) =
      ((id : String) (k : ℕ)
        → Owes env raised rec id (k + one_of (id_of p.call) id) s
        → Owes env raised rec id (k + owed_by id q) s')
      × (e ≡ none → q.settled ≡ q.ended)

  pub Owes-open :
      (id i : String) (k : ℕ) (q : Call Err) (s s' : State W)
      → q.ended ≡ false
      → id_of q.call ≡ i
      → raised s'.world ≡ raised s.world
      → Owes env raised rec id (k + one_of i id) s
      → Owes env raised rec id (k + owed_by id q) s'
  Owes-open id i k q s s' open_end same quiet owes = rw (open_end, same, quiet) owes

  check-Follows :
      (p : Call Err) (s : State W) (out : Option Err × (Call Err × State W))
      → p.ended ≡ false
      → p.settled ≡ false
      → Checked env raised rec p s out
      → Follows p s out
  check-Follows p s out unended unsettled (inl e) =
      let (same, settled, ended) = checked-IsAlike env raised rec p in
      subst (Follows p s) (sym e) (
        λ id k owes.
            Owes-open id (id_of p.call) k (checked env p) s s (ended ∙ unended) same refl owes,
        λ n. settled ∙ unsettled ∙ sym (ended ∙ unended),
      )
  check-Follows p s (e, (q, s')) unended unsettled (inr (x, (same, settled, inl (ended, owes)))) =
      let (checked_same, _, _) = checked-IsAlike env raised rec p in
      (
        λ id k owed. ground (
          arith,
          ended,
          owes id k
              (subst (λ i. Owes env raised rec id (k + one_of i id) s) (sym checked_same) owed),
        ),
        λ n. settled ∙ sym ended,
      )
  check-Follows p s (e, (q, s')) unended unsettled
        (inr (x, (same, settled, inr (open_end, quiet, (f, failed))))) =
      let (checked_same, _, _) = checked-IsAlike env raised rec p in
      (
        λ id k owes. Owes-open id (id_of p.call) k q s s' open_end (same ∙ checked_same) quiet owes,
        λ n. ground (arith, n, failed),
      )

  pub begin_call-Began :
      (d : Option ToolDecision) (p : Call Err) (s : State W)
      → p.ended ≡ false
      → p.settled ≡ false
      → Began s (begin_call env d p s)
  unfolding begin_call
  begin_call-Began d p s unended unsettled =
      let start : Event Err =
        tool_event (tool_start p.turn (id_of p.call) (name_of p.call) p.args d) in
      let end : Event Err = tool_event (tool_end (deferred_end env (reason_of env d) p)) in
      let s1 = (tell env start s).1 in
      let s2 = (tell env end s1).1 in
      let begun : (id : String) (k : ℕ)
          → Owes env raised rec id k s
          → Owes env raised rec id (k + one_of (id_of p.call) id) s1 =
        λ id k owes. ground (arith, owes, tell-raised env raised rec start s) in
      by_option (Began s) (tell env start s).0
        (λ e.
          by_if (Began s) p.deferred
            (λ b. (
              λ id k owes. ground (arith, begun id k owes, tell-raised env raised rec end s1),
              λ n. refl,
            ))
            (λ b.
              let (owes, ready) =
                check-Follows p s1 (check env p s1) unended unsettled
                  (check-Checked env raised rec p s1 unended) in
              (λ id k owed. owes id k (begun id k owed), ready)))
        (λ x e. (
          λ id k owes. Owes-open id (id_of p.call) k p s1 s1 unended refl refl (begun id k owes),
          λ n. ground (arith, n),
        ))

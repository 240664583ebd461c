-- ===== src/Agent/Ops/Laws.antt =====
-- agent.go: what any sequence of operations on the queues promises.
use agentturn.Base.{
  Bool, true, false, ◌||◌, List, [], ◌∷◌, ◌++◌, String-Comparable, is_empty, keep-append,
  append-nil, append_assoc, ◌≡◌, refl, sym, ap, ◌∙◌, arith, inl, inr, Bool-cases, List-cases,
}
use agentturn.Items.{Input, Trigger, trigger_refused}
use agentturn.Loop.{InputMode, steered, follow_up, deliver, TurnInput}
use agentturn.Agent.{
  queue_steer, queue_follow_up, QueuedItem, Queues, turn_input, inputs_of, queue, take_steer,
  drain_steer, drain_last, close, drain_follow_up, enqueue,
}
use agentturn.Agent.Ops.{
  Op, accepts, delivers, takes, takes_follow_ups, takes_last, closes, step, steps, entries,
  accepted, accepted_by, is_late, kind, of, waiting, IsSorted, queue-steer, queue-follow_up,
}

of-append : (b : Bool) (xs ys : List TurnInput) → of b (xs ++ ys) ≡ of b xs ++ of b ys
of-append b xs ys = keep-append (kind b) xs ys

inputs-append : (xs ys : List QueuedItem) → inputs_of (xs ++ ys) ≡ inputs_of xs ++ inputs_of ys
unfolding inputs_of
inputs-append [] ys = refl
inputs-append (x ∷ xs) ys = ap (◌∷◌ (turn_input x)) (inputs-append xs ys)

entries_early :
    (t : Trigger) (how : InputMode) (items : List Input)
    → ((x : Input) → is_late (turn_input (record { item = x; mode = how; trigger = t })) ≡ false)
    → of true (inputs_of (entries t how items)) ≡ []
unfolding inputs_of
entries_early t how [] h = refl
entries_early t how (x ∷ items) h = ground (arith, h x, entries_early t how items h)

entries_late :
    (t : Trigger) (items : List Input) → of false (inputs_of (entries t follow_up items)) ≡ []
unfolding inputs_of
entries_late t [] = refl
entries_late t (x ∷ items) = ground (arith, entries_late t items)

-- What a step must show: the queues keep their kinds, and what is handed out, then what waits, is
-- what waited, then what was accepted, kind by kind.
abbrev Conserves : Op → Queues → List TurnInput × Queues → Type 0
Conserves op a r =
    IsSorted r.1
    × ((b : Bool) → of b r.0 ++ of b (waiting r.1) ≡ of b (waiting a) ++ of b (accepted op))

module _ (a : Queues) (h : IsSorted a) (n : List QueuedItem) (a' : Queues) where
  -- New items behind the steers.
  module _ (s : a'.steer ≡ a.steer ++ n) (f : a'.follow_ups ≡ a.follow_ups)
      (e : of true (inputs_of n) ≡ []) where
    steer_grows : (b : Bool) → of b (waiting a') ≡ of b (waiting a) ++ of b (inputs_of n)
    steer_grows true =
        rw (s, f, inputs-append, of-append true, of-append true, of-append true, h.0, e)
          (sym (append-nil _))
    steer_grows false =
        rw (s, f, inputs-append, of-append false, of-append false, of-append false, h.1)
          (append-nil _
            ∙ sym (
                ap (λ xs. xs ++ of false (inputs_of n))
                  (append-nil (of false (inputs_of a.steer)))))

    steer_grows-IsSorted : IsSorted a'
    steer_grows-IsSorted = (rw (s, inputs-append, of-append true, h.0, e) refl, rw f h.1)

  -- New items behind the follow-ups.
  module _ (s : a'.steer ≡ a.steer) (f : a'.follow_ups ≡ a.follow_ups ++ n)
      (e : of false (inputs_of n) ≡ []) where
    follow_ups_grow : (b : Bool) → of b (waiting a') ≡ of b (waiting a) ++ of b (inputs_of n)
    follow_ups_grow b =
        rw (s, f, inputs-append, of-append b, of-append b, of-append b)
          (sym (append_assoc (of b (inputs_of a.steer)) _ _))

    follow_ups_grow-IsSorted : IsSorted a'
    follow_ups_grow-IsSorted = (rw s h.0, rw (f, inputs-append, of-append false, h.1, e) refl)

module _ (a : Queues) where
  drain_steer-fields :
      ((drain_steer a).0 ≡ inputs_of a.steer)
      × ((drain_steer a).1.steer ≡ [])
      × ((drain_steer a).1.follow_ups ≡ a.follow_ups)
  unfolding drain_steer take_steer
  drain_steer-fields = elim (List-cases a.steer) [
    | inl e ↦ (refl, rw e refl, rw e refl)
    | inr (x, xs, e) ↦ (refl, rw e refl, rw e refl)
  ]

  drain_last-fields :
      ((drain_last a).0 ≡ waiting a)
      × ((drain_last a).1.steer ≡ [])
      × ((drain_last a).1.follow_ups ≡ [])
  unfolding drain_last take_steer
  drain_last-fields = elim (List-cases a.steer) [
    | inl e ↦ ground (arith, e)
    | inr (x, xs, e) ↦ ground (arith, e)
  ]

  close-fields : ((close a).1.steer ≡ a.steer) × ((close a).1.follow_ups ≡ a.follow_ups)
  unfolding close
  close-fields = elim (Bool-cases a.closing) [
    | inl e ↦ rw e (refl, refl)
    | inr e ↦ rw e (refl, refl)
  ]

nothing_new : (b : Bool) (a : Queues) → of b (waiting a) ≡ of b (waiting a) ++ of b []
nothing_new b a = sym (append-nil _)

follow_ups_first :
    (b : Bool) (a : Queues)
    → IsSorted a
    → of b (inputs_of a.follow_ups) ++ of b (inputs_of a.steer) ≡ of b (waiting a)
follow_ups_first true a h = rw (of-append true, h.0) (append-nil _)
follow_ups_first false a h = rw (of-append false, h.1) (sym (append-nil _))

step-Conserves : (op : Op) (a : Queues) → IsSorted a → Conserves op a (step op a)
unfolding step enqueue drain_follow_up
step-Conserves (accepts trigger queue_steer outside items) a h =
    let (s, f, _) = queue-steer trigger steered outside items a in
    let e = entries_early trigger steered items λ x. refl in
    elim (Bool-cases (trigger_refused trigger)) [
      | inl r ↦ rw (r, enqueue) (h, λ b. nothing_new b a)
      | inr r ↦
          rw (r, enqueue)
            (
              steer_grows-IsSorted a h _ (queue trigger queue_steer steered outside items a) s f e,
              steer_grows a h _ (queue trigger queue_steer steered outside items a) s f e,
            )
    ]
step-Conserves (accepts trigger queue_follow_up outside items) a h =
    let (s, f, _) = queue-follow_up trigger follow_up outside items a in
    let e = entries_late trigger items in
    elim (Bool-cases (trigger_refused trigger)) [
      | inl r ↦ rw (r, enqueue) (h, λ b. nothing_new b a)
      | inr r ↦
          rw (r, enqueue)
            (
              follow_ups_grow-IsSorted a h _
                  (queue trigger queue_follow_up follow_up outside items a) s f e,
              follow_ups_grow a h _ (queue trigger queue_follow_up follow_up outside items a) s f e,
            )
    ]
step-Conserves (delivers trigger outside items) a h =
    let (s, f, _) = queue-steer trigger deliver outside items a in
    let e = entries_early trigger deliver items λ x. refl in
    (
      steer_grows-IsSorted a h _ (queue trigger queue_steer deliver outside items a) s f e,
      steer_grows a h _ (queue trigger queue_steer deliver outside items a) s f e,
    )
step-Conserves takes a h =
    let (o, s, f) = drain_steer-fields a in
    (rw (s, f) (refl, h.1), λ b. rw (o, s, f, of-append b, append-nil) refl)
step-Conserves takes_follow_ups a h =
    ((h.0, refl), λ b. rw (append-nil, append-nil) (follow_ups_first b a h))
step-Conserves takes_last a h =
    let (o, s, f) = drain_last-fields a in (rw (s, f) (refl, refl), λ b. rw (o, s, f) refl)
step-Conserves closes a h =
    let (s, f) = close-fields a in (rw (s, f) h, λ b. rw (s, f) (nothing_new b a))

-- Whatever the interleaving of accepts, deliveries, drains and closes, every item that is accepted
-- is handed to a turn at most once and none is lost: of steers and deliveries, and of follow-ups,
-- what the drains hand out followed by what still waits is what waited at the start followed by what
-- was accepted, in that order. The two queues hold their own kinds at the start.
pub steps-accepted :
    (ops : List Op) (a : Queues)
    → IsSorted a
    → (b : Bool)
    → of b (steps ops a).0 ++ of b (waiting (steps ops a).1)
      ≡ of b (waiting a) ++ of b (accepted_by ops)
unfolding steps
steps-accepted [] a h b = sym (append-nil _)
steps-accepted (op ∷ ops) a h b =
    let (sorted, here) = step-Conserves op a h in
    let there = steps-accepted ops (step op a).1 sorted b in
    rw (of-append b (step op a).0, of-append b (accepted op))
      (append_assoc (of b (step op a).0) _ _
        ∙ ap (λ xs. of b (step op a).0 ++ xs) there
        ∙ sym (append_assoc (of b (step op a).0) _ _)
        ∙ ap (λ xs. xs ++ of b (accepted_by ops)) (here b)
        ∙ append_assoc (of b (waiting a)) _ _)

-- A run's last drain hands over everything in both queues, steers first, leaves them empty, and marks
-- the run as closing exactly when there was nothing to hand over: no item that was accepted before it
-- is left behind a run that closes.
pub drain_last-waiting :
    (a : Queues)
    → ((drain_last a).0 ≡ waiting a)
      × (waiting (drain_last a).1 ≡ [])
      × ((drain_last a).1.closing ≡ (a.closing || is_empty (waiting a)))
unfolding drain_last take_steer inputs_of
drain_last-waiting a = elim (List-cases a.steer) [
  | inl e ↦ elim (List-cases a.follow_ups) [
    | inl f ↦ ground (arith, e, f)
    | inr (x, xs, f) ↦ ground (arith, e, f)
  ]
  | inr (x, xs, e) ↦ ground (arith, e)
]

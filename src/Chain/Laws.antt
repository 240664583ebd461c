-- ===== src/Chain/Laws.antt =====
-- chain.go: what it means to join two chains, for the chains of every hook but the tool hook.
use agentturn.Base.{
  ◌≡◌, refl, ap, sym, ◌∙◌, Bool, true, false, ◌++◌, List, [], ◌∷◌, Option, none, some, Result, ok,
  err, arith, Result-cases, inl, inr, append-nil, append_assoc,
}
use agentturn.Chain.{
  kept, chained, BeforeModelCall, run_before_model_call, chain_before_model_call, Transform,
  run_transform, chain_transform, BeforeTurn, run_before_turn, chain_before_turn, ShouldStop,
  run_should_stop, chain_should_stop_after_turn, OutputGuard, run_output_guard, chain_output_guard,
}

-- Going on after a chain that did not end by itself.
module _ {W Err A : Type 0} where
  abbrev pub and_then : Result Err A × W → (A → W → Result Err A × W) → Result Err A × W
  and_then (ok a, w) next = next a w
  and_then (err e, w) next = (err e, w)

  abbrev pub after_items : List A → Result Err (List A) × W → Result Err (List A) × W
  after_items items (ok more, w) = (ok (items ++ more), w)
  after_items items (err e, w) = (err e, w)

  abbrev pub and_gather :
      Result Err (List A) × W → (W → Result Err (List A) × W) → Result Err (List A) × W
  and_gather (ok items, w) next = after_items items (next w)
  and_gather (err e, w) next = (err e, w)

  -- A later replacement stands over an earlier one.
  abbrev pub or_keep : A → Result Err (Option A) × W → Result Err (Option A) × W
  or_keep a (ok none, w) = (ok (some a), w)
  or_keep a (ok (some b), w) = (ok (some b), w)
  or_keep a (err e, w) = (err e, w)

  -- The second chain sees the first one's replacement.
  abbrev pub and_replace :
      A
      → Result Err (Option A) × W
      → (A → W → Result Err (Option A) × W)
      → Result Err (Option A) × W
  and_replace a (ok none, w) next = next a w
  and_replace a (ok (some b), w) next = or_keep b (next b w)
  and_replace a (err e, w) next = (err e, w)

module _ {W Err : Type 0} where
  abbrev pub until_true : Result Err Bool × W → (W → Result Err Bool × W) → Result Err Bool × W
  until_true (ok false, w) next = next w
  until_true (ok true, w) next = (ok true, w)
  until_true (err e, w) next = (err e, w)

  abbrev pub until_error : Option Err × W → (W → Option Err × W) → Option Err × W
  until_error (none, w) next = next w
  until_error (some e, w) next = (some e, w)

module _ {ℓ} {A : Type ℓ} where
  pub kept-append : (xs ys : List (Option A)) → kept (xs ++ ys) ≡ kept xs ++ kept ys
  kept-append [] ys = refl
  kept-append (none ∷ xs) ys = kept-append xs ys
  kept-append (some fn ∷ xs) ys = ap (◌∷◌ fn) (kept-append xs ys)

  -- A chain that is not nil runs its functions.
  pub chained-eq :
      (run : List A → A) (fns : List A) {f : A} → chained run fns ≡ some f → f ≡ run fns
  chained-eq run [] e = cc
  chained-eq run (fn ∷ fns) e = cc

  pub chained-append :
      (run : List A → A) (xs ys : List A) {f : A}
      → chained run xs ≡ some f
      → chained run (xs ++ ys) ≡ some (run (xs ++ ys))
  chained-append run [] ys e = cc
  chained-append run (x ∷ xs) ys e = refl

module _ {W Err : Type 0} where
  model_call-append :
      (xs ys : List (BeforeModelCall W Err)) (w : W)
      → run_before_model_call (xs ++ ys) w
        ≡ until_error (run_before_model_call xs w) (run_before_model_call ys)
  unfolding run_before_model_call
  model_call-append [] ys w = refl
  model_call-append (fn ∷ xs) ys w = ground (arith, model_call-append xs ys (fn w).1)

  transform-append :
      {T : Type 0} (xs ys : List (Transform W Err T)) (t : T) (w : W)
      → run_transform (xs ++ ys) t w ≡ and_then (run_transform xs t w) (run_transform ys)
  unfolding run_transform
  transform-append [] ys t w = refl
  transform-append (fn ∷ xs) ys t w = elim (Result-cases (fn t w).0) [
    | inl (t', e) ↦ ground (arith, e, transform-append xs ys t' (fn t w).1)
    | inr (_, e) ↦ ground (arith, e)
  ]

  should_stop-append :
      {Info : Type 0} (xs ys : List (ShouldStop W Err Info)) (info : Info) (w : W)
      → run_should_stop (xs ++ ys) info w
        ≡ until_true (run_should_stop xs info w) (run_should_stop ys info)
  unfolding run_should_stop
  should_stop-append [] ys info w = refl
  should_stop-append (fn ∷ xs) ys info w =
      ground (arith, should_stop-append xs ys info (fn info w).1)

  before_turn-after_items :
      {Info Item : Type 0} (ys : List (BeforeTurn W Err Info Item)) (pre items : List Item)
      (info : Info) (w : W)
      → run_before_turn (pre ++ items) ys info w ≡ after_items pre (run_before_turn items ys info w)
  unfolding run_before_turn
  before_turn-after_items [] pre items info w = refl
  before_turn-after_items (fn ∷ ys) pre items info w = elim (Result-cases (fn info w).0) [
    | inl (got, e) ↦ ground (
      arith,
      e,
      append_assoc pre items got,
      before_turn-after_items ys pre (items ++ got) info (fn info w).1,
    )
    | inr (_, e) ↦ ground (arith, e)
  ]

  before_turn-append :
      {Info Item : Type 0} (xs ys : List (BeforeTurn W Err Info Item)) (items : List Item)
      (info : Info) (w : W)
      → run_before_turn items (xs ++ ys) info w
        ≡ and_gather (run_before_turn items xs info w) (run_before_turn [] ys info)
  unfolding run_before_turn
  before_turn-append [] ys items info w =
      ground (arith, append-nil items, before_turn-after_items ys items [] info w)
  before_turn-append (fn ∷ xs) ys items info w = elim (Result-cases (fn info w).0) [
    | inl (got, e) ↦ ground (arith, e, before_turn-append xs ys (items ++ got) info (fn info w).1)
    | inr (_, e) ↦ ground (arith, e)
  ]

  module _ {Message : Type 0} where
    output_guard-or_keep :
        (ys : List (OutputGuard W Err Message)) (b message : Message) (w : W)
        → run_output_guard (some b) ys message w ≡ or_keep b (run_output_guard none ys message w)
    unfolding run_output_guard
    output_guard-or_keep [] b message w = refl
    output_guard-or_keep (fn ∷ ys) b message w = elim (Result-cases (fn message w).0) [
      | inl (none, e) ↦ ground (arith, e, output_guard-or_keep ys b message (fn message w).1)
      | inl (some m, e) ↦ ground (arith, e, output_guard-or_keep ys m m (fn message w).1)
      | inr (_, e) ↦ ground (arith, e)
    ]

    and_replace-or_keep :
        (a b : Message) (r : Result Err (Option Message) × W)
        (next : Message → W → Result Err (Option Message) × W)
        → and_replace a (or_keep b r) next ≡ or_keep b (and_replace b r next)
    and_replace-or_keep a b (ok none, w) next = refl
    and_replace-or_keep a b (ok (some c), w) next = ground arith
    and_replace-or_keep a b (err e, w) next = refl

    output_guard-append :
        (xs ys : List (OutputGuard W Err Message)) (message : Message) (w : W)
        → run_output_guard none (xs ++ ys) message w
          ≡ and_replace message (run_output_guard none xs message w) (run_output_guard none ys)
    unfolding run_output_guard
    output_guard-append [] ys message w = refl
    output_guard-append (fn ∷ xs) ys message w = elim (Result-cases (fn message w).0) [
      | inl (none, e) ↦ ground (arith, e, output_guard-append xs ys message (fn message w).1)
      | inl (some m, e) ↦
          rw (e, run_output_guard)
            (output_guard-or_keep (xs ++ ys) m m (fn message w).1
              ∙ ap (or_keep m) (output_guard-append xs ys m (fn message w).1)
              ∙ sym (
                  and_replace-or_keep message m (run_output_guard none xs m (fn message w).1)
                    (run_output_guard none ys))
              ∙ ap (λ r. and_replace message r (run_output_guard none ys))
                  (sym (output_guard-or_keep xs m m (fn message w).1)))
      | inr (_, e) ↦ ground (arith, e)
    ]

module _ {ℓ κ} {A : Type ℓ} (run : List A → A) (Joined : A → A → A → Type κ)
    (joined : (xs ys : List A) → Joined (run xs) (run ys) (run (xs ++ ys))) where
  -- From the runs to the chains: both are not nil, and so neither is the chain of all.
  chain-append :
      (xs ys : List (Option A)) {f g : A}
      → chained run (kept xs) ≡ some f
      → chained run (kept ys) ≡ some g
      → (h : A) × (chained run (kept (xs ++ ys)) ≡ some h) × Joined f g h
  chain-append xs ys {f} {g} p q = (
    run (kept xs ++ kept ys),
    rw (kept-append xs ys) (chained-append run (kept xs) (kept ys) p),
    rw (chained-eq run (kept xs) p, chained-eq run (kept ys) q) (joined (kept xs) (kept ys)),
  )

module _ {W Err : Type 0} where
  -- Two chains of transforms joined, nil functions skipped, are one chain: it runs the second on
  -- what the first returned, and the first error ends it with nothing after it run.
  pub chain_transform-append :
      {T : Type 0} (xs ys : List (Option (Transform W Err T))) {f g : Transform W Err T}
      → chain_transform xs ≡ some f
      → chain_transform ys ≡ some g
      → (h : Transform W Err T) × (chain_transform (xs ++ ys) ≡ some h)
        × ((t : T) (w : W) → h t w ≡ and_then (f t w) g)
  unfolding chain_transform
  chain_transform-append xs ys =
      chain-append run_transform (λ f g h. (t : _) (w : W) → h t w ≡ and_then (f t w) g)
        (λ xs ys t w. transform-append xs ys t w) xs ys

  -- Two chains of should-stop hooks joined are one chain: the second is asked only where the first
  -- ended with false and no error, so the first true or error ends it with nothing after it run.
  pub chain_should_stop-append :
      {Info : Type 0} (xs ys : List (Option (ShouldStop W Err Info))) {f g : ShouldStop W Err Info}
      → chain_should_stop_after_turn xs ≡ some f
      → chain_should_stop_after_turn ys ≡ some g
      → (h : ShouldStop W Err Info) × (chain_should_stop_after_turn (xs ++ ys) ≡ some h)
        × ((info : Info) (w : W) → h info w ≡ until_true (f info w) (g info))
  unfolding chain_should_stop_after_turn
  chain_should_stop-append xs ys =
      chain-append run_should_stop
        (λ f g h. (info : _) (w : W) → h info w ≡ until_true (f info w) (g info))
        (λ xs ys info w. should_stop-append xs ys info w) xs ys

  -- Two chains of before-model hooks joined are one chain: the second runs, on the request as the
  -- first left it, only where the first ended with no error.
  pub chain_before_model_call-append :
      (xs ys : List (Option (BeforeModelCall W Err))) {f g : BeforeModelCall W Err}
      → chain_before_model_call xs ≡ some f
      → chain_before_model_call ys ≡ some g
      → (h : BeforeModelCall W Err) × (chain_before_model_call (xs ++ ys) ≡ some h)
        × ((w : W) → h w ≡ until_error (f w) g)
  unfolding chain_before_model_call
  chain_before_model_call-append xs ys =
      chain-append run_before_model_call (λ f g h. (w : W) → h w ≡ until_error (f w) g)
        (λ xs ys w. model_call-append xs ys w) xs ys

  -- Two chains of before-turn hooks joined are one chain: it returns the first one's items and then
  -- the second one's, and none of them where either fails.
  pub chain_before_turn-append :
      {Info Item : Type 0} (xs ys : List (Option (BeforeTurn W Err Info Item)))
      {f g : BeforeTurn W Err Info Item}
      → chain_before_turn xs ≡ some f
      → chain_before_turn ys ≡ some g
      → (h : BeforeTurn W Err Info Item) × (chain_before_turn (xs ++ ys) ≡ some h)
        × ((info : Info) (w : W) → h info w ≡ and_gather (f info w) (g info))
  unfolding chain_before_turn
  chain_before_turn-append xs ys =
      chain-append (run_before_turn [])
        (λ f g h. (info : _) (w : W) → h info w ≡ and_gather (f info w) (g info))
        (λ xs ys info w. before_turn-append xs ys [] info w) xs ys

  -- Two chains of output guards joined are one chain: the second sees the first one's replacement
  -- where there is one, the last replacement stands, and the first error ends it.
  pub chain_output_guard-append :
      {Message : Type 0} (xs ys : List (Option (OutputGuard W Err Message)))
      {f g : OutputGuard W Err Message}
      → chain_output_guard xs ≡ some f
      → chain_output_guard ys ≡ some g
      → (h : OutputGuard W Err Message) × (chain_output_guard (xs ++ ys) ≡ some h)
        × ((m : Message) (w : W) → h m w ≡ and_replace m (f m w) g)
  unfolding chain_output_guard
  chain_output_guard-append xs ys =
      chain-append (run_output_guard none)
        (λ f g h. (m : _) (w : W) → h m w ≡ and_replace m (f m w) g)
        (λ xs ys m w. output_guard-append xs ys m w) xs ys

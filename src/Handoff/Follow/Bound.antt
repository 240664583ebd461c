-- ===== src/Handoff/Follow/Bound.antt =====
-- handoff/handoff.go: the handoffs that follow takes, and that it comes to an end.
use mathlib.Core.List.{◌++◌ as append}
use agentturn.Base.{
  ℕ, zero, suc, ◌+◌, ◌-◌, ◌≤◌, ◌<◌, Bool, not, ◌||◌, List, [], ◌∷◌, Option, none, some, String, ◌≡◌,
  ◌≢◌, refl, sym, ap, arith, nat_eq, is_some, length, length-append, by_if, by_option, inl, inr,
  ◌⊎◌, true,
}
use agentturn.Items.{Item, Input}
use agentturn.Loop.Pending.{can_continue}
use agentturn.Handoff.{Config, Team}
use agentturn.Handoff.Taken.{find_filter, trim, inherit}
use agentturn.Handoff.Follow.Delivery.{is_over, Delivers, continue_run-delivers, run_receiver-le}
use agentturn.Handoff.Follow.{
  TeamAgent, steering, Standing, Moved, over, on, limit, run_receiver, ran, past_limit, receive,
  failed, switch_config, switch, deliver_or_end, follow_once, follow, handoff, terminated, run,
}

-- The following came to an end, with so many agents that had the conversation at most.
abbrev pub Followed : {W Err : Type 0} → ℕ → Option (Standing W Err) → Type 0
Followed {W} {Err} agents out = (r : Standing W Err) × (out ≡ some r) × (length r.path ≤ agents)

module _ {W Err Ctx : Type 0} (agent : TeamAgent W Err Ctx) (team : Team Ctx) (left : W → ℕ)
    (delivers : Delivers agent left) where
  abbrev most : ℕ
  most = limit agent team

  -- The rounds that may follow.
  abbrev rounds : Standing W Err → ℕ
  rounds s = most - s.followed + left s.world

  abbrev stops : Standing W Err → Bool
  stops s = is_over (s.end, s.err)

  -- What a round does: it ends with one agent more at most, or goes on, with fewer rounds to come or to
  -- end at the next.
  abbrev Moves : Standing W Err → Moved W Err → Type 0
  Moves s (over r) = length r.path ≤ length s.path + 1
  Moves s (on s') =
      (s'.followed ≤ most)
      × ((rounds s' < rounds s) ⊎ (stops s' ≡ true))
      × (length s'.path + s.followed ≤ length s.path + s'.followed)

  longer : (xs : List String) (x : String) → length (append xs (x ∷ [])) ≡ length xs + 1
  longer xs x = omega (arith, length-append {0} xs (x ∷ []))

  past_limit-path :
      (kept received : Standing W Err)
      → kept.path ≡ received.path
      → (past_limit agent team kept received).path ≡ kept.path
  past_limit-path kept received e =
      by_if (λ (r : Standing W Err). r.path ≡ kept.path) (nat_eq (steering agent team kept.world) 0)
        (λ b. refl) (λ b. sym e)

  receive-Moves :
      (from to : Config Ctx) (s : Standing W Err)
      → s.followed ≤ most
      → Moves s (receive agent team from to s)
  unfolding receive
  receive-Moves from to s k =
      let path = append s.path (to.name ∷ []) in
      let noted = not (can_continue (agent.transcript s.world)) in
      let out = run_receiver agent team noted from to s.world in
      let kept : Standing W Err = record s { path = path } in
      let received : Standing W Err = ran agent team s.followed path out in
      by_if (Moves s) (nat_eq s.followed most)
        (λ e.
          omega
            (arith, longer s.path to.name, ap (λ p. length p) (past_limit-path kept received refl)))
        (λ e.
          let below : s.followed < most = ground (arith, e) in
          let fewer = run_receiver-le agent team left delivers noted from to s.world in
          (omega arith, inl (omega arith), omega (arith, longer s.path to.name)))

  Moves-world :
      (s : Standing W Err) (w : W) (m : Moved W Err)
      → left w ≤ left s.world
      → Moves (record s { world = w }) m
      → Moves s m
  Moves-world s w (over r) l h = h
  Moves-world s w (on s') l (within, inl fewer, longer) = (within, inl (omega arith), longer)
  Moves-world s w (on s') l (within, inr stop, longer) = (within, inr stop, longer)

  failed-Moves : (s : Standing W Err) (x : Err) (w : W) → Moves s (failed agent team s x w)
  failed-Moves s x w = omega arith

  switch_config-Moves :
      (from to : Config Ctx) (s : Standing W Err)
      → s.followed ≤ most
      → Moves s (switch_config agent team from to s)
  switch_config-Moves from to s k =
      let w = (agent.set_config (inherit to from) s.world).1 in
      by_option (Moves s) (agent.set_config (inherit to from) s.world).0
        (λ e.
          Moves-world s w (receive agent team from to (record s { world = w }))
            (delivers.switched (inherit to from) s.world)
            (receive-Moves from to (record s { world = w }) k))
        (λ x e. failed-Moves s x w)

  switch-Moves :
      (to : Config Ctx) (s : Standing W Err) → s.followed ≤ most → Moves s (switch agent team to s)
  unfolding switch
  switch-Moves to s k =
      let from = agent.config s.world in
      let t = trim team from to (agent.transcript s.world) in
      let w = (agent.set_transcript t s.world).1 in
      by_if (Moves s) (not (is_some (find_filter team from.name to.name team.filters)))
        (λ e. switch_config-Moves from to s k)
        (λ e.
          by_option (Moves s) (agent.set_transcript t s.world).0
            (λ f.
              Moves-world s w (switch_config agent team from to (record s { world = w }))
                (delivers.trimmed t s.world)
                (switch_config-Moves from to (record s { world = w }) k))
            (λ x f. failed-Moves s x w))

  deliver-Moves : (s : Standing W Err) → s.followed ≤ most → Moves s (deliver_or_end agent team s)
  deliver-Moves s k =
      by_if (Moves s) (nat_eq (steering agent team s.world) 0) (λ e. omega arith)
        (λ e.
          let waits : agent.steer s.world ≢ [] =
            λ empty. ground (arith, e, ap (λ (q : List Input). length q) empty) in
          elim (continue_run-delivers agent team left delivers s.world waits) [
            | inl fewer ↦ (k, inl (omega arith), omega arith)
            | inr stop ↦ (k, inr stop, omega arith)
          ])

  follow_once-Moves : (s : Standing W Err) → s.followed ≤ most → Moves s (follow_once agent team s)
  unfolding follow_once
  follow_once-Moves s k =
      by_if (Moves s) (is_some s.err || not (terminated s.end)) (λ e. omega arith)
        (λ e.
          by_option (Moves s) (handoff agent team s.end) (λ f. deliver-Moves s k)
            (λ to f. switch-Moves to s k))

  follow_once-over : (s : Standing W Err) → stops s ≡ true → follow_once agent team s ≡ over s
  unfolding follow_once
  follow_once-over s e = ground (arith, e)

  follow-over :
      (fuel : ℕ) (s : Standing W Err)
      → stops s ≡ true
      → 0 < fuel
      → follow agent team fuel s ≡ some s
  unfolding follow
  follow-over zero s e h = absurd (omega arith)
  follow-over (suc fuel) s e h = rw (follow_once-over s e, follow) refl

  moved-Followed :
      (fuel : ℕ) (s : Standing W Err) (agents : ℕ) (m : Moved W Err)
      → follow_once agent team s ≡ m
      → Moves s m
      → 0 < fuel
      → length s.path + (most - s.followed) + 1 ≤ agents
      → ((s' : Standing W Err)
          → s'.followed ≤ most
          → rounds s' < rounds s
          → length s'.path + (most - s'.followed) + 1 ≤ agents
          → Followed agents (follow agent team fuel s'))
      → Followed agents (follow agent team (suc fuel) s)
  unfolding follow
  moved-Followed fuel s agents (over r) e p more b rest = (r, rw (e, follow) refl, omega arith)
  moved-Followed fuel s agents (on s') e (within, inl fewer, longer) more b rest =
      let (r, f, few) = rest s' within fewer (omega arith) in (r, rw (e, follow) f, few)
  moved-Followed fuel s agents (on s') e (within, inr stop, longer) more b rest =
      (s', rw (e, follow) (follow-over fuel s' stop more), omega arith)

  follow-Followed :
      (fuel : ℕ) (s : Standing W Err) (agents : ℕ)
      → s.followed ≤ most
      → rounds s + 1 < fuel
      → length s.path + (most - s.followed) + 1 ≤ agents
      → Followed agents (follow agent team fuel s)
  follow-Followed zero s agents k h b = absurd (omega arith)
  follow-Followed (suc fuel) s agents k h b =
      moved-Followed fuel s agents (follow_once agent team s) refl (follow_once-Moves s k)
        (omega arith) b
        (λ s' within fewer few. follow-Followed fuel s' agents within (omega arith) few)

-- Where the deliveries that the agent is still to take are finitely many, and a run that Continue
-- starts while one waits takes one before it can end on a result that terminates, Run comes to an end,
-- whether its calls of Continue start a run or fail: with fuel for as many rounds as there are handoffs
-- in the bound and deliveries, with two more. And the agents that had the conversation are then at most
-- two more than the bound: the first, the receivers of the handoffs followed, and the receiver of the
-- one that is taken and not followed.
pub run-Followed :
    {W Err Ctx : Type 0} (agent : TeamAgent W Err Ctx) (team : Team Ctx) (left : W → ℕ)
    → Delivers agent left
    → (item : Item) (w : W)
    → Followed (limit agent team + 2) (run agent team (limit agent team + left w + 2) item w)
unfolding run
run-Followed agent team left delivers item w =
    let s : Standing _ _ =
      ran agent team 0 ((agent.config w).name ∷ []) (agent.prompt none item w) in
    follow-Followed agent team left delivers (limit agent team + left w + 2) s
      (limit agent team + 2) (omega arith) (omega (arith, delivers.prompted none item w))
      (omega arith)

-- ===== src/Handoff/Follow/Delivery.antt =====
-- agent.go and handoff/handoff.go: what the runs that Continue starts do to the deliveries still to be
-- taken.
use agentturn.Base.{
  ℕ, ◌≤◌, ◌<◌, Bool, not, ◌||◌, List, [], none, Option, ◌≡◌, ◌≢◌, refl, arith, is_some, by_if,
  Bool-cases, inl, inr, ◌⊎◌, true, false,
}
use agentturn.Items.{Item, Trigger}
use agentturn.Handoff.{Config, Team}
use agentturn.Handoff.Follow.{Ended, TeamAgent, can_start, continue_run, run_receiver, terminated}

-- Whether follow ends with what the run returned.
abbrev pub is_over : {Err : Type 0} → Ended Err → Bool
is_over (end, e) = is_some e || not (terminated end)

-- `left` counts the deliveries that the agent is still to take: nothing raises it, and a run that is
-- started while some wait, and ends without an error on a result that terminates, took one in its first
-- turn and lowers it.
pub record Delivers {W Err Ctx : Type 0} (agent : TeamAgent W Err Ctx) (left : W → ℕ) : Type 0 where
  pub delivered :
      (w : W)
      → agent.steer w ≢ []
      → is_over (agent.start_run none w).0 ≡ false
      → left (agent.start_run none w).1 < left w
  pub started : (t : Option Trigger) (w : W) → left (agent.start_run t w).1 ≤ left w
  pub prompted : (t : Option Trigger) (i : Item) (w : W) → left (agent.prompt t i w).1 ≤ left w
  pub trimmed : (t : List Item) (w : W) → left (agent.set_transcript t w).1 ≤ left w
  pub switched : (cfg : Config Ctx) (w : W) → left (agent.set_config cfg w).1 ≤ left w
  pub made : (w : W) → left (agent.new_ref w).1 ≤ left w

module _ {W Err Ctx : Type 0} (agent : TeamAgent W Err Ctx) (team : Team Ctx) (left : W → ℕ)
    (delivers : Delivers agent left) where
  continue_run-le : (t : Option Trigger) (w : W) → left (continue_run agent team t w).1 ≤ left w
  unfolding continue_run
  continue_run-le t w =
      by_if (λ (out : Ended Err × W). left out.1 ≤ left w) (agent.has_pending w) (λ e. omega arith)
        (λ e.
          by_if (λ (out : Ended Err × W). left out.1 ≤ left w) (not (can_start agent team w))
            (λ f. omega arith) (λ f. delivers.started t w))

  -- A delivery that waits is taken, or Continue ends the following.
  pub continue_run-delivers :
      (w : W)
      → agent.steer w ≢ []
      → (left (continue_run agent team none w).1 < left w)
        ⊎ (is_over (continue_run agent team none w).0 ≡ true)
  unfolding continue_run
  continue_run-delivers w waits =
      let Taken : Ended Err × W → Type 0 = λ out. (left out.1 < left w) ⊎ (is_over out.0 ≡ true) in
      by_if Taken (agent.has_pending w) (λ e. inr refl)
        (λ e.
          by_if Taken (not (can_start agent team w)) (λ f. inr refl)
            (λ f. elim (Bool-cases (is_over (agent.start_run none w).0)) [
              | inl over_now ↦ inr over_now
              | inr goes_on ↦ inl (delivers.delivered w waits goes_on)
            ]))

  pub run_receiver-le :
      (noted : Bool) (from to : Config Ctx) (w : W)
      → left (run_receiver agent team noted from to w).1 ≤ left w
  unfolding run_receiver
  run_receiver-le noted from to w =
      by_if (λ (out : Ended Err × W). left out.1 ≤ left w) noted
        (λ e. omega (arith, delivers.made w, delivers.prompted _ _ (agent.new_ref w).1))
        (λ e. continue_run-le _ w)

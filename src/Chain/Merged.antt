-- ===== src/Chain/Merged.antt =====
-- chain.go: what merging decisions keeps of each.
use mathlib.Core.Bool.{true≢false}
use agentturn.Base.{
  ℕ, max, ◌≡◌, refl, ap, sym, ◌∙◌, ◌⊎◌, inl, inr, Bool, true, false, not, ◌&&◌, ◌||◌, ◌++◌, List,
  [], ◌∷◌, Option, none, some, arith, Bool-cases, all, any,
}
use agentturn.Chain.Decision.{ToolDecision, strictness, merge, is_block, is_defer}
use agentturn.Chain.{fold_decision}

-- One decision is no stricter than two, and held only where every deferral holds.
abbrev pub holds : ToolDecision → Bool
holds d = not (is_defer d.action) || d.held

merge-strictness :
    (d e : ToolDecision)
    → strictness (merge d e).action ≡ max (strictness d.action) (strictness e.action)
unfolding merge strictness
merge-strictness d e = ground arith

merge-terminate : (d e : ToolDecision) → (merge d e).terminate ≡ (d.terminate || e.terminate)
unfolding merge strictness
merge-terminate d e = ground arith

merge-holds :
    (d e : ToolDecision)
    → is_block (merge d e).action ≡ false
    → holds (merge d e) ≡ (holds d && holds e)
unfolding merge strictness
merge-holds d e = ground arith

-- The strictness of the strictest of some decisions.
abbrev pub strictest : List ToolDecision → ℕ
strictest [] = 0
strictest (d ∷ ds) = max (strictness d.action) (strictest ds)

abbrev pub last_or : ToolDecision → List ToolDecision → ToolDecision
last_or e [] = e
last_or e (d ∷ ds) = last_or d ds

-- What a list of decisions amounts to, apart from how a chain folds it.
pub record Stands (ds : List ToolDecision) (d : ToolDecision) : Type 0 where
  pub strict : strictness d.action ≡ strictest ds
  pub terminates : d.terminate ≡ any (λ e. e.terminate) ds
  pub asked_about : (is_block d.action ≡ true) ⊎ (holds d ≡ all holds ds)
  -- A block is explained by the last decision, which is the one that blocked.
  pub explained :
      (is_block d.action ≡ false)
      ⊎ ((d.reason ≡ (last_or d ds).reason) × (d.by ≡ (last_or d ds).by))

abbrev pub StandsOption : List ToolDecision → Option ToolDecision → Type 0
StandsOption ds none = ds ≡ []
StandsOption ds (some d) = Stands ds d

strictest-append :
    (ds : List ToolDecision) (e : ToolDecision)
    → strictest (ds ++ e ∷ []) ≡ max (strictest ds) (strictness e.action)
unfolding strictness
strictest-append [] e = ground arith
strictest-append (d ∷ ds) e = ground (arith, strictest-append ds e)

any-append :
    (p : ToolDecision → Bool) (ds : List ToolDecision) (e : ToolDecision)
    → any p (ds ++ e ∷ []) ≡ (any p ds || p e)
any-append p [] e = ground arith
any-append p (d ∷ ds) e = ground (arith, any-append p ds e)

all-append :
    (p : ToolDecision → Bool) (ds : List ToolDecision) (e : ToolDecision)
    → all p (ds ++ e ∷ []) ≡ (all p ds && p e)
all-append p [] e = ground arith
all-append p (d ∷ ds) e = ground (arith, all-append p ds e)

block_above : (d e : ToolDecision) → is_block (merge d e).action ≡ false → is_block d.action ≡ false
unfolding merge strictness
block_above d e h = ground arith

last_or-append :
    (x : ToolDecision) (ds : List ToolDecision) (e : ToolDecision) → last_or x (ds ++ e ∷ []) ≡ e
last_or-append x [] e = refl
last_or-append x (d ∷ ds) e = last_or-append d ds e

merge-explained :
    (d e : ToolDecision)
    → is_block d.action ≡ false
    → is_block (merge d e).action ≡ true
    → ((merge d e).reason ≡ e.reason) × ((merge d e).by ≡ e.by)
unfolding merge strictness
merge-explained d e h k = ground arith

abbrev pub Goes : Option ToolDecision → Type 0
Goes none = Unit {0}
Goes (some d) = is_block d.action ≡ false

merge-asked_about :
    (ds : List ToolDecision) (d e : ToolDecision)
    → Stands ds d
    → (is_block (merge d e).action ≡ true) ⊎ (holds (merge d e) ≡ all holds (ds ++ e ∷ []))
merge-asked_about ds d e s = elim (Bool-cases (is_block (merge d e).action)) [
  | inl b ↦ inl b
  | inr b ↦ inr (elim s.asked_about [
    | inl c ↦ absurd (true≢false (sym c ∙ block_above d e b))
    | inr h ↦ merge-holds d e b ∙ ap (λ x. x && holds e) h ∙ sym (all-append holds ds e)
  ])
]

merge-explained_by :
    (ds : List ToolDecision) (d e : ToolDecision)
    → is_block d.action ≡ false
    → (is_block (merge d e).action ≡ false)
      ⊎ (((merge d e).reason ≡ (last_or (merge d e) (ds ++ e ∷ [])).reason)
          × ((merge d e).by ≡ (last_or (merge d e) (ds ++ e ∷ [])).by))
merge-explained_by ds d e g = elim (Bool-cases (is_block (merge d e).action)) [
  | inl b ↦ inr (rw (last_or-append (merge d e) ds e) (merge-explained d e g b))
  | inr b ↦ inl b
]

pub fold_decision-Stands :
    (ds : List ToolDecision) (out : Option ToolDecision) (e : ToolDecision)
    → Goes out
    → StandsOption ds out
    → Stands (ds ++ e ∷ []) (fold_decision out e)
fold_decision-Stands ds none e g s = rw s (record {
  strict = ground arith;
  terminates = ground arith;
  asked_about = inr (ground arith);
  explained = inr (refl, refl);
})
fold_decision-Stands ds (some d) e g s = record {
  strict =
      merge-strictness d e
      ∙ ap (λ n. max n (strictness e.action)) s.strict
      ∙ sym (strictest-append ds e);
  terminates =
      merge-terminate d e
      ∙ ap (λ b. b || e.terminate) s.terminates
      ∙ sym (any-append (λ x. x.terminate) ds e);
  asked_about = merge-asked_about ds d e s;
  explained = merge-explained_by ds d e g;
}

-- ===== src/Handoff/Built.antt =====
-- handoff/handoff.go: what New builds: the transfer tools of a team and the agents they lead to.
use agentturn.Base.{
  Bool, true, List, [], ◌∷◌, Option, none, some, String, Result, ok, String-Comparable, lookup,
  insert, is_some, All, ◌≡◌, refl, sym, ap, ◌∙◌, subst, arith, Option-cases, Result-cases, inl, inr,
  lookup-insert, by_option,
}
use mathlib.Core.List.{◌++◌ as append}
use agentturn.Handoff.Name.{tool_name}
use agentturn.Handoff.{
  Tool, Config, To, Member, Team, TeamError, empty_team, register, refused, with_filter,
  transfer_to, add_handoffs, add_offers, offer, new,
}

module _ {Ctx : Type 0} where
  abbrev enrolled : Member Ctx → Team Ctx → Team Ctx
  enrolled a t = record t {
    configs = insert a.config.name a.config t.configs;
    tools = insert (tool_name a.config.name) a.config.name t.tools;
  }

  register_inv :
      (a : Member Ctx) (agents : List (Member Ctx)) (t u : Team Ctx)
      → register (a ∷ agents) t ≡ ok u
      → (lookup a.config.name t.configs ≡ none)
        × (lookup (tool_name a.config.name) t.tools ≡ none)
        × (register agents (enrolled a t) ≡ ok u)
  unfolding register
  register_inv a agents t u e = elim (Option-cases (lookup a.config.name t.configs)) [
    | inr (c, f) ↦ absurd (ground (arith, f))
    | inl f ↦ elim (Option-cases (lookup (tool_name a.config.name) t.tools)) [
      | inr (c, g) ↦ absurd (ground (arith, f, g))
      | inl g ↦ (f, g, ground (arith, f, g))
    ]
  ]

  -- The tools lead where they led.
  abbrev Leads : Team Ctx → Team Ctx → Type 0
  Leads t u = (tool n : String) → lookup tool t.tools ≡ some n → lookup tool u.tools ≡ some n

  enrolled-Leads :
      (a : Member Ctx) (t : Team Ctx)
      → lookup (tool_name a.config.name) t.tools ≡ none
      → Leads t (enrolled a t)
  enrolled-Leads a t e tool n f = ground (
    arith,
    f,
    lookup-insert (tool_name a.config.name) tool a.config.name t.tools,
    String-Comparable.tells_apart (tool_name a.config.name) tool,
  )

  register-Leads :
      (agents : List (Member Ctx)) (t u : Team Ctx) → register agents t ≡ ok u → Leads t u
  unfolding register
  register-Leads [] t u e tool n f =
      let same : t ≡ u = cc e in subst (λ v. lookup tool v.tools ≡ some n) same f
  register-Leads (a ∷ agents) t u e tool n f =
      let (free, unused, rest) = register_inv a agents t u e in
      register-Leads agents (enrolled a t) u rest tool n (enrolled-Leads a t unused tool n f)

  abbrev Found : Team Ctx → Member Ctx → Type 0
  Found t a = lookup (tool_name a.config.name) t.tools ≡ some a.config.name

  register-Found :
      (agents : List (Member Ctx)) (t u : Team Ctx)
      → register agents t ≡ ok u
      → All (Found u) agents
  register-Found [] t u e = tt
  register-Found (a ∷ agents) t u e =
      let (free, unused, rest) = register_inv a agents t u e in
      let name = tool_name a.config.name in
      (
        register-Leads agents (enrolled a t) u rest name a.config.name (
            ground (
              arith,
              lookup-insert name name a.config.name t.tools,
              String-Comparable.tells_apart name name,
            )),
        register-Found agents (enrolled a t) u rest,
      )

  -- Every tool is the transfer to the agent it leads to, one that the team holds.
  abbrev Known : Team Ctx → Type 0
  Known t =
      (tool n : String)
      → lookup tool t.tools ≡ some n
      → (tool ≡ tool_name n) × (is_some (lookup n t.configs) ≡ true)

  enrolled-Known : (a : Member Ctx) (t : Team Ctx) → Known t → Known (enrolled a t)
  enrolled-Known a t known tool n e =
      let name = a.config.name in
      ground (
        arith,
        known tool n,
        lookup-insert (tool_name name) tool name t.tools,
        lookup-insert name n a.config t.configs,
        String-Comparable.tells_apart (tool_name name) tool,
        String-Comparable.tells_apart name n,
      )

  register-Known :
      (agents : List (Member Ctx)) (t u : Team Ctx) → Known t → register agents t ≡ ok u → Known u
  unfolding register
  register-Known [] t u known e = let same : t ≡ u = cc e in subst Known same known
  register-Known (a ∷ agents) t u known e =
      let (free, unused, rest) = register_inv a agents t u e in
      register-Known agents (enrolled a t) u (enrolled-Known a t known) rest

  -- The second loop keeps the tools, and every agent it had.
  abbrev Keeps : Team Ctx → Team Ctx → Type 0
  Keeps t u =
      (u.tools ≡ t.tools)
      × ((n : String) → is_some (lookup n t.configs) ≡ true → is_some (lookup n u.configs) ≡ true)

  with_filter_kept :
      (from : String) (h : To Ctx) (t : Team Ctx)
      → ((with_filter from h t).tools ≡ t.tools) × ((with_filter from h t).configs ≡ t.configs)
  with_filter_kept from h t =
      by_option (λ (v : Team Ctx). (v.tools ≡ t.tools) × (v.configs ≡ t.configs)) h.filter
        (λ e. (refl, refl)) (λ f e. (refl, refl))

  add_handoffs-Keeps :
      (cfg : Config Ctx) (seen : List String) (handoffs : List (To Ctx))
      (transfers : List (Tool × Option (Ctx → Bool))) (t : Team Ctx)
      (out : List (Tool × Option (Ctx → Bool)) × Team Ctx)
      → add_handoffs cfg seen handoffs transfers t ≡ ok out
      → (out.1.tools ≡ t.tools) × (out.1.configs ≡ t.configs)
  unfolding add_handoffs
  add_handoffs-Keeps cfg seen [] transfers t out = λ e.
      let same : (transfers, t) ≡ out = cc e in
      (ap (λ o. o.1.tools) (sym same), ap (λ o. o.1.configs) (sym same))
  add_handoffs-Keeps cfg seen (h ∷ handoffs) transfers t out =
      let to = append transfers (transfer_to (lookup h.agent t.configs) h) in
      by_option
        (λ (r : Result TeamError (List (Tool × Option (Ctx → Bool)) × Team Ctx)).
          r ≡ ok out → (out.1.tools ≡ t.tools) × (out.1.configs ≡ t.configs))
        (refused t cfg seen h)
        (λ f e.
          let (tools, configs) =
            add_handoffs-Keeps cfg (h.agent ∷ seen) handoffs to (with_filter cfg.name h t) out e in
          let (tools', configs') = with_filter_kept cfg.name h t in
          (tools ∙ tools', configs ∙ configs'))
        (λ x f e. absurd (cc))

  -- What an agent's offers are put in.
  abbrev updated : Member Ctx → List (Tool × Option (Ctx → Bool)) × Team Ctx → Team Ctx
  updated a (transfers, t) = record t {
    configs = insert a.config.name (offer a.config transfers) t.configs;
  }

  add_offers_inv :
      (a : Member Ctx) (agents : List (Member Ctx)) (t u : Team Ctx)
      → add_offers (a ∷ agents) t ≡ ok u
      → (out : List (Tool × Option (Ctx → Bool)) × Team Ctx) × (add_handoffs a.config [] a.handoffs
            [] t
          ≡ ok out)
        × (add_offers agents (updated a out) ≡ ok u)
  unfolding add_offers
  add_offers_inv a agents t u e = elim (Result-cases (add_handoffs a.config [] a.handoffs [] t)) [
    | inl (out, f) ↦ (out, f, ground (arith, f))
    | inr (x, f) ↦ absurd (ground (arith, f))
  ]

  updated-Keeps :
      (a : Member Ctx) (t : Team Ctx) (out : List (Tool × Option (Ctx → Bool)) × Team Ctx)
      → add_handoffs a.config [] a.handoffs [] t ≡ ok out
      → Keeps t (updated a out)
  updated-Keeps a t out e =
      let (tools, configs) = add_handoffs-Keeps a.config [] a.handoffs [] t out e in
      (
        tools,
        λ n h.
            ground
              (arith, configs, lookup-insert a.config.name n (offer a.config out.0) out.1.configs),
      )

  add_offers-Keeps :
      (agents : List (Member Ctx)) (t u : Team Ctx) → add_offers agents t ≡ ok u → Keeps t u
  unfolding add_offers
  add_offers-Keeps [] t u e = let same : t ≡ u = cc e in subst (Keeps t) same (refl, λ n h. h)
  add_offers-Keeps (a ∷ agents) t u e =
      let (out, added, rest) = add_offers_inv a agents t u e in
      let (tools, names) = updated-Keeps a t out added in
      let (tools', names') = add_offers-Keeps agents (updated a out) u rest in
      (tools' ∙ tools, λ n h. names' n (names n h))

  new_inv :
      (agents : List (Member Ctx)) (u : Team Ctx)
      → new agents ≡ ok u
      → (t : Team Ctx) × (register agents empty_team ≡ ok t) × (add_offers agents t ≡ ok u)
  unfolding new
  new_inv agents u e = elim (Result-cases (register agents empty_team)) [
    | inl (t, f) ↦ (t, f, ground (arith, f))
    | inr (x, f) ↦ absurd (ground (arith, f))
  ]

-- In a team that New builds, the transfer tool of each of its agents leads to that agent; and whatever
-- tool leads anywhere is the transfer tool of the agent that it leads to, one that the team holds. So
-- no two agents of a team share a transfer tool, and Route finds the receiver by the tool's name alone.
pub new-transfers :
    {Ctx : Type 0} (agents : List (Member Ctx)) (t : Team Ctx)
    → new agents ≡ ok t
    → All (λ a. lookup (tool_name a.config.name) t.tools ≡ some a.config.name) agents
      × ((tool n : String)
          → lookup tool t.tools ≡ some n
          → (tool ≡ tool_name n) × (is_some (lookup n t.configs) ≡ true))
unfolding lookup
new-transfers agents t e =
    let (u, registered, offers) = new_inv agents t e in
    let (tools, names) = add_offers-Keeps agents u t offers in
    (
      subst (λ ts. All (λ a. lookup (tool_name a.config.name) ts ≡ some a.config.name) agents)
          (sym tools) (register-Found agents empty_team u registered),
      λ tool n f.
          let (is, held) =
            register-Known agents empty_team u (λ tool n e. absurd (cc)) registered tool n
              (subst (λ ts. lookup tool ts ≡ some n) tools f) in
          (is, names n held),
    )

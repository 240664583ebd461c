-- ===== src/Agent/Answers/Laws.antt =====
-- agent.go: what answersPending lets through, and which calls may run again.
use agentturn.Base.{
  Bool, true, false, not, ◌&&◌, List, [], ◌∷◌, map, none, some, String, ok, err, ◌==◌,
  String-Comparable, if◌then◌else◌, contains, contains-add_key, ◌≡◌, refl, sym, ap, ◌∙◌, subst,
  arith, inl, inr, ◌⊎◌, ◌↔◌, Bool-cases, Option-cases,
}
use agentturn.Items.{Item, Input, output_id_of, unhide_all}
use agentturn.Items.Marks.{base, strip, unhide_all-eq-map}
use agentturn.Loop.{PendingCall}
use agentturn.Loop.Pending.{id_of}
use agentturn.Agent.Answers.{
  not_pending, output_of, remove_key, wanted, answers_loop, settled, answers_pending, Replay, safe,
  keyed, unsafe, RunAgain, safe_reason, keyed_reason, run_again,
}

-- The IDs of the outputs that open a prompt.
abbrev pub leading : List Item → List String
leading [] = []
leading (item ∷ items) = elim (output_id_of item) [ none ↦ [] | some id ↦ id ∷ leading items ]

abbrev pub distinct : List String → Bool
distinct [] = true
distinct (id ∷ ids) = not (contains ids id) && distinct ids

-- Each ID is pending, and only once among the answers.
abbrev pub Answer : List String → List String → Type 0
Answer want ids = (distinct ids ≡ true) × ((id : String) → contains want id ≡ contains ids id)

contains-remove_key :
    (id k : String) (want : List String)
    → contains (remove_key id want) k ≡ (if id == k then false else contains want k)
unfolding contains
contains-remove_key id k [] = ground arith
contains-remove_key id k (j ∷ want) = elim (Bool-cases (j == id)) [
  | inl e ↦ elim (Bool-cases (j == k)) [
    | inl f ↦ ground (
      arith,
      e,
      f,
      contains-remove_key id k want,
      String-Comparable.tells_apart j id,
      String-Comparable.tells_apart j k,
      String-Comparable.tells_apart id k,
    )
    | inr f ↦ ground (arith, e, f, contains-remove_key id k want)
  ]
  | inr e ↦ ground (
    arith,
    e,
    contains-remove_key id k want,
    String-Comparable.tells_apart j id,
    String-Comparable.tells_apart j k,
    String-Comparable.tells_apart id k,
  )
]

contains-wanted :
    (pending : List PendingCall) (id : String)
    → contains (wanted pending) id ≡ contains (map (λ p. id_of p.call) pending) id
unfolding contains
contains-wanted [] id = refl
contains-wanted (p ∷ pending) id =
    ground (arith, contains-add_key (id_of p.call) id (wanted pending), contains-wanted pending id)

-- Nothing is pending once nothing is wanted.
settled_sound :
    (want : List String) → settled (ok want) ≡ ok tt → (id : String) → contains want id ≡ false
unfolding contains
settled_sound [] h id = refl
settled_sound (k ∷ want) h id = absurd (ground (arith, h))

settled_complete :
    (want : List String) → ((id : String) → contains want id ≡ false) → settled (ok want) ≡ ok tt
unfolding contains
settled_complete [] h = refl
settled_complete (k ∷ want) h = absurd (ground (arith, h k, String-Comparable.tells_apart k k))

Answer-step :
    (want : List String) (id : String) (ids : List String)
    → contains want id ≡ true
    → Answer (remove_key id want) ids
    → Answer want (id ∷ ids)
unfolding contains
Answer-step want id ids w (d, same) = (
  ground (arith, d, same id, contains-remove_key id id want, String-Comparable.tells_apart id id),
  λ k. elim (Bool-cases (id == k)) [
    | inl e ↦ ground (arith, e, w, String-Comparable.tells_apart id k)
    | inr e ↦ ground (arith, e, same k, contains-remove_key id k want)
  ],
)

Answer-tail :
    (want : List String) (id : String) (ids : List String)
    → Answer want (id ∷ ids)
    → (contains want id ≡ true) × Answer (remove_key id want) ids
unfolding contains
Answer-tail want id ids (d, same) = (
  ground (arith, same id, String-Comparable.tells_apart id id),
  (
    ground (arith, d),
    λ k. elim (Bool-cases (id == k)) [
      | inl e ↦
          ground (arith, e, d, contains-remove_key id k want, String-Comparable.tells_apart id k)
      | inr e ↦ ground (arith, e, same k, contains-remove_key id k want)
    ],
  ),
)

-- The same of items in their wrappers, as the loop reads them.
abbrev opening : List Input → List String
opening [] = []
opening (item ∷ items) = elim (output_of item) [ none ↦ [] | some id ↦ id ∷ opening items ]

opening-strip : (prompts : List Input) → opening (map strip prompts) ≡ leading (map base prompts)
opening-strip [] = refl
opening-strip (i ∷ prompts) = elim (Option-cases (output_id_of (base i))) [
  | inl e ↦ ground (arith, e)
  | inr (id, e) ↦ ground (arith, e, opening-strip prompts)
]

module _ (want : List String) (item : Input) (items : List Input) where
  opened_none :
      output_of item ≡ none
      → (opening (item ∷ items) ≡ []) × (answers_loop want (item ∷ items) ≡ ok want)
  unfolding answers_loop
  opened_none e = (ground (arith, e), ground (arith, e))

  opened_some :
      {id : String}
      → output_of item ≡ some id
      → (opening (item ∷ items) ≡ id ∷ opening items)
        × (answers_loop want (item ∷ items) ≡ (
            if contains want id
            then answers_loop (remove_key id want) items
            else err (not_pending id)))
  unfolding answers_loop
  opened_some e = (ground (arith, e), rw (e, answers_loop) refl)

loop_sound :
    (want : List String) (items : List Input)
    → settled (answers_loop want items) ≡ ok tt
    → Answer want (opening items)
unfolding answers_loop contains
loop_sound want [] h = (refl, settled_sound want h)
loop_sound want (item ∷ items) h = elim (Option-cases (output_of item)) [
  | inl e ↦
      let (l, r) = opened_none want item items e in
      subst (Answer want) (sym l) (refl, settled_sound want (ap settled (sym r) ∙ h))
  | inr (id, e) ↦
      let (l, r) = opened_some want item items e in
      elim (Bool-cases (contains want id)) [
        | inl w ↦ subst (Answer want) (sym l) (
            Answer-step want id (opening items) w
              (loop_sound (remove_key id want) items (ground (arith, r, w, h))))
        | inr w ↦ absurd (ground (arith, r, w, h))
      ]
]

loop_complete :
    (want : List String) (items : List Input)
    → Answer want (opening items)
    → settled (answers_loop want items) ≡ ok tt
unfolding answers_loop contains
loop_complete want [] (d, same) = settled_complete want same
loop_complete want (item ∷ items) a = elim (Option-cases (output_of item)) [
  | inl e ↦
      let (l, r) = opened_none want item items e in
      ap settled r ∙ settled_complete want (subst (Answer want) l a).1
  | inr (id, e) ↦
      let (l, r) = opened_some want item items e in
      let (w, rest) = Answer-tail want id (opening items) (subst (Answer want) l a) in
      ap settled (r ∙ rw w refl) ∙ loop_complete (remove_key id want) items rest
]

-- The check lets a prompt through exactly when the outputs that open it, their marks aside, answer
-- every pending call, each once, and nothing else.
pub answers_pending-Answer :
    (pending : List PendingCall) (prompts : List Input)
    → (answers_pending pending prompts ≡ ok tt)
      ↔ Answer (map (λ p. id_of p.call) pending) (leading (map base prompts))
unfolding answers_pending
answers_pending-Answer pending prompts =
    let opens : opening (unhide_all prompts) ≡ leading (map base prompts) =
      ap opening (unhide_all-eq-map prompts) ∙ opening-strip prompts in
    (
      λ h.
          let (d, same) =
            subst (Answer (wanted pending)) opens
              (loop_sound (wanted pending) (unhide_all prompts) h) in
          (d, λ id. sym (contains-wanted pending id) ∙ same id),
      λ (d, same). loop_complete (wanted pending) (unhide_all prompts) (
          subst (Answer (wanted pending)) (sym opens)
            (d, λ id. contains-wanted pending id ∙ same id)),
    )

-- A call that may have run runs again when its tool's replay is safe, or when it is keyed, its key is
-- known, and it is the key of the hand-off exactly if the arguments are; in no other case.
pub run_again_iff :
    (replay : Replay) (same : Bool) (key prior_key : String)
    → ((reason : RunAgain) × (run_again replay same key prior_key ≡ ok reason))
      ↔ ((replay ≡ safe) ⊎ ((replay ≡ keyed) × ((key == "") ≡ false) × ((key == prior_key) ≡ same)))
unfolding run_again
run_again_iff safe same key prior_key = (λ h. inl refl, λ h. (safe_reason, refl))
run_again_iff unsafe same key prior_key =
    (λ (r, h). absurd (ground (arith, h)), λ h. absurd (ground (arith, h)))
run_again_iff keyed same key prior_key = (
  λ (r, h). inr (refl, ground (arith, h), ground (arith, h)),
  λ h. (
    keyed_reason,
    elim h [
      | inl e ↦ absurd (ground (arith, e))
      | inr (_, k, s) ↦ ground (arith, k, s, String-Comparable.tells_apart key prior_key)
    ],
  ),
)
